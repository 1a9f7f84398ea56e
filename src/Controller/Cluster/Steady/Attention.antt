-- ===== src/Controller/Cluster/Steady/Attention.antt =====
-- stepReconcileReady comes back to its claim.
use smeltry_operator.Base.{
  not, ℕ, ◌-◌, ltb, length, zero, suc, ◌≡◌, refl, String, true, Option, none, some, List, [], ◌∷◌,
  arith, ℤ,
}
use smeltry_operator.Api.{ClusterClaim}
use smeltry_operator.Netbox.{Device}
use smeltry_operator.Effect.{body}
use smeltry_operator.Controller.Reply.{failure, retry}
use smeltry_operator.Controller.Attention.{
  is_set, Back, Closes-body, Closes-call, Attends, Closes, Attends-bind, Closes-bind, Attends-pure,
  Attends-call, Attends-valued, Attends-checked, Closes-pure, Closes-if,
}
use smeltry_operator.Controller.Cluster.Attention.{watched}
use smeltry_operator.Controller.Cluster.Defs.{ClusterClaimReconciler}
use smeltry_operator.Controller.Cluster.Steady.{
  stage_machines, scale_up_blocked, stage_and_record, scale_up, scale_down_blocked,
  release_machines, release_and_record, scale_down, rescale, await_deletion, delete_at,
  step_reconcile_ready,
}

module _ {W : Type 0} (r : ClusterClaimReconciler W) where
  stage_machines-Attends :
      (tenant : String) (delta : ℕ) (machines : List Device) (ids : List ℕ)
      → Attends watched (stage_machines r tenant delta machines ids)
  unfolding stage_machines
  stage_machines-Attends tenant zero machines ids = Attends-pure watched ids
  stage_machines-Attends tenant (suc delta) [] ids = Attends-pure watched ids
  stage_machines-Attends tenant (suc delta) (m ∷ machines) ids =
      Attends-bind watched _ _ (Attends-checked watched _ retry λ _. refl)
        λ _. stage_machines-Attends tenant delta machines _

  scale_up-Back : (claim : ClusterClaim) (delta : ℕ) → Back watched (scale_up r claim delta)
  unfolding scale_up scale_up_blocked stage_and_record
  scale_up-Back claim delta = Closes-body watched _ (
      Closes-bind watched _ _ (Attends-valued watched _ failure λ _. refl) λ site.
        Closes-bind watched _ _ (Attends-valued watched _ retry λ _. refl) λ machines.
          Closes-if watched _ _ _
            (Closes-bind watched _ _ (Attends-call watched _) λ now.
              Closes-bind watched _ _ (Attends-call watched _)
                λ e. Closes-pure watched _ (ground arith))
            (Closes-bind watched _ _ (stage_machines-Attends _ delta machines _) λ ids.
              Closes-bind watched _ _ (Attends-call watched _)
                λ e. Closes-pure watched _ (ground arith)))

  release_machines-Attends : (ids : List ℕ) → Attends watched (release_machines r ids)
  unfolding release_machines
  release_machines-Attends [] = Attends-pure watched tt
  release_machines-Attends (id ∷ ids) =
      Attends-bind watched _ _ (Attends-checked watched _ retry λ _. refl)
        λ _. release_machines-Attends ids

  scale_down_blocked-Closes : (claim : ClusterClaim) → Closes watched (scale_down_blocked r claim)
  unfolding body scale_down_blocked
  scale_down_blocked-Closes claim = record { at = λ w. ground arith }

  scale_down-Back : (claim : ClusterClaim) (delta : ℕ) → Back watched (scale_down r claim delta)
  unfolding scale_down release_and_record
  scale_down-Back claim delta = Closes-body watched _ (
      Closes-bind watched _ _ (Attends-valued watched _ failure λ _. refl) λ ap.
        Closes-if watched _ _ _ (scale_down_blocked-Closes claim) (
          Closes-bind watched _ _ (release_machines-Attends _) λ _.
            Closes-bind watched _ _ (Attends-call watched _)
              λ e. Closes-pure watched _ (ground arith)))

  rescale-Closes : (claim : ClusterClaim) → Closes watched (rescale r claim)
  unfolding rescale
  rescale-Closes claim =
      let desired = claim.spec.machine_count in
      let actual = length claim.status.allocated_machine_ids in
      Closes-if watched (ltb actual desired) _ _
        (Closes-call watched (scale_up r claim (desired - actual)) (scale_up-Back claim _))
        (Closes-if watched (ltb desired actual) _ _
          (Closes-call watched (scale_down r claim (actual - desired)) (scale_down-Back claim _))
          (Closes-pure watched _ refl))

  ready-Closes :
      (claim : ClusterClaim) (at : Option ℤ)
      → not (is_set at) ≡ true
      → Closes watched (elim at [ some t ↦ await_deletion r claim t | none ↦ rescale r claim ])
  ready-Closes claim (some t) h = cc
  ready-Closes claim none h = rescale-Closes claim

  pub step_reconcile_ready-Back :
      (claim : ClusterClaim)
      → not (is_set (delete_at r claim)) ≡ true
      → Back watched (step_reconcile_ready r claim)
  unfolding step_reconcile_ready
  step_reconcile_ready-Back claim h =
      Closes-body watched _ (ready-Closes claim (delete_at r claim) h)
