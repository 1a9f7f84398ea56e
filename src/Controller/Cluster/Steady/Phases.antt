-- ===== src/Controller/Cluster/Steady/Phases.antt =====
-- stepReconcileReady and the lifecycle: the phase stays.
use smeltry_operator.Base.{ℕ, zero, suc, refl, String, Option, some, none, ℤ, List, [], ◌∷◌, arith}
use smeltry_operator.Api.{ClusterClaim}
use smeltry_operator.Netbox.{Device}
use smeltry_operator.Controller.Reply.{failure, retry}
use smeltry_operator.Effect.{Event, body}
use smeltry_operator.Effect.Emits.{
  Emits, Any, Emits-body, Runs, Runs-bind, Runs-call, Runs-pure, Runs-checked, Runs-valued, Runs-if,
  Emits-logged,
}
use smeltry_operator.Controller.Cluster.Defs.{ClusterClaimReconciler}
use smeltry_operator.Controller.Cluster.Lifecycle.{Follows, Lifecycle}
use smeltry_operator.Controller.Cluster.Steady.{
  stage_machines, scale_up_blocked, stage_and_record, scale_up, scale_down_blocked,
  release_machines, release_and_record, scale_down, rescale, await_deletion, step_reconcile_ready,
}

module _ {W : Type 0} (r : ClusterClaimReconciler W) (claim : ClusterClaim) where
  abbrev P : Event → Type 0
  P = Follows claim

  stage_machines-Runs :
      (tenant : String) (delta : ℕ) (machines : List Device) (ids : List ℕ)
      → Runs P Any Any (stage_machines r tenant delta machines ids)
  unfolding stage_machines
  stage_machines-Runs tenant zero machines ids = Runs-pure P Any Any ids tt
  stage_machines-Runs tenant (suc delta) [] ids = Runs-pure P Any Any ids tt
  stage_machines-Runs tenant (suc delta) (m ∷ machines) ids =
      Runs-bind P Any Any Any _ _ (Runs-checked P Any _ retry (Emits-logged P _ _ λ _. tt) λ _. tt)
        λ _ _. stage_machines-Runs tenant delta machines _

  scale_up_blocked-Runs :
      (delta available : ℕ) → Runs P Any Any (scale_up_blocked r claim delta available)
  unfolding body scale_up_blocked
  scale_up_blocked-Runs delta available = record {
    at = λ w. (((Lifecycle.stay _, refl, refl, refl), tt), tt);
  }

  stage_and_record-Runs :
      (delta : ℕ) (machines : List Device)
      → Runs P Any Any (stage_and_record r claim delta machines)
  unfolding stage_and_record
  stage_and_record-Runs delta machines =
      Runs-bind P Any Any Any _ _ (stage_machines-Runs _ delta machines _) λ ids _.
        Runs-bind P Any Any Any _ _
          (Runs-call P Any Any _ (Emits-logged P _ _ λ _. (Lifecycle.stay _, refl, refl, refl)))
          λ e _. Runs-pure P Any Any _ tt

  scale_up-Emits : (delta : ℕ) → Emits P Any (scale_up r claim delta)
  unfolding scale_up
  scale_up-Emits delta = Emits-body P Any _ (
      Runs-bind P Any Any Any _ _ (Runs-valued P Any _ failure (Emits-logged P _ _ λ _. tt) λ _. tt)
        λ site _.
          Runs-bind P Any Any Any _ _
            (Runs-valued P Any _ retry (Emits-logged P _ _ λ _. tt) λ _. tt)
            λ machines _.
              Runs-if _ _ _ (scale_up_blocked-Runs delta _) (stage_and_record-Runs delta machines))

  scale_down_blocked-Runs : Runs P Any Any (scale_down_blocked r claim)
  unfolding body scale_down_blocked
  scale_down_blocked-Runs = record { at = λ w. (((Lifecycle.stay _, refl, refl, refl), tt), tt) }

  release_machines-Runs : (ids : List ℕ) → Runs P Any Any (release_machines r ids)
  unfolding release_machines
  release_machines-Runs [] = Runs-pure P Any Any tt tt
  release_machines-Runs (id ∷ ids) =
      Runs-bind P Any Any Any _ _ (Runs-checked P Any _ retry (Emits-logged P _ _ λ _. tt) λ _. tt)
        λ _ _. release_machines-Runs ids

  release_and_record-Runs : (delta : ℕ) → Runs P Any Any (release_and_record r claim delta)
  unfolding release_and_record
  release_and_record-Runs delta = Runs-bind P Any Any Any _ _ (release_machines-Runs _) λ _ _.
      Runs-bind P Any Any Any _ _
        (Runs-call P Any Any _ (Emits-logged P _ _ λ _. (Lifecycle.stay _, refl, refl, refl)))
        λ e _. Runs-pure P Any Any _ tt

  scale_down-Emits : (delta : ℕ) → Emits P Any (scale_down r claim delta)
  unfolding scale_down
  scale_down-Emits delta = Emits-body P Any _ (
      Runs-bind P Any Any Any _ _ (Runs-valued P Any _ failure (Emits-logged P _ _ λ _. tt) λ _. tt)
        λ ap _. Runs-if _ _ _ scale_down_blocked-Runs (release_and_record-Runs delta))

  rescale-Runs : Runs P Any Any (rescale r claim)
  unfolding rescale
  rescale-Runs =
      Runs-if _ _ _ (Runs-call P Any Any _ (scale_up-Emits _))
        (Runs-if _ _ _ (Runs-call P Any Any _ (scale_down-Emits _)) (Runs-pure P Any Any _ tt))

  await_deletion-Runs : (t : ℤ) → Runs P Any Any (await_deletion r claim t)
  unfolding body await_deletion
  await_deletion-Runs t = record { at = λ w. ground arith }

  ready-Runs :
      (at : Option ℤ)
      → Runs P Any Any (elim at [ some t ↦ await_deletion r claim t | none ↦ rescale r claim ])
  ready-Runs (some t) = await_deletion-Runs t
  ready-Runs none = rescale-Runs

  pub step_reconcile_ready-Follows : Emits P Any (step_reconcile_ready r claim)
  unfolding step_reconcile_ready
  step_reconcile_ready-Follows = Emits-body P Any _ (ready-Runs _)
