-- ===== src/Controller/Cluster/Addons/Attention.antt =====
-- stepWatchAddons comes back to its claim.
use smeltry_operator.Base.{refl, Bool, true, List, [], ◌∷◌, ◌&&◌, arith}
use smeltry_operator.Api.{ClusterClaim, AddonComponent}
use smeltry_operator.Controller.Reply.{failure, retry}
use smeltry_operator.Controller.Attention.{
  Back, Closes-body, Attends, Attends-bind, Closes-bind, Attends-pure, Attends-call, Attends-if,
  Attends-valued, Attends-checked, Attends-return_if, Closes-pure,
}
use smeltry_operator.Controller.Cluster.Attention.{watched}
use smeltry_operator.Controller.Cluster.Defs.{ClusterClaimReconciler}
use smeltry_operator.Controller.Cluster.Addons.{
  ensure_all, all_ready, step_watch_addons, sort_components,
}

module _ {W : Type 0} (r : ClusterClaimReconciler W) where
  ensure_all-Attends :
      (claim : ClusterClaim) (comps : List AddonComponent)
      → Attends watched (ensure_all r claim comps)
  unfolding ensure_all
  ensure_all-Attends claim [] = Attends-pure watched tt
  ensure_all-Attends claim (comp ∷ comps) =
      Attends-bind watched _ _ (Attends-checked watched _ retry λ _. refl)
        λ _. ensure_all-Attends claim comps

  all_ready-Attends :
      (claim : ClusterClaim) (comps : List AddonComponent) (so_far : Bool)
      → Attends watched (all_ready r claim comps so_far)
  unfolding all_ready
  all_ready-Attends claim [] so_far = Attends-pure watched so_far
  all_ready-Attends claim (comp ∷ comps) so_far =
      Attends-if watched comp.required _ _
        (Attends-bind watched _ _ (Attends-valued watched _ retry λ _. refl)
          λ ready. all_ready-Attends claim comps (so_far && ready))
        (all_ready-Attends claim comps so_far)

  pub step_watch_addons-Back : (claim : ClusterClaim) → Back watched (step_watch_addons r claim)
  unfolding step_watch_addons
  step_watch_addons-Back claim = Closes-body watched _ (
      Closes-bind watched _ _ (Attends-valued watched _ failure λ _. refl) λ ap.
        Closes-bind watched _ _ (ensure_all-Attends claim (sort_components ap.spec.components)) λ _.
          Closes-bind watched _ _
            (all_ready-Attends claim (sort_components ap.spec.components) true)
            λ ready. Closes-bind watched _ _ (Attends-return_if watched _ _ refl) λ _.
              Closes-bind watched _ _ (Attends-call watched _) λ now.
                Closes-bind watched _ _ (Attends-call watched _)
                  λ e. Closes-pure watched _ (ground arith))
