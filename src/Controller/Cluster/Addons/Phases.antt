-- ===== src/Controller/Cluster/Addons/Phases.antt =====
-- stepWatchAddons and the lifecycle.
use smeltry_operator.Base.{refl, ◌&&◌, Bool, true, List, [], ◌∷◌, arith, String}
use smeltry_operator.Api.{ClusterClaim, ClusterClaimPhase, AddonComponent}
use smeltry_operator.Effect.{Event, body}
use smeltry_operator.Effect.Emits.{
  Emits, Any, Emits-body, Runs, Runs-bind, Runs-call, Runs-pure, Runs-checked, Runs-valued,
  Emits-logged, Emits-silent, Runs-return_if, Runs-if,
}
use smeltry_operator.Controller.Reply.{failure, retry}
use smeltry_operator.Controller.Cluster.Defs.{ClusterClaimReconciler}
use smeltry_operator.Controller.Cluster.Lifecycle.{Quiet, Lifecycle}
use smeltry_operator.Controller.Cluster.Addons.{
  ensure_helm_release, helm_release_ready, ensure_all, all_ready, step_watch_addons,
  sort_components,
}

module _ {W : Type 0} (r : ClusterClaimReconciler W) (claim : ClusterClaim) where
  abbrev P : Event → Type 0
  P = Quiet claim

  ensure_helm_release-Emits :
      (comp : AddonComponent) → Emits P Any (ensure_helm_release r claim comp)
  unfolding body ensure_helm_release
  ensure_helm_release-Emits comp = record { at = λ w. ground arith }

  ensure_all-Runs : (comps : List AddonComponent) → Runs P Any Any (ensure_all r claim comps)
  unfolding ensure_all
  ensure_all-Runs [] = Runs-pure P Any Any tt tt
  ensure_all-Runs (comp ∷ comps) =
      Runs-bind P Any Any Any _ _
        (Runs-checked P Any _ retry (ensure_helm_release-Emits comp) λ _. tt)
        λ _ _. ensure_all-Runs comps

  helm_release_ready-Emits : (name : String) → Emits P Any (helm_release_ready r claim name)
  unfolding body helm_release_ready
  helm_release_ready-Emits name = record { at = λ w. ground arith }

  all_ready-Runs :
      (comps : List AddonComponent) (so_far : Bool)
      → Runs P Any Any (all_ready r claim comps so_far)
  unfolding all_ready
  all_ready-Runs [] so_far = Runs-pure P Any Any so_far tt
  all_ready-Runs (comp ∷ comps) so_far =
      Runs-if comp.required _ _
        (Runs-bind P Any Any Any _ _
          (Runs-valued P Any _ retry (helm_release_ready-Emits comp.name) λ _. tt)
          λ ready _. all_ready-Runs comps (so_far && ready))
        (all_ready-Runs comps so_far)

  pub step_watch_addons-Quiet :
      Lifecycle claim.status.phase ClusterClaimPhase.addons_ready
      → Emits P Any (step_watch_addons r claim)
  unfolding step_watch_addons
  step_watch_addons-Quiet up = Emits-body P Any _ (
      Runs-bind P Any Any Any _ _ (Runs-valued P Any _ failure (Emits-logged P _ _ λ _. tt) λ _. tt)
        λ ap _.
          Runs-bind P Any Any Any _ _ (ensure_all-Runs (sort_components ap.spec.components)) λ _ _.
            Runs-bind P Any Any Any _ _ (all_ready-Runs (sort_components ap.spec.components) true)
              λ ready _. Runs-bind P Any _ Any _ _ (Runs-return_if P Any _ _ λ _. tt) λ _ _.
                Runs-bind P Any Any Any _ _ (Runs-call P Any Any _ (Emits-silent P _)) λ now _.
                  Runs-bind P Any Any Any _ _
                    (Runs-call P Any Any _ (Emits-logged P _ _ λ _. (up, refl, refl, refl, refl)))
                    λ e _. Runs-pure P Any Any _ tt)
