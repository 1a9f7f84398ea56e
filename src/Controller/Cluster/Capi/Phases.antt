-- ===== src/Controller/Cluster/Capi/Phases.antt =====
-- ensureCAPIObjects writes no status, and leaves the phase or moves it to ClusterReady.
use smeltry_operator.Base.{◌≡◌, Bool, true, false, arith}
use smeltry_operator.Error.{Result, ok, err}
use smeltry_operator.Api.{ClusterClaim, ClusterClaimPhase, SiteConfig}
use smeltry_operator.Effect.{Event, body}
use smeltry_operator.Effect.Emits.{Emits, Any, Emits-body, Runs, Runs-bind, Runs-return_if}
use smeltry_operator.Controller.Cluster.Defs.{ClusterClaimReconciler}
use smeltry_operator.Controller.Cluster.Lifecycle.{Quiet, Alike}
use smeltry_operator.Controller.Cluster.Capi.{
  ensure_capi_objects, ensure_control_plane, ensure_tinkerbell_cluster, ensure_cluster,
  ensure_machine_template, ensure_machine_deployment, ensure_service, observe_control_plane,
  with_cluster_ref,
}

-- The phase is as it was, or the claim has moved to ClusterReady.
abbrev pub Seen : ClusterClaim → Bool × ClusterClaim → Type 0
Seen old (false, new) = Alike old new
Seen old (true, new) =
    (new.status.phase ≡ ClusterClaimPhase.cluster_ready)
    × (new.meta ≡ old.meta)
    × (new.spec ≡ old.spec)
    × (new.status.netbox_ipam_ids ≡ old.status.netbox_ipam_ids)
    × (new.status.allocated_machine_ids ≡ old.status.allocated_machine_ids)

abbrev pub Observed : ClusterClaim → Result (Bool × ClusterClaim) → Type 0
Observed old (err _) = Unit
Observed old (ok seen) = Seen old seen

module _ {W : Type 0} (r : ClusterClaimReconciler W) (old claim : ClusterClaim) where
  abbrev P : Event → Type 0
  P = Quiet old

  ensure_control_plane-Runs :
      (site : SiteConfig) → Runs P (Observed old) Any (ensure_control_plane r claim site)
  unfolding body ensure_control_plane
  ensure_control_plane-Runs site = record { at = λ w. ground arith }

  ensure_tinkerbell_cluster-Runs : Runs P (Observed old) Any (ensure_tinkerbell_cluster r claim)
  unfolding body ensure_tinkerbell_cluster
  ensure_tinkerbell_cluster-Runs = record { at = λ w. ground arith }

  ensure_cluster-Runs : Runs P (Observed old) Any (ensure_cluster r claim)
  unfolding body ensure_cluster
  ensure_cluster-Runs = record { at = λ w. ground arith }

  ensure_machine_template-Runs : Runs P (Observed old) Any (ensure_machine_template r claim)
  unfolding body ensure_machine_template
  ensure_machine_template-Runs = record { at = λ w. ground arith }

  ensure_machine_deployment-Runs : Runs P (Observed old) Any (ensure_machine_deployment r claim)
  unfolding body ensure_machine_deployment
  ensure_machine_deployment-Runs = record { at = λ w. ground arith }

  ensure_service-Runs :
      (site : SiteConfig) → Runs P (Observed old) Any (ensure_service r claim site)
  unfolding body ensure_service
  ensure_service-Runs site = record { at = λ w. ground arith }

  observe_control_plane-Runs :
      Alike old claim → Runs P (Observed old) (Observed old) (observe_control_plane r claim)
  unfolding body observe_control_plane
  observe_control_plane-Runs h = record { at = λ w. ground arith }

module _ {W : Type 0} (r : ClusterClaimReconciler W) (old claim : ClusterClaim)
    (site : SiteConfig) where
  pub ensure_capi_objects-Quiet :
      Alike old claim → Emits (Quiet old) (Observed old) (ensure_capi_objects r claim site)
  unfolding ensure_capi_objects
  ensure_capi_objects-Quiet h =
      let P = Quiet old in
      let X = Observed old in
      Emits-body P X _ (
        Runs-bind P X _ X _ _ (Runs-return_if P X _ _ (λ _. tt)) λ _ _.
          Runs-bind P X Any X _ _ (ensure_control_plane-Runs r old claim site) λ _ _.
            Runs-bind P X Any X _ _ (ensure_tinkerbell_cluster-Runs r old claim) λ _ _.
              Runs-bind P X Any X _ _ (ensure_cluster-Runs r old claim) λ _ _.
                Runs-bind P X Any X _ _ (ensure_machine_template-Runs r old claim) λ _ _.
                  Runs-bind P X Any X _ _ (ensure_machine_deployment-Runs r old claim) λ _ _.
                    Runs-bind P X Any X _ _ (ensure_service-Runs r old claim site)
                      λ _ _. observe_control_plane-Runs r old (with_cluster_ref r claim) h)
