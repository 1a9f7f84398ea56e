-- ===== src/Controller/Cluster/Capi/Calls.antt =====
-- ensureCAPIObjects takes nothing in Netbox.
use smeltry_operator.Base.{arith}
use smeltry_operator.Api.{ClusterClaim, SiteConfig}
use smeltry_operator.Effect.{body}
use smeltry_operator.Effect.Emits.{Emits, Any, Emits-body, Runs, Runs-bind, Runs-return_if}
use smeltry_operator.Controller.Addresses.{TakesNothing}
use smeltry_operator.Controller.Cluster.Defs.{ClusterClaimReconciler}
use smeltry_operator.Controller.Cluster.Capi.{
  ensure_capi_objects, ensure_control_plane, ensure_tinkerbell_cluster, ensure_cluster,
  ensure_machine_template, ensure_machine_deployment, ensure_service, observe_control_plane,
  with_cluster_ref,
}

module _ {W : Type 0} (r : ClusterClaimReconciler W) (claim : ClusterClaim)
    (site : SiteConfig) where
  control_plane-TakesNothing : Runs TakesNothing Any Any (ensure_control_plane r claim site)
  unfolding body ensure_control_plane
  control_plane-TakesNothing = record { at = λ w. ground arith }

  tinkerbell-TakesNothing : Runs TakesNothing Any Any (ensure_tinkerbell_cluster r claim)
  unfolding body ensure_tinkerbell_cluster
  tinkerbell-TakesNothing = record { at = λ w. ground arith }

  cluster-TakesNothing : Runs TakesNothing Any Any (ensure_cluster r claim)
  unfolding body ensure_cluster
  cluster-TakesNothing = record { at = λ w. ground arith }

  template-TakesNothing : Runs TakesNothing Any Any (ensure_machine_template r claim)
  unfolding body ensure_machine_template
  template-TakesNothing = record { at = λ w. ground arith }

  deployment-TakesNothing : Runs TakesNothing Any Any (ensure_machine_deployment r claim)
  unfolding body ensure_machine_deployment
  deployment-TakesNothing = record { at = λ w. ground arith }

  service-TakesNothing : Runs TakesNothing Any Any (ensure_service r claim site)
  unfolding body ensure_service
  service-TakesNothing = record { at = λ w. ground arith }

  observed-TakesNothing : Runs TakesNothing Any Any (observe_control_plane r claim)
  unfolding body observe_control_plane
  observed-TakesNothing = record { at = λ w. ground arith }

module _ {W : Type 0} (r : ClusterClaimReconciler W) (claim : ClusterClaim)
    (site : SiteConfig) where
  pub ensure_capi_objects-TakesNothing : Emits TakesNothing Any (ensure_capi_objects r claim site)
  unfolding ensure_capi_objects
  ensure_capi_objects-TakesNothing =
      let P = TakesNothing in
      Emits-body P Any _ (
        Runs-bind P Any _ Any _ _ (Runs-return_if P Any _ _ (λ _. tt)) λ _ _.
          Runs-bind P Any Any Any _ _ (control_plane-TakesNothing r claim site) λ _ _.
            Runs-bind P Any Any Any _ _ (tinkerbell-TakesNothing r claim site) λ _ _.
              Runs-bind P Any Any Any _ _ (cluster-TakesNothing r claim site) λ _ _.
                Runs-bind P Any Any Any _ _ (template-TakesNothing r claim site) λ _ _.
                  Runs-bind P Any Any Any _ _ (deployment-TakesNothing r claim site) λ _ _.
                    Runs-bind P Any Any Any _ _ (service-TakesNothing r claim site)
                      λ _ _. observed-TakesNothing r (with_cluster_ref r claim) site)
