-- ===== src/Controller/Cluster/Capi/Recorded.antt =====
-- ensureCAPIObjects allocates nothing.
use smeltry_operator.Base.{arith}
use smeltry_operator.Api.{ClusterClaim, SiteConfig}
use smeltry_operator.Effect.{body}
use smeltry_operator.Effect.Traces.{Traced, Traced-body}
use smeltry_operator.Controller.Addresses.{AllRecorded, AllRecorded-bind, return_if-Traced}
use smeltry_operator.Controller.Cluster.Defs.{ClusterClaimReconciler}
use smeltry_operator.Controller.Cluster.Capi.{
  ensure_capi_objects, ensure_control_plane, ensure_tinkerbell_cluster, ensure_cluster,
  ensure_machine_template, ensure_machine_deployment, ensure_service, observe_control_plane,
  with_cluster_ref,
}

module _ {W : Type 0} (r : ClusterClaimReconciler W) (claim : ClusterClaim)
    (site : SiteConfig) where
  control_plane-Traced : Traced AllRecorded (ensure_control_plane r claim site)
  unfolding body ensure_control_plane
  control_plane-Traced = record { trace = λ w. ground arith }

  tinkerbell_cluster-Traced : Traced AllRecorded (ensure_tinkerbell_cluster r claim)
  unfolding body ensure_tinkerbell_cluster
  tinkerbell_cluster-Traced = record { trace = λ w. ground arith }

  cluster-Traced : Traced AllRecorded (ensure_cluster r claim)
  unfolding body ensure_cluster
  cluster-Traced = record { trace = λ w. ground arith }

  machine_template-Traced : Traced AllRecorded (ensure_machine_template r claim)
  unfolding body ensure_machine_template
  machine_template-Traced = record { trace = λ w. ground arith }

  machine_deployment-Traced : Traced AllRecorded (ensure_machine_deployment r claim)
  unfolding body ensure_machine_deployment
  machine_deployment-Traced = record { trace = λ w. ground arith }

  service-Traced : Traced AllRecorded (ensure_service r claim site)
  unfolding body ensure_service
  service-Traced = record { trace = λ w. ground arith }

  observed-Traced : Traced AllRecorded (observe_control_plane r claim)
  unfolding body observe_control_plane
  observed-Traced = record { trace = λ w. ground arith }

module _ {W : Type 0} (r : ClusterClaimReconciler W) (claim : ClusterClaim)
    (site : SiteConfig) where
  pub ensure_capi_objects-AllRecorded : (w : W) → AllRecorded (ensure_capi_objects r claim site w).1
  unfolding ensure_capi_objects
  ensure_capi_objects-AllRecorded = Traced-body AllRecorded _ (
      AllRecorded-bind _ _ (return_if-Traced _ _) λ _.
        AllRecorded-bind _ _ (control_plane-Traced r claim site) λ _.
          AllRecorded-bind _ _ (tinkerbell_cluster-Traced r claim site) λ _.
            AllRecorded-bind _ _ (cluster-Traced r claim site) λ _.
              AllRecorded-bind _ _ (machine_template-Traced r claim site) λ _.
                AllRecorded-bind _ _ (machine_deployment-Traced r claim site) λ _.
                  AllRecorded-bind _ _ (service-Traced r claim site)
                    λ _. observed-Traced r (with_cluster_ref r claim) site)
