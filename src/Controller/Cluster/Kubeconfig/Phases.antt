-- ===== src/Controller/Cluster/Kubeconfig/Phases.antt =====
-- stepExposeKubeconfig and the lifecycle.
use smeltry_operator.Base.{arith}
use smeltry_operator.Api.{ClusterClaim, ClusterClaimPhase}
use smeltry_operator.Effect.{body}
use smeltry_operator.Effect.Emits.{Emits, Any}
use smeltry_operator.Controller.Cluster.Defs.{ClusterClaimReconciler}
use smeltry_operator.Controller.Cluster.Lifecycle.{Quiet, Lifecycle}
use smeltry_operator.Controller.Cluster.Kubeconfig.{step_expose_kubeconfig}

module _ {W : Type 0} (r : ClusterClaimReconciler W) (claim : ClusterClaim) where
  pub step_expose_kubeconfig-Quiet :
      Lifecycle claim.status.phase ClusterClaimPhase.ready
      → Emits (Quiet claim) Any (step_expose_kubeconfig r claim)
  unfolding body step_expose_kubeconfig
  step_expose_kubeconfig-Quiet up = record { at = λ w. ground arith }
