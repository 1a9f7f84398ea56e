-- ===== src/Controller/Cluster/Kubeconfig/Attention.antt =====
-- stepExposeKubeconfig comes back to its claim.
use smeltry_operator.Base.{arith}
use smeltry_operator.Api.{ClusterClaim}
use smeltry_operator.Effect.{body}
use smeltry_operator.Controller.Attention.{Back}
use smeltry_operator.Controller.Cluster.Attention.{watched}
use smeltry_operator.Controller.Cluster.Defs.{ClusterClaimReconciler}
use smeltry_operator.Controller.Cluster.Kubeconfig.{step_expose_kubeconfig}

module _ {W : Type 0} (r : ClusterClaimReconciler W) where
  pub step_expose_kubeconfig-Back :
      (claim : ClusterClaim) → Back watched (step_expose_kubeconfig r claim)
  unfolding body step_expose_kubeconfig
  step_expose_kubeconfig-Back claim w = ground arith
