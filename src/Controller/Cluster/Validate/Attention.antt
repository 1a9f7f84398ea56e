-- ===== src/Controller/Cluster/Validate/Attention.antt =====
-- stepValidate comes back to its claim.
use smeltry_operator.Base.{arith}
use smeltry_operator.Api.{ClusterClaim}
use smeltry_operator.Effect.{body}
use smeltry_operator.Controller.Attention.{Back}
use smeltry_operator.Controller.Cluster.Attention.{watched}
use smeltry_operator.Controller.Cluster.Defs.{ClusterClaimReconciler}
use smeltry_operator.Controller.Cluster.Validate.{step_validate}

module _ {W : Type 0} (r : ClusterClaimReconciler W) where
  pub step_validate-Back : (claim : ClusterClaim) → Back watched (step_validate r claim)
  unfolding body step_validate
  step_validate-Back claim w = ground arith
