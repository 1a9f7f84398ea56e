-- ===== src/Controller/Cluster/Attention.antt =====
-- That a reconciler of ClusterClaims comes back to its claim.
use smeltry_operator.Base.{Bool, true, false, arith}
use smeltry_operator.Api.{ClusterClaim}
use smeltry_operator.Kube.{Object}
use smeltry_operator.Effect.{◌>>=◌, pure, call, body, update}
use smeltry_operator.Controller.Reply.{reply}
use smeltry_operator.Controller.Attention.{Closes}
use smeltry_operator.Controller.Cluster.Defs.{ClusterClaimReconciler}

-- The object that the controller is registered for.
abbrev pub watched : Object → Bool
watched (Object.cluster_claim _) = true
watched _ = false

module _ {W : Type 0} where
  -- A function that ends with an update of its claim.
  pub Closes-updated :
      (r : ClusterClaimReconciler W) (claim : ClusterClaim)
      → Closes watched (call (update r.client (Object.cluster_claim claim)) >>= λ e. pure (reply e))
  unfolding body
  Closes-updated r claim = record { at = λ w. ground arith }
