-- ===== src/Controller/Cluster/Validate/Phases.antt =====
-- stepValidate and the lifecycle.
use smeltry_operator.Base.{arith}
use smeltry_operator.Api.{ClusterClaim, ClusterClaimPhase}
use smeltry_operator.Effect.{body}
use smeltry_operator.Effect.Emits.{Emits, Any}
use smeltry_operator.Controller.Audit.{emit_audit_event}
use smeltry_operator.Controller.Cluster.Defs.{ClusterClaimReconciler}
use smeltry_operator.Controller.Cluster.Lifecycle.{Quiet, Lifecycle}
use smeltry_operator.Controller.Cluster.Validate.{step_validate}

module _ {W : Type 0} (r : ClusterClaimReconciler W) (claim : ClusterClaim) where
  pub step_validate-Quiet :
      Lifecycle claim.status.phase ClusterClaimPhase.failed
      → Lifecycle claim.status.phase ClusterClaimPhase.provisioning
      → Emits (Quiet claim) Any (step_validate r claim)
  unfolding body step_validate emit_audit_event
  step_validate-Quiet h h' = record { at = λ w. ground arith }
