-- ===== src/Controller/Cluster/Defs.antt =====
-- The reconciler's fields and constants, and `fail`.
use smeltry_operator.Base.{String, Option}
use smeltry_operator.Error.{Error}
use smeltry_operator.Api.{
  ClusterClaim, ClusterClaimPhase, ConditionStatus, OsdDevices, condition_validated,
}
use smeltry_operator.Netbox.{ClientIface}
use smeltry_operator.Kube.{Kube, Object}
use smeltry_operator.Effect.{Go, ◌>>=◌, pure, call, body, time_now, update_status}
use smeltry_operator.Controller.Reply.{Reply, reply}
use smeltry_operator.Controller.Utility.{set_condition}

abbrev pub cluster_claim_finalizer : String
cluster_claim_finalizer = "portal.smeltry.io/clusterclaim-protection"

abbrev pub portal_system_namespace : String
portal_system_namespace = "portal-system"

-- ClusterClaimReconciler. `range_order` is the order in which a range loop visits the entries of
-- a Go map, which the language leaves open.
pub record ClusterClaimReconciler (W : Type 0) : Type 0 where
  pub client : Kube W
  pub netbox : ClientIface W
  pub netbox_token : String
  pub netbox_url : String
  pub machinecfg_image : String
  pub default_audit_ttl : String
  pub range_order : OsdDevices → OsdDevices

abbrev pub with_phase : ClusterClaim → ClusterClaimPhase → ClusterClaim
with_phase claim phase = record claim { status = record (claim.status) { phase = phase } }

-- r.Status().Update(ctx, claim)
abbrev pub write_status :
    {W : Type 0} → ClusterClaimReconciler W → ClusterClaim → Go W (Option Error)
write_status r claim = update_status r.client (Object.cluster_claim claim)

module _ {W : Type 0} (r : ClusterClaimReconciler W) where
  unfoldable pub fail : ClusterClaim → String → String → Go W Reply
  unfolding set_condition
  fail claim reason msg = body do
    now ← call (time_now r.client)
    let claim' =
        set_condition (with_phase claim ClusterClaimPhase.failed) condition_validated
          ConditionStatus.condition_false reason msg now
    e ← call (write_status r claim')
    pure (reply e)
