-- ===== src/Controller/Cluster/Deletion.antt =====
-- reconcileDelete: the finalizer gives everything back. Errors are logged and dropped.
pub mod Releases
pub mod Attention
pub mod Calls
pub mod Revocation
use smeltry_operator.Base.{
  ℕ, String, Bool, true, false, not, Option, none, some, List, [], ◌∷◌, map, str_eq, if◌then◌else◌,
}
use smeltry_operator.Error.{Error, Result, ok, err}
use smeltry_operator.Api.{ClusterClaim, audit_event_spec, audit_type_cluster_deleted, named}
use smeltry_operator.Netbox.{DeviceStatus}
use smeltry_operator.Kube.{Role, PolicyRule, Object}
use smeltry_operator.Effect.{
  Go, Block, ◌>>=◌, ◌>>◌, pure, call, body, get_role, update, release_ip, set_device_status,
}
use smeltry_operator.Controller.Reply.{Reply, reply}
use smeltry_operator.Controller.Utility.{rules_covers_secrets, remove_string}
use smeltry_operator.Controller.Audit.{emit_audit_event}
use smeltry_operator.Controller.Cluster.Defs.{ClusterClaimReconciler, cluster_claim_finalizer}

-- The loop over the rules of the Role.
unfoldable pub revoke_secret : String → List PolicyRule → List PolicyRule
unfolding rules_covers_secrets remove_string
revoke_secret name [] = []
revoke_secret name (rule ∷ rules) =
    (if rules_covers_secrets rule
      then record rule { resource_names = remove_string rule.resource_names name }
      else rule)
    ∷ revoke_secret name rules

module _ {W : Type 0} (r : ClusterClaimReconciler W) where
  release_ips : List ℕ → Block W Reply (Unit {0})
  release_ips [] = pure tt
  release_ips (id ∷ ids) = call (release_ip r.netbox id) >> release_ips ids

  free_machines : List ℕ → Block W Reply (Unit {0})
  free_machines [] = pure tt
  free_machines (id ∷ ids) =
      call (set_device_status r.netbox id DeviceStatus.active "") >> free_machines ids

  revoke : String → Result Role → Block W Reply (Unit {0})
  unfolding revoke_secret
  revoke secret (err e) = pure tt
  revoke secret (ok role) =
      call (update r.client (Object.role (record role { rules = revoke_secret secret role.rules })))
      >> pure tt

  hide_kubeconfig : ClusterClaim → Block W Reply (Unit {0})
  unfolding revoke
  hide_kubeconfig claim =
      if str_eq claim.status.kubeconfig_secret ""
      then pure tt
      else (call (get_role r.client (named "cluster-user" claim.meta.namespace))
          >>= revoke claim.status.kubeconfig_secret)

  -- The end of the finalizer: the Role, the audit event and the update that removes it.
  finish_delete : ClusterClaim → Block W Reply Reply
  unfolding hide_kubeconfig
  finish_delete claim = do
    hide_kubeconfig claim
    call (
        emit_audit_event r.client claim.meta.namespace r.default_audit_ttl
          (audit_event_spec audit_type_cluster_deleted "ClusterClaim" claim.meta.name))
    e ← call (
        update r.client (
          Object.cluster_claim
            (record claim { meta = r.client.remove_finalizer claim.meta cluster_claim_finalizer })))
    pure (reply e)

  unfoldable pub reconcile_delete : ClusterClaim → Go W Reply
  unfolding release_ips free_machines finish_delete
  reconcile_delete claim = body do
    release_ips claim.status.netbox_ipam_ids
    free_machines claim.status.allocated_machine_ids
    finish_delete claim
