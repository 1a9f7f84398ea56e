-- ===== src/Controller/Server/Machine.antt =====
-- Reconcile and reconcileDelete of a ServerClaim.
pub mod Phases
pub mod Attention
pub mod Guard
pub mod History
use smeltry_operator.Base.{ℕ, Bool, true, false, Option, none, some, ◌==◌, if◌then◌else◌}
use smeltry_operator.Error.{Error, Result, ok, err}
use smeltry_operator.Api.{
  Key, ServerClaim, ServerClaimPhase, audit_event_spec, audit_type_server_deleted,
}
use smeltry_operator.Netbox.{DeviceStatus}
use smeltry_operator.Kube.{Object}
use smeltry_operator.Effect.{
  Go, Block, ◌>>=◌, ◌>>◌, pure, return, call, body, get_server_claim, update, release_ip,
  set_device_status,
}
use smeltry_operator.Controller.Reply.{Reply, reply}
use smeltry_operator.Controller.Audit.{emit_audit_event}
use smeltry_operator.Controller.Server.Defs.{ServerClaimReconciler, server_claim_finalizer}
use smeltry_operator.Controller.Server.Steps.{step_validate, step_provision}

module _ {W : Type 0} (r : ServerClaimReconciler W) where
  -- Errors of Netbox are logged and dropped.
  release_server_ip : ℕ → Block W Reply (Unit {0})
  release_server_ip id = if id == 0 then pure tt else (call (release_ip r.netbox id) >> pure tt)

  free_server : ℕ → Block W Reply (Unit {0})
  free_server id =
      if id == 0
      then pure tt
      else (call (set_device_status r.netbox id DeviceStatus.active "") >> pure tt)

  unfoldable pub reconcile_delete : ServerClaim → Go W Reply
  unfolding release_server_ip free_server
  reconcile_delete claim = body do
    release_server_ip claim.status.netbox_ipam_id
    free_server claim.status.allocated_machine_id
    call (
        emit_audit_event r.client claim.meta.namespace r.default_audit_ttl
          (audit_event_spec audit_type_server_deleted "ServerClaim" claim.meta.name))
    e ← call (
        update r.client (
          Object.server_claim
            (record claim { meta = r.client.remove_finalizer claim.meta server_claim_finalizer })))
    pure (reply e)

  -- The switch on the phase.
  unfoldable pub step : ServerClaimPhase → ServerClaim → Go W Reply
  step ServerClaimPhase.unset = step_validate r
  step ServerClaimPhase.pending = step_validate r
  step ServerClaimPhase.provisioning = step_provision r
  step ServerClaimPhase.ready = λ claim. body (pure (reply none))
  step ServerClaimPhase.failed = λ claim. body (pure (reply none))
  step (ServerClaimPhase.other _) = λ claim. body (pure (reply none))

  protect_first : ServerClaim → Go W Reply
  protect_first claim = body do
    e ← call (
        update r.client (
          Object.server_claim
            (record claim { meta = r.client.add_finalizer claim.meta server_claim_finalizer })))
    pure (reply e)

  -- Reconcile, once the claim has been read.
  unfoldable pub dispatch : ServerClaim → Go W Reply
  unfolding step protect_first reconcile_delete
  dispatch claim = elim claim.meta.deletion_timestamp [
    | some _ ↦ reconcile_delete claim
    | none ↦
        if r.client.contains_finalizer claim.meta server_claim_finalizer
        then step claim.status.phase claim
        else protect_first claim
  ]

  read_server : Result ServerClaim → Block W Reply ServerClaim
  read_server (ok claim) = pure claim
  read_server (err e) = return (reply (r.client.ignore_not_found e))

  unfoldable pub reconcile : Key → Go W Reply
  unfolding read_server dispatch
  reconcile key =
      body do claim ← call (get_server_claim r.client key) >>= read_server; call (dispatch claim)
