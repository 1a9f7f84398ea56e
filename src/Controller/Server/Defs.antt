-- ===== src/Controller/Server/Defs.antt =====
-- internal/controller/serverclaim_controller.go: the reconciler and failSC.
use smeltry_operator.Base.{String, Option, [], ◌∷◌, ◌++◌}
use smeltry_operator.Error.{Error}
use smeltry_operator.Api.{ServerClaim, ServerClaimPhase, ConditionStatus}
use smeltry_operator.Netbox.{ClientIface}
use smeltry_operator.Kube.{Kube, Object}
use smeltry_operator.Effect.{Go, ◌>>=◌, pure, call, body, time_now, update_status}
use smeltry_operator.Controller.Reply.{Reply, reply}

abbrev pub server_claim_finalizer : String
server_claim_finalizer = "portal.smeltry.io/serverclaim-protection"

pub record ServerClaimReconciler (W : Type 0) : Type 0 where
  pub client : Kube W
  pub netbox : ClientIface W
  pub netbox_token : String
  pub netbox_url : String
  pub machinecfg_image : String
  pub default_audit_ttl : String

abbrev pub in_phase : ServerClaim → ServerClaimPhase → ServerClaim
in_phase claim phase = record claim { status = record (claim.status) { phase = phase } }

-- r.Status().Update(ctx, sc)
abbrev pub write_server : {W : Type 0} → ServerClaimReconciler W → ServerClaim → Go W (Option Error)
write_server r claim = update_status r.client (Object.server_claim claim)

module _ {W : Type 0} (r : ServerClaimReconciler W) where
  -- Every failure adds a condition, also where one of its type is there.
  unfoldable pub fail_sc : ServerClaim → String → String → Go W Reply
  fail_sc claim reason msg = body do
    now ← call (time_now r.client)
    e ← call (
        write_server r (record claim {
          status = record (claim.status) {
            phase = ServerClaimPhase.failed;
            conditions =
                claim.status.conditions
                ++ (record {
                  type = "Ready";
                  status = ConditionStatus.condition_false;
                  reason = reason;
                  message = msg;
                  last_transition_time = now;
                }
                    ∷ []);
          };
        }))
    pure (reply e)
