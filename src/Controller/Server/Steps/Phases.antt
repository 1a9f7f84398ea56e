-- ===== src/Controller/Server/Steps/Phases.antt =====
-- stepValidate and stepProvision of a ServerClaim, and the lifecycle.
use smeltry_operator.Base.{◌≡◌, arith}
use smeltry_operator.Error.{Result}
use smeltry_operator.Api.{ServerClaim, ServerClaimPhase, SiteConfig}
use smeltry_operator.Kube.{Job}
use smeltry_operator.Effect.{body}
use smeltry_operator.Effect.Emits.{
  Emits, Any, Emits-body, Runs, Runs-bind, Runs-call, Runs-valued, Emits-logged,
}
use smeltry_operator.Controller.Audit.{emit_audit_event}
use smeltry_operator.Controller.Reply.{failure}
use smeltry_operator.Controller.Server.Defs.{ServerClaimReconciler}
use smeltry_operator.Controller.Server.Lifecycle.{Lifecycle, KeepsTaken, FollowsLifecycle}
use smeltry_operator.Controller.Server.Steps.{
  step_validate, ensure_server_ip, ensure_server_machine, server_job_or_create, finish_server,
  step_provision,
}

-- A claim on its way through one pass: the old one with more taken.
abbrev pub Carries : ServerClaim → ServerClaim → Type 0
Carries old new =
    (new.status.phase ≡ old.status.phase)
    × KeepsTaken old new
    × (new.meta ≡ old.meta)
    × (new.spec ≡ old.spec)

module _ {W : Type 0} (r : ServerClaimReconciler W) (old : ServerClaim) where
  pub step_validate-FollowsLifecycle :
      Lifecycle old.status.phase ServerClaimPhase.failed
      → Lifecycle old.status.phase ServerClaimPhase.provisioning
      → Emits (FollowsLifecycle old) Any (step_validate r old)
  unfolding body step_validate emit_audit_event
  step_validate-FollowsLifecycle h h' = record { at = λ w. ground arith }

  module _ (stay : Lifecycle old.status.phase old.status.phase) where
    ensure_server_ip-Runs :
        (site : SiteConfig)
        → Runs (FollowsLifecycle old) Any (Carries old) (ensure_server_ip r old site)
    unfolding body ensure_server_ip
    ensure_server_ip-Runs site = record { at = λ w. ground arith }

    ensure_server_machine-Runs :
        (claim : ServerClaim) (site : SiteConfig)
        → Carries old claim
        → Lifecycle old.status.phase ServerClaimPhase.failed
        → Runs (FollowsLifecycle old) Any (Carries old) (ensure_server_machine r claim site)
    unfolding body ensure_server_machine emit_audit_event
    ensure_server_machine-Runs claim site h up = record { at = λ w. ground arith }

    server_job_or_create-Runs :
        (claim : ServerClaim) (site : SiteConfig) (found : Result Job)
        → Runs (FollowsLifecycle old) Any Any (server_job_or_create r claim site found)
    unfolding body server_job_or_create
    server_job_or_create-Runs claim site found = record { at = λ w. ground arith }

    finish_server-Runs :
        (claim : ServerClaim) (job : Job)
        → Carries old claim
        → Lifecycle old.status.phase ServerClaimPhase.failed
        → Lifecycle old.status.phase ServerClaimPhase.ready
        → Runs (FollowsLifecycle old) Any Any (finish_server r claim job)
    unfolding body finish_server
    finish_server-Runs claim job h down up = record { at = λ w. ground arith }

  pub step_provision-FollowsLifecycle :
      Lifecycle old.status.phase ServerClaimPhase.failed
      → Lifecycle old.status.phase ServerClaimPhase.ready
      → Emits (FollowsLifecycle old) Any (step_provision r old)
  unfolding step_provision
  step_provision-FollowsLifecycle down up =
      let P = FollowsLifecycle old in
      let stay = Lifecycle.stay old.status.phase in
      Emits-body P Any _ (
        Runs-bind P Any Any Any _ _
          (Runs-valued P Any _ failure (Emits-logged P _ _ λ _. tt) λ _. tt)
          λ site _.
            Runs-bind P Any (Carries old) Any _ _ (ensure_server_ip-Runs stay site) λ claim h.
              Runs-bind P Any (Carries old) Any _ _
                (ensure_server_machine-Runs stay claim site h down)
                λ claim' h'.
                  Runs-bind P Any Any Any _ _ (Runs-call P Any Any _ (Emits-logged P _ _ λ _. tt))
                    λ found _.
                      Runs-bind P Any Any Any _ _ (server_job_or_create-Runs stay claim' site found)
                        λ job _. finish_server-Runs stay claim' job h' down up)
