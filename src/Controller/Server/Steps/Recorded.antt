-- ===== src/Controller/Server/Steps/Recorded.antt =====
-- A ServerClaim's address is recorded as soon as it is allocated.
use smeltry_operator.Base.{arith}
use smeltry_operator.Error.{Result}
use smeltry_operator.Api.{ServerClaim, SiteConfig}
use smeltry_operator.Kube.{Job}
use smeltry_operator.Effect.{body, logged}
use smeltry_operator.Effect.Traces.{Traced, Traced-body}
use smeltry_operator.Controller.Addresses.{
  AllRecorded, AllRecorded-bind, call-Traced, valued-Traced,
}
use smeltry_operator.Controller.Reply.{failure}
use smeltry_operator.Controller.Audit.{emit_audit_event}
use smeltry_operator.Controller.Server.Defs.{ServerClaimReconciler}
use smeltry_operator.Controller.Server.Steps.{
  ensure_server_ip, ensure_server_machine, server_job_or_create, finish_server, step_provision,
}

module _ {W : Type 0} (r : ServerClaimReconciler W) (claim : ServerClaim) (site : SiteConfig) where
  ensure_server_ip-Traced : Traced AllRecorded (ensure_server_ip r claim site)
  unfolding body ensure_server_ip
  ensure_server_ip-Traced = record { trace = λ w. ground arith }

  ensure_server_machine-Traced : Traced AllRecorded (ensure_server_machine r claim site)
  unfolding body ensure_server_machine emit_audit_event
  ensure_server_machine-Traced = record { trace = λ w. ground arith }

  server_job_or_create-Traced :
      (found : Result Job) → Traced AllRecorded (server_job_or_create r claim site found)
  unfolding body server_job_or_create
  server_job_or_create-Traced found = record { trace = λ w. ground arith }

  finish_server-Traced : (job : Job) → Traced AllRecorded (finish_server r claim job)
  unfolding body finish_server
  finish_server-Traced job = record { trace = λ w. ground arith }

module _ {W : Type 0} (r : ServerClaimReconciler W) where
  -- Whatever Netbox and the API server answer, each address that stepProvision of a ServerClaim is
  -- given by AllocateIP is in the status that its very next call writes.
  pub step_provision-records_address :
      (claim : ServerClaim) (w : W) → AllRecorded (step_provision r claim w).1
  unfolding step_provision logged
  step_provision-records_address claim = Traced-body AllRecorded _ (
      AllRecorded-bind _ _ (valued-Traced failure _ (λ w. tt)) λ site.
        AllRecorded-bind _ _ (ensure_server_ip-Traced r claim site) λ claim'.
          AllRecorded-bind _ _ (ensure_server_machine-Traced r claim' site) λ claim''.
            AllRecorded-bind _ _ (call-Traced _ (λ w. tt)) λ found.
              AllRecorded-bind _ _ (server_job_or_create-Traced r claim'' site found)
                λ job. finish_server-Traced r claim'' site job)
