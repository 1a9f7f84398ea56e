-- ===== src/Controller/Server/Steps/Attention.antt =====
-- The steps of a ServerClaim come back to their claim.
use smeltry_operator.Base.{refl, String, Bool, true, false, List, [], ◌∷◌, arith}
use smeltry_operator.Error.{Result}
use smeltry_operator.Api.{ServerClaim, SiteConfig}
use smeltry_operator.Netbox.{Device}
use smeltry_operator.Kube.{Object, Job}
use smeltry_operator.Effect.{body}
use smeltry_operator.Controller.Reply.{failure, retry}
use smeltry_operator.Controller.Attention.{
  Back, Closes-body, Attends, Closes, Attends-bind, Closes-bind, Attends-pure, Attends-call,
  Attends-if, Attends-valued, Attends-checked,
}
use smeltry_operator.Controller.Server.Defs.{ServerClaimReconciler, fail_sc}
use smeltry_operator.Controller.Server.Steps.{
  first_or_fail, step_validate, reserve_server_ip, ensure_server_ip, allocate_server,
  ensure_server_machine, server_job_or_create, finish_server, step_provision,
}

-- The object that the controller is registered for.
abbrev pub watched_server : Object → Bool
watched_server (Object.server_claim _) = true
watched_server _ = false

module _ {W : Type 0} (r : ServerClaimReconciler W) where
  abbrev watched : Object → Bool
  watched = watched_server

  pub step_validate-ServerBack : (claim : ServerClaim) → Back watched (step_validate r claim)
  unfolding body step_validate
  step_validate-ServerBack claim w = ground arith

  ensure_server_ip-Attends :
      (claim : ServerClaim) (site : SiteConfig) → Attends watched (ensure_server_ip r claim site)
  unfolding ensure_server_ip reserve_server_ip
  ensure_server_ip-Attends claim site =
      Attends-if watched _ _ _
        (Attends-bind watched _ _ (Attends-valued watched _ retry λ _. refl) λ ip.
          Attends-bind watched _ _ (Attends-checked watched _ failure λ _. refl)
            λ _. Attends-pure watched _)
        (Attends-pure watched _)

  first_or_fail-Attends :
      (claim : ServerClaim) (msg : String) (available : List Device)
      → Attends watched (first_or_fail r claim msg available)
  unfolding body first_or_fail fail_sc
  first_or_fail-Attends claim msg [] = record { at = λ w. ground arith }
  first_or_fail-Attends claim msg (m ∷ _) = Attends-pure watched m

  ensure_server_machine-Attends :
      (claim : ServerClaim) (site : SiteConfig)
      → Attends watched (ensure_server_machine r claim site)
  unfolding ensure_server_machine allocate_server
  ensure_server_machine-Attends claim site =
      Attends-if watched _ _ _
        (Attends-bind watched _ _ (Attends-valued watched _ retry λ _. refl) λ available.
          Attends-bind watched _ _ (first_or_fail-Attends claim _ available) λ m.
            Attends-bind watched _ _ (Attends-checked watched _ retry λ _. refl) λ _.
              Attends-bind watched _ _ (Attends-checked watched _ failure λ _. refl)
                λ _. Attends-bind watched _ _ (Attends-call watched _) λ _. Attends-pure watched _)
        (Attends-pure watched _)

  server_job_or_create-Attends :
      (claim : ServerClaim) (site : SiteConfig) (found : Result Job)
      → Attends watched (server_job_or_create r claim site found)
  unfolding body server_job_or_create
  server_job_or_create-Attends claim site found = record { at = λ w. ground arith }

  finish_server-Closes :
      (claim : ServerClaim) (job : Job) → Closes watched (finish_server r claim job)
  unfolding body finish_server fail_sc
  finish_server-Closes claim job = record { at = λ w. ground arith }

  pub step_provision-ServerBack : (claim : ServerClaim) → Back watched (step_provision r claim)
  unfolding step_provision
  step_provision-ServerBack claim = Closes-body watched _ (
      Closes-bind watched _ _ (Attends-valued watched _ failure λ _. refl) λ site.
        Closes-bind watched _ _ (ensure_server_ip-Attends claim site) λ claim₁.
          Closes-bind watched _ _ (ensure_server_machine-Attends claim₁ site) λ claim₂.
            Closes-bind watched _ _ (Attends-call watched _) λ found.
              Closes-bind watched _ _ (server_job_or_create-Attends claim₂ site found)
                λ job. finish_server-Closes claim₂ job)
