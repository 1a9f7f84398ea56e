-- ===== src/Controller/Server/Steps.antt =====
-- stepValidate and stepProvision of a ServerClaim.
pub mod Phases
pub mod Attention
pub mod Recorded
use smeltry_operator.Base.{
  ◌≡◌, ℕ, zero, String, ◌<>◌, Bool, true, false, Option, none, some, List, [], ◌∷◌, length, ltb,
  ◌==◌, quote, str_eq, if◌then◌else◌, pos, ◌*◌, ℤ,
}
use smeltry_operator.Error.{Error, Result, ok, err}
use smeltry_operator.Api.{
  ServerClaim, ServerClaimPhase, server_claim_phase_text, SiteConfig, AuditEventSpec,
  audit_event_spec, audit_type_phase_changed, audit_type_machine_allocated, named, object_meta,
  ObjectMeta,
}
use smeltry_operator.Netbox.{Device, DeviceStatus, IpAddress}
use smeltry_operator.Kube.{Object, Job}
use smeltry_operator.Effect.{
  Go, Block, ◌>>=◌, ◌>>◌, pure, return, call, value_or, check, body, get_site_config, get_job,
  create, list_available_devices, allocate_ip, set_device_status,
}
use smeltry_operator.Controller.Reply.{
  Reply, failure, retry, reply, reply_requeue, reply_after, second,
}
use smeltry_operator.Controller.Utility.{tenant_from_namespace, strip_prefix}
use smeltry_operator.Controller.Audit.{emit_audit_event}
use smeltry_operator.Controller.Cluster.Defs.{portal_system_namespace}
use smeltry_operator.Controller.Server.Defs.{ServerClaimReconciler, in_phase, write_server, fail_sc}

abbrev pub with_server_ip : ServerClaim → IpAddress → String → ServerClaim
with_server_ip claim ip dns = record claim {
  status = record (claim.status) {
    server_ip = strip_prefix ip.address;
    server_dns = dns;
    netbox_ipam_id = ip.id;
  };
}

abbrev pub with_machine : ServerClaim → ℕ → ServerClaim
with_machine claim id = record claim {
  status = record (claim.status) { allocated_machine_id = id };
}

unfoldable pub server_dns_name : ServerClaim → SiteConfig → String
unfolding tenant_from_namespace
server_dns_name claim site =
    claim.meta.name
    <> ("." <> (tenant_from_namespace claim.meta.namespace <> ("." <> site.spec.dns.zone)))

unfoldable pub server_job_name : ServerClaim → String
server_job_name claim = claim.meta.name <> "-machinecfg"

-- `_ = controllerutil.SetControllerReference(...)`: an error leaves the metadata as it was.
abbrev meta_unless : ObjectMeta → Result ObjectMeta → ObjectMeta
meta_unless old (ok meta) = meta
meta_unless old (err _) = old

module _ {W : Type 0} (r : ServerClaimReconciler W) where
  -- `return r.failSC(...)`
  fail_sc_with : {A : Type 0} → ServerClaim → String → String → Block W Reply A
  unfolding fail_sc
  fail_sc_with claim reason msg = call (fail_sc r claim reason msg) >>= return

  site_or_fail : ServerClaim → Result SiteConfig → Block W Reply SiteConfig
  unfolding fail_sc_with
  site_or_fail claim (ok site) = pure site
  site_or_fail claim (err e) =
      fail_sc_with claim "SiteConfigNotFound"
        ("SiteConfig " <> (quote claim.spec.site <> " not found in portal-system"))

  -- The first device, of which there must be one.
  first_or_fail : ServerClaim → String → List Device → Block W Reply Device
  unfolding fail_sc_with
  first_or_fail claim msg [] = fail_sc_with claim "InsufficientMachines" msg
  first_or_fail claim msg (m ∷ _) = pure m

  server_phase_changed : ServerClaim → AuditEventSpec
  server_phase_changed claim =
      record (audit_event_spec audit_type_phase_changed "ServerClaim" claim.meta.name) {
        old_phase = server_claim_phase_text claim.status.phase;
        new_phase = server_claim_phase_text ServerClaimPhase.provisioning;
      }

  unfoldable pub step_validate : ServerClaim → Go W Reply
  unfolding site_or_fail first_or_fail server_phase_changed
  step_validate claim = body do
    site ←
        call (get_site_config r.client (named claim.spec.site portal_system_namespace))
        >>= site_or_fail claim
    available ←
        call (list_available_devices r.netbox site.spec.netbox.site_slug claim.spec.machine_class)
        >>= value_or retry
    first_or_fail claim
        ("no machine of class "
          <> (quote claim.spec.machine_class <> (" available on site " <> quote claim.spec.site)))
        available
    call (write_server r (in_phase claim ServerClaimPhase.provisioning)) >>= check failure
    call (
        emit_audit_event r.client claim.meta.namespace r.default_audit_ttl
          (server_phase_changed claim))
    pure (reply_requeue none)

  reserve_server_ip : ServerClaim → SiteConfig → String → Block W Reply ServerClaim
  unfolding strip_prefix
  reserve_server_ip claim site dns = do
    ip ←
        call
          (allocate_ip r.netbox site.spec.netbox.provisioning_prefix dns site.spec.netbox.ipam_tags)
        >>= value_or retry
    call (write_server r (with_server_ip claim ip dns)) >>= check failure
    pure (with_server_ip claim ip dns)

  -- 2a. The address, unless the status has one.
  ensure_server_ip : ServerClaim → SiteConfig → Block W Reply ServerClaim
  unfolding reserve_server_ip server_dns_name
  ensure_server_ip claim site =
      if str_eq claim.status.server_ip ""
      then reserve_server_ip claim site (server_dns_name claim site)
      else pure claim

  server_machine_allocated : ServerClaim → ℕ → AuditEventSpec
  server_machine_allocated claim id =
      record (audit_event_spec audit_type_machine_allocated "ServerClaim" claim.meta.name) {
        machine_id = id;
      }

  allocate_server : ServerClaim → SiteConfig → Block W Reply ServerClaim
  unfolding first_or_fail tenant_from_namespace server_machine_allocated
  allocate_server claim site = do
    available ←
        call (list_available_devices r.netbox site.spec.netbox.site_slug claim.spec.machine_class)
        >>= value_or retry
    m ← first_or_fail claim "no machine available at provisioning time" available
    call (
          set_device_status r.netbox m.id DeviceStatus.staged
            (tenant_from_namespace claim.meta.namespace))
        >>= check retry
    call (write_server r (with_machine claim m.id)) >>= check failure
    call (
        emit_audit_event r.client claim.meta.namespace r.default_audit_ttl
          (server_machine_allocated claim m.id))
    pure (with_machine claim m.id)

  -- 2b. The machine, unless the status has one.
  ensure_server_machine : ServerClaim → SiteConfig → Block W Reply ServerClaim
  unfolding allocate_server
  ensure_server_machine claim site =
      if claim.status.allocated_machine_id == 0 then allocate_server claim site else pure claim

  server_job : ServerClaim → SiteConfig → Job
  unfolding tenant_from_namespace server_job_name
  server_job claim site =
      let meta = object_meta (server_job_name claim) claim.meta.namespace in
      record {
        meta = meta_unless meta (r.client.set_controller_reference claim.meta meta);
        image = r.machinecfg_image;
        args =
            "--netbox-endpoint" ∷ r.netbox_url ∷ "--netbox-token" ∷ r.netbox_token ∷ "--sites"
            ∷ site.spec.netbox.site_slug ∷ "tinkerbell" ∷ "hardware" ∷ "--os" ∷ claim.spec.os ∷ [];
        env =
            ("NETBOX_TENANT", tenant_from_namespace claim.meta.namespace)
            ∷ ("NETBOX_MODEL", claim.spec.machine_class)
            ∷ ("NAMESPACE", claim.meta.namespace)
            ∷ [];
        completion_time = none;
        failed = 0;
      }

  create_server_job : ServerClaim → SiteConfig → Go W (Option Error)
  unfolding server_job
  create_server_job claim site = create r.client (Object.job (server_job claim site))

  -- 2c. The Job, which is created if it is not there.
  server_job_or_create : ServerClaim → SiteConfig → Result Job → Block W Reply Job
  unfolding create_server_job
  server_job_or_create claim site (ok job) = pure job
  server_job_or_create claim site (err e) =
      if r.client.is_not_found e
      then (call (create_server_job claim site) >>= check failure)
        >> return (reply_after (pos (10 * second)) none)
      else return (failure e)

  await_server_job : ServerClaim → Option ℤ → Block W Reply Reply
  await_server_job claim none = pure (reply_after (pos (10 * second)) none)
  await_server_job claim (some _) = do
    e ← call (write_server r (in_phase claim ServerClaimPhase.ready))
    pure (reply e)

  -- 2d. Waiting for the Job, by its count of failed pods, then by its CompletionTime.
  finish_server : ServerClaim → Job → Block W Reply Reply
  unfolding fail_sc_with await_server_job
  finish_server claim job =
      if ltb 0 job.failed
      then fail_sc_with claim "MachineCfgFailed" "machinecfg Job failed; check Job logs"
      else await_server_job claim job.completion_time

  unfoldable pub step_provision : ServerClaim → Go W Reply
  unfolding ensure_server_ip ensure_server_machine server_job_or_create finish_server
      server_job_name
  step_provision claim = body do
    site ←
        call (get_site_config r.client (named claim.spec.site portal_system_namespace))
        >>= value_or failure
    claim₁ ← ensure_server_ip claim site
    claim₂ ← ensure_server_machine claim₁ site
    found ← call (get_job r.client (named (server_job_name claim) claim.meta.namespace))
    job ← server_job_or_create claim₂ site found
    finish_server claim₂ job
