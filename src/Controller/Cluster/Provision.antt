-- ===== src/Controller/Cluster/Provision.antt =====
-- stepProvision: two IP addresses, the machines, the machinecfg Job, then the CAPI objects.
mod Values
pub mod Attention
pub mod Phases
pub mod Finish
pub mod Machines
pub mod Staging
pub mod Choice
pub mod Addresses
pub mod Waiting
pub mod Recorded
pub mod Idle
use smeltry_operator.Base.{
  ℕ, zero, suc, String, Option, none, some, List, [], ◌∷◌, ◌++◌, length, ltb, ◌==◌, sprint, str_eq,
  if◌then◌else◌, pos, ◌*◌,
}
use smeltry_operator.Error.{Error, Result, ok, err}
use smeltry_operator.Api.{
  ClusterClaim, SiteConfig, ConditionStatus, AuditEventSpec, audit_event_spec,
  audit_type_machine_allocated, condition_machine_cfg_done, named, object_meta,
}
use smeltry_operator.Netbox.{Device, DeviceStatus}
use smeltry_operator.Kube.{Object, Job}
use smeltry_operator.Effect.{
  Go, Block, ◌>>=◌, ◌>>◌, pure, return, call, value_or, check, body, time_now, get_site_config,
  get_job, create, list_available_devices, allocate_ip, set_device_status, list_osd_disks,
}
use smeltry_operator.Controller.Reply.{Reply, failure, retry, reply_requeue, reply_after, second}
use smeltry_operator.Controller.Utility.{set_condition, tenant_from_namespace, strip_prefix}
use smeltry_operator.Controller.Audit.{emit_audit_event}
use smeltry_operator.Controller.Cluster.Defs.{
  ClusterClaimReconciler, portal_system_namespace, write_status, fail,
}
use smeltry_operator.Controller.Cluster.Capi.{ensure_capi_objects}
unfoldable pub use Values.*

module _ {W : Type 0} (r : ClusterClaimReconciler W) where
  machinecfg_job : ClusterClaim → SiteConfig → Job
  unfolding tenant_from_namespace job_name
  machinecfg_job claim site =
      let meta = object_meta (job_name claim) claim.meta.namespace in
      record {
        meta = meta_or meta (r.client.set_controller_reference claim.meta meta);
        image = r.machinecfg_image;
        args =
            "--netbox-endpoint" ∷ r.netbox_url ∷ "--netbox-token" ∷ r.netbox_token ∷ "--sites"
            ∷ site.spec.netbox.site_slug ∷ "tinkerbell" ∷ "hardware"
            ∷ "--embed-ignition-as-vendor-data" ∷ "--embedded-ignition-variant=flatcar" ∷ [];
        env =
            ("NETBOX_TENANT", tenant_from_namespace claim.meta.namespace)
            ∷ ("NETBOX_MODEL", claim.spec.machine_class)
            ∷ ("NAMESPACE", claim.meta.namespace)
            ∷ [];
        completion_time = none;
        failed = 0;
      }

  create_machinecfg_job : ClusterClaim → SiteConfig → Go W (Option Error)
  unfolding machinecfg_job
  create_machinecfg_job claim site = create r.client (Object.job (machinecfg_job claim site))

  reserve_control_plane_ip : ClusterClaim → SiteConfig → String → Block W Reply ClusterClaim
  unfolding strip_prefix
  reserve_control_plane_ip claim site dns = do
    ip ←
        call
          (allocate_ip r.netbox site.spec.netbox.provisioning_prefix dns site.spec.netbox.ipam_tags)
        >>= value_or retry
    call (write_status r (with_control_plane_ip claim ip dns)) >>= check failure
    pure (with_control_plane_ip claim ip dns)

  -- 2a. The control plane's address, unless the status has one.
  unfoldable pub ensure_control_plane_ip : ClusterClaim → SiteConfig → Block W Reply ClusterClaim
  unfolding reserve_control_plane_ip dns_name
  ensure_control_plane_ip claim site =
      if str_eq claim.status.control_plane_ip ""
      then reserve_control_plane_ip claim site (dns_name claim "-api" site)
      else pure claim

  reserve_webhook_ip : ClusterClaim → SiteConfig → String → Block W Reply ClusterClaim
  unfolding strip_prefix
  reserve_webhook_ip claim site dns = do
    ip ←
        call
          (allocate_ip r.netbox site.spec.netbox.provisioning_prefix dns site.spec.netbox.ipam_tags)
        >>= value_or retry
    call (write_status r (with_webhook_ip claim ip dns)) >>= check failure
    pure (with_webhook_ip claim ip dns)

  -- 2b. The webhook's address, unless the status has one.
  unfoldable pub ensure_webhook_ip : ClusterClaim → SiteConfig → Block W Reply ClusterClaim
  unfolding reserve_webhook_ip dns_name
  ensure_webhook_ip claim site =
      if str_eq claim.status.webhook_ip ""
      then reserve_webhook_ip claim site (dns_name claim "-wh" site)
      else pure claim

  machine_allocated : ClusterClaim → ℕ → AuditEventSpec
  machine_allocated claim id =
      record (audit_event_spec audit_type_machine_allocated "ClusterClaim" claim.meta.name) {
        machine_id = id;
      }

  -- 2c. The loop, with the number of machines that are still wanted.
  pub allocate_machines : ClusterClaim → ℕ → List Device → Allocation → Block W Reply Allocation
  unfolding append_osds tenant_from_namespace machine_allocated
  allocate_machines claim zero machines a = pure a
  allocate_machines claim (suc wanted) [] a = pure a
  allocate_machines claim (suc wanted) (m ∷ machines) a = do
    call (
          set_device_status r.netbox m.id DeviceStatus.staged
            (tenant_from_namespace claim.meta.namespace))
        >>= check retry
    call (
        emit_audit_event r.client claim.meta.namespace r.default_audit_ttl
          (machine_allocated claim m.id))
    disks ← call (list_osd_disks r.netbox m.id) >>= value_or retry
    allocate_machines claim wanted machines
        (record { ids = a.ids ++ (m.id ∷ []); osds = append_osds (sprint m.id) disks a.osds })

  allocate_all : ClusterClaim → SiteConfig → Block W Reply ClusterClaim
  unfolding allocate_machines
  allocate_all claim site = do
    machines ←
        call (list_available_devices r.netbox site.spec.netbox.site_slug claim.spec.machine_class)
        >>= value_or retry
    a ← allocate_machines claim claim.spec.machine_count machines (record { ids = []; osds = [] })
    call (write_status r (with_allocation claim a)) >>= check failure
    pure (with_allocation claim a)

  pub ensure_machines : ClusterClaim → SiteConfig → Block W Reply ClusterClaim
  unfolding allocate_all
  ensure_machines claim site =
      if length claim.status.allocated_machine_ids == 0 then allocate_all claim site else pure claim

  -- 2d. The Job, which is created if it is not there.
  job_or_create : ClusterClaim → SiteConfig → Result Job → Block W Reply Job
  unfolding create_machinecfg_job
  job_or_create claim site (ok job) = pure job
  job_or_create claim site (err e) =
      if r.client.is_not_found e
      then (call (create_machinecfg_job claim site) >>= check failure)
        >> return (reply_after (pos (10 * second)) none)
      else return (failure e)

  -- Waiting for the Job, by its CompletionTime, then by its count of failed pods.
  await_job : ClusterClaim → Job → Block W Reply (Unit {0})
  unfolding fail
  await_job claim job = elim job.completion_time [
    | none ↦ return (reply_after (pos (10 * second)) none)
    | some _ ↦
        if ltb 0 job.failed
        then call (fail r claim "MachineCfgFailed" "machinecfg Job failed; check Job logs")
          >>= return
        else pure tt
  ]

  pub ensure_job : ClusterClaim → SiteConfig → Block W Reply (Unit {0})
  unfolding job_or_create await_job job_name
  ensure_job claim site = do
    found ← call (get_job r.client (named (job_name claim) claim.meta.namespace))
    job ← job_or_create claim site found
    await_job claim job

  -- 2e. The CAPI objects and the last write of the status.
  pub finish_provision : ClusterClaim → SiteConfig → Block W Reply Reply
  unfolding ensure_capi_objects set_condition
  finish_provision claim site = do
    (phase_changed, claim') ← call (ensure_capi_objects r claim site) >>= value_or failure
    now ← call (time_now r.client)
    e ← call (
        write_status r (
          set_condition claim' condition_machine_cfg_done ConditionStatus.condition_true
            "MachineCfgComplete" "Hardware objects created" now))
    pure (if phase_changed then reply_requeue e else reply_after (pos (30 * second)) e)

  unfoldable pub step_provision : ClusterClaim → Go W Reply
  unfolding ensure_control_plane_ip ensure_webhook_ip ensure_machines ensure_job finish_provision
  step_provision claim = body do
    site ←
        call (get_site_config r.client (named claim.spec.site portal_system_namespace))
        >>= value_or failure
    first ← ensure_control_plane_ip claim site
    second_claim ← ensure_webhook_ip first site
    claim₃ ← ensure_machines second_claim site
    ensure_job claim₃ site
    finish_provision claim₃ site
