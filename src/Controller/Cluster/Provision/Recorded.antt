-- ===== src/Controller/Cluster/Provision/Recorded.antt =====
-- The addresses of a ClusterClaim are recorded as soon as they are allocated.
use smeltry_operator.Base.{ℕ, zero, suc, List, [], ◌∷◌, arith}
use smeltry_operator.Api.{ClusterClaim, SiteConfig}
use smeltry_operator.Netbox.{Device}
use smeltry_operator.Effect.{body, logged, silent}
use smeltry_operator.Effect.Traces.{Traced, Traced-body}
use smeltry_operator.Controller.Addresses.{
  AllRecorded, AllRecorded-bind, lists-snoc, pure-Traced, call-Traced, checked-Traced,
  valued-Traced, if-Traced, emit_audit_event-AllRecorded,
}
use smeltry_operator.Controller.Reply.{retry, failure}
use smeltry_operator.Controller.Cluster.Defs.{ClusterClaimReconciler}
use smeltry_operator.Controller.Cluster.Capi.Recorded.{ensure_capi_objects-AllRecorded}
use smeltry_operator.Controller.Cluster.Provision.{
  Allocation, ensure_control_plane_ip, ensure_webhook_ip, allocate_machines, allocate_all,
  ensure_machines, ensure_job, finish_provision, step_provision,
}

module _ {W : Type 0} (r : ClusterClaimReconciler W) (claim : ClusterClaim)
    (site : SiteConfig) where
  ensure_control_plane_ip-Traced : Traced AllRecorded (ensure_control_plane_ip r claim site)
  unfolding body ensure_control_plane_ip
  ensure_control_plane_ip-Traced = record { trace = λ w. grind (arith, lists-snoc) }

  ensure_webhook_ip-Traced : Traced AllRecorded (ensure_webhook_ip r claim site)
  unfolding body ensure_webhook_ip
  ensure_webhook_ip-Traced = record { trace = λ w. grind (arith, lists-snoc) }

  allocate_machines-Traced :
      (wanted : ℕ) (machines : List Device) (a : Allocation)
      → Traced AllRecorded (allocate_machines r claim wanted machines a)
  unfolding allocate_machines logged
  allocate_machines-Traced zero machines a = pure-Traced a
  allocate_machines-Traced (suc wanted) [] a = pure-Traced a
  allocate_machines-Traced (suc wanted) (m ∷ machines) a =
      AllRecorded-bind _ _ (checked-Traced retry _ (λ w. tt)) λ _.
        AllRecorded-bind _ _ (call-Traced _ (emit_audit_event-AllRecorded _ _ _ _)) λ _.
          AllRecorded-bind _ _ (valued-Traced retry _ (λ w. tt))
            λ disks. allocate_machines-Traced wanted machines _

  allocate_all-Traced : Traced AllRecorded (allocate_all r claim site)
  unfolding allocate_all logged
  allocate_all-Traced = AllRecorded-bind _ _ (valued-Traced retry _ (λ w. tt)) λ machines.
      AllRecorded-bind _ _ (allocate_machines-Traced claim.spec.machine_count machines _)
        λ a. AllRecorded-bind _ _ (checked-Traced failure _ (λ w. tt)) λ _. pure-Traced _

  ensure_machines-Traced : Traced AllRecorded (ensure_machines r claim site)
  unfolding ensure_machines
  ensure_machines-Traced = if-Traced _ _ _ allocate_all-Traced (pure-Traced _)

  ensure_job-Traced : Traced AllRecorded (ensure_job r claim site)
  unfolding body ensure_job
  ensure_job-Traced = record { trace = λ w. ground arith }

  finish_provision-Traced : Traced AllRecorded (finish_provision r claim site)
  unfolding finish_provision logged silent
  finish_provision-Traced =
      AllRecorded-bind _ _ (valued-Traced failure _ (ensure_capi_objects-AllRecorded r claim site))
        λ seen.
          AllRecorded-bind _ _ (call-Traced _ (λ w. tt))
            λ now. AllRecorded-bind _ _ (call-Traced _ (λ w. tt)) λ e. pure-Traced _

module _ {W : Type 0} (r : ClusterClaimReconciler W) where
  -- Whatever Netbox and the API server answer, each address that stepProvision of a ClusterClaim is
  -- given by AllocateIP is among those of the status that its very next call writes.
  pub step_provision-records_addresses :
      (claim : ClusterClaim) (w : W) → AllRecorded (step_provision r claim w).1
  unfolding step_provision logged
  step_provision-records_addresses claim = Traced-body AllRecorded _ (
      AllRecorded-bind _ _ (valued-Traced failure _ (λ w. tt)) λ site.
        AllRecorded-bind _ _ (ensure_control_plane_ip-Traced r claim site) λ claim₁.
          AllRecorded-bind _ _ (ensure_webhook_ip-Traced r claim₁ site) λ claim₂.
            AllRecorded-bind _ _ (ensure_machines-Traced r claim₂ site) λ claim₃.
              AllRecorded-bind _ _ (ensure_job-Traced r claim₃ site)
                λ _. finish_provision-Traced r claim₃ site)
