-- ===== src/Tests/Life.antt =====
-- The life of a claim, at the small installation.
use smeltry_operator.Base.{List, [], ◌∷◌, some, ◌++◌, ◌≡◌, All, refl, pos}
use smeltry_operator.Api.{
  ClusterClaim, ClusterClaimPhase, ConditionStatus, condition_validated, named,
}
use smeltry_operator.Effect.{Event, body}
use smeltry_operator.Controller.Cluster.Defs.{ClusterClaimReconciler, with_phase}
use smeltry_operator.Controller.Cluster.Ledger.{stored}
use smeltry_operator.Controller.Cluster.Machine.Life.{Life, released_by}
use smeltry_operator.Controller.Audit.{emit_audit_event}
use smeltry_operator.Error.{Error}
use smeltry_operator.Controller.Cluster.Deletion.{reconcile_delete}
use mathlib.Core.List.{Perm}
use smeltry_operator.Controller.Cluster.Machine.Fleet.{Fleet, set_free, left_staged, Fleet-returns}
use smeltry_operator.Controller.Cluster.Machine.{reconcile}
use smeltry_operator.Controller.Attention.{ComesBack}
use smeltry_operator.Controller.Cluster.Attention.{watched}
use smeltry_operator.Controller.Cluster.Steady.{delete_at, annotation}
use smeltry_operator.Controller.Cluster.Machine.Attention.{reconcile-ComesBack}
use smeltry_operator.Controller.History.{History}
use smeltry_operator.Netbox.Fake
use smeltry_operator.Controller.Utility.{set_condition}
use smeltry_operator.Controller.Addresses.{TakesNothing}
use smeltry_operator.Controller.Cluster.Provision.{
  step_provision, ensure_control_plane_ip, ensure_webhook_ip,
}
use smeltry_operator.Controller.Cluster.Provision.Idle.{step_provision-TakesNothing}
use smeltry_operator.Controller.Cluster.Provision.Staging.{Records}
use smeltry_operator.Controller.Cluster.Provision.Choice.{StartsListing, step_provision-first}
use smeltry_operator.Tests.World.{device, allocated_in, claim_in, reconciler, done_job, netbox}

abbrev new_claim : ClusterClaim
new_claim = claim_in ClusterClaimPhase.pending

abbrev admitted : ClusterClaim
unfolding set_condition
admitted =
    set_condition (with_phase new_claim ClusterClaimPhase.provisioning) condition_validated
      ConditionStatus.condition_true "ValidationPassed" "all checks passed" (pos 100)

step_provision-TakesNothing_example :
    let claim = allocated_in ClusterClaimPhase.provisioning in
    All TakesNothing (step_provision (reconciler claim done_job) claim netbox).1
step_provision-TakesNothing_example =
    step_provision-TakesNothing (reconciler (allocated_in ClusterClaimPhase.provisioning) done_job)
      (allocated_in ClusterClaimPhase.provisioning) netbox (refl, refl, refl)

abbrev provisioning : ClusterClaim
provisioning = claim_in ClusterClaimPhase.provisioning

abbrev provisioner : ClusterClaimReconciler Fake.Client
provisioner = reconciler provisioning done_job

-- The claim as it is stored after its first pass in Provisioning.
provisioned : ClusterClaim
provisioned = stored provisioning (reconcile provisioner (named "prod" "tenant-acme") netbox).1

provisioned-Fleet : Fleet provisioner provisioned (1 ∷ 2 ∷ []) []
unfolding provisioned reconcile body step_provision emit_audit_event Fake.allocate_ip
    Fake.list_available_devices Fake.set_device_status Fake.list_osd_disks
provisioned-Fleet =
    Fleet.passed (named "prod" "tenant-acme") netbox (Fleet.filed provisioning refl) refl refl refl

Fleet-returns_example :
    let events = (reconcile_delete provisioner provisioned netbox).1 in
    Perm ((set_free events ++ left_staged events) ++ []) (1 ∷ 2 ∷ [])
Fleet-returns_example = Fleet-returns provisioner netbox provisioned-Fleet

-- An API server that refuses every update of a status.
abbrev refused : ClusterClaimReconciler Fake.Client
refused = record provisioner {
  client = record (provisioner.client) {
    update_status = λ o w. (some (Error.message "conflict"), w);
  };
}

refused-Life : Life refused provisioning (1 ∷ []) 1
unfolding reconcile body step_provision Fake.allocate_ip
refused-Life = Life.passed (named "prod" "tenant-acme") netbox (Life.filed provisioning refl) refl

-- The address of a claim whose status update was refused is not released.
refused_leaks : released_by refused provisioning netbox ≡ []
unfolding reconcile_delete body emit_audit_event
refused_leaks = refl

-- A pass over a claim that has nothing yet.
step_provision-first_example :
    (before : List Event) × (rest : List Event) × ((step_provision provisioner provisioning
        netbox).1
      ≡ before ++ rest)
    × All (Records []) before
    × StartsListing rest
    × All (Records (1 ∷ 2 ∷ [])) rest
unfolding ensure_control_plane_ip ensure_webhook_ip body Fake.allocate_ip
    Fake.list_available_devices
step_provision-first_example =
    step_provision-first provisioner provisioning netbox
      {machines = device 1 ∷ device 2 ∷ device 3 ∷ []} refl refl refl refl refl refl

reconcile-ComesBack_example :
    let claim = allocated_in ClusterClaimPhase.ready in
    let (answer, events, _) =
      reconcile (reconciler claim done_job) (named "prod" "tenant-acme") netbox in
    ComesBack watched answer events
unfolding delete_at annotation
reconcile-ComesBack_example =
    reconcile-ComesBack (reconciler (allocated_in ClusterClaimPhase.ready) done_job)
      (named "prod" "tenant-acme") netbox refl refl
