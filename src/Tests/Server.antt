-- ===== src/Tests/Server.antt =====
-- The theorems on the ServerClaim controller, the addresses and the purge, at the small installation.
use smeltry_operator.Controller.Attention.{ComesBack}
use smeltry_operator.Controller.Server.Steps.Attention.{watched_server}
use smeltry_operator.Controller.Server.Machine.Attention.{reconcile-ServerComesBack}
use smeltry_operator.Controller.History.{History}
use smeltry_operator.Controller.Server.Defs.{in_phase}
use smeltry_operator.Base.{◌≡◌, refl, All, [], ◌∷◌, ◌<ℤ◌, ◌≤ℤ◌, ◌⊎◌, pos, ℤ}
use smeltry_operator.Error.{ok}
use smeltry_operator.Api.{
  named, object_meta, ServerClaim, ServerClaimPhase, ClusterClaimPhase, AuditEvent,
  audit_event_spec, audit_type_cluster_deleted,
}
use smeltry_operator.Kube.{Kube}
use smeltry_operator.Netbox.Fake
use smeltry_operator.Controller.Addresses.{AllRecorded}
use smeltry_operator.Controller.Cluster.Provision as Cluster
use smeltry_operator.Controller.Cluster.Provision.Recorded.{step_provision-records_addresses}
use smeltry_operator.Controller.Cluster.Deletion.Releases.{released, freed}
use smeltry_operator.Controller.Server.Defs.{ServerClaimReconciler}
use smeltry_operator.Controller.Server.Lifecycle.{FollowsLifecycle}
use smeltry_operator.Controller.Server.Steps.{step_provision}
use smeltry_operator.Controller.Server.Steps.Recorded.{step_provision-records_address}
use smeltry_operator.Controller.Server.Machine.{reconcile, reconcile_delete}
use smeltry_operator.Controller.Server.Machine.Guard.{AcquiresProtected, reconcile-protects_server}
use smeltry_operator.Controller.Server.Machine.Phases.{
  reconcile-keeps_taken, reconcile_delete-releases_server,
}
use smeltry_operator.Controller.Purge.{AuditEventPurgeReconciler, expiry}
use smeltry_operator.Controller.Purge.Expiry.{clock, Waits, Purges, reconcile_event_lem}
use smeltry_operator.Tests.World.{kube, claim_in, reconciler, done_job, netbox}

-- A claim for one server that has its address and its machine.
abbrev server : ServerClaim
server = record {
  meta = record (object_meta "box" "tenant-acme") {
    finalizers = "portal.smeltry.io/serverclaim-protection" ∷ [];
  };
  spec = record { machine_class = "r640"; site = "paris"; os = "flatcar" };
  status = record {
    phase = ServerClaimPhase.provisioning;
    conditions = [];
    server_ip = "10.0.1.9";
    server_dns = "box.acme.example.org";
    netbox_ipam_id = 9;
    allocated_machine_id = 2;
  };
}

-- The same claim before anything is taken for it.
abbrev bare_server : ServerClaim
bare_server = record server {
  status = record (server.status) { server_ip = ""; netbox_ipam_id = 0; allocated_machine_id = 0 };
}

-- An event of the instant 40.
abbrev audit : AuditEvent
audit = record {
  meta = record (object_meta "e1" "tenant-acme") { creation_timestamp = pos 40 };
  spec = audit_event_spec audit_type_cluster_deleted "ClusterClaim" "prod";
}

abbrev api : Kube Fake.Client
api = record (kube (claim_in ClusterClaimPhase.ready) done_job) {
  get_server_claim = λ key w. (ok server, w);
  get_audit_event = λ key w. (ok audit, w);
}

abbrev servers : ServerClaimReconciler Fake.Client
servers = record {
  client = api;
  netbox = Fake.fake_client;
  netbox_token = "token";
  netbox_url = "https://netbox";
  machinecfg_image = "machinecfg";
  default_audit_ttl = "720h";
}

-- The clock of the installation stands at 100.
abbrev purger : ℤ → AuditEventPurgeReconciler Fake.Client
purger ttl = record { client = api; default_ttl = ttl }

reconcile-keeps_taken_example :
    All (FollowsLifecycle server) (reconcile servers (named "box" "tenant-acme") netbox).1
reconcile-keeps_taken_example =
    reconcile-keeps_taken servers (named "box" "tenant-acme") netbox refl

reconcile_delete-releases_server_example :
    let events = (reconcile_delete servers server netbox).1 in
    (released events ≡ 9 ∷ []) × (freed events ≡ 2 ∷ [])
reconcile_delete-releases_server_example = reconcile_delete-releases_server servers server netbox

step_provision-records_address_example : AllRecorded (step_provision servers bare_server netbox).1
step_provision-records_address_example = step_provision-records_address servers bare_server netbox

step_provision-records_addresses_example :
    let claim = claim_in ClusterClaimPhase.provisioning in
    AllRecorded (Cluster.step_provision (reconciler claim done_job) claim netbox).1
step_provision-records_addresses_example =
    step_provision-records_addresses (reconciler (claim_in ClusterClaimPhase.provisioning) done_job)
      (claim_in ClusterClaimPhase.provisioning) netbox

reconcile_event_lem_example :
    let r = purger (pos 300) in
    let key = named "e1" "tenant-acme" in
    ((clock r key netbox <ℤ expiry r audit) × Waits r key netbox audit)
    ⊎ ((expiry r audit ≤ℤ clock r key netbox) × Purges r key netbox audit)
reconcile_event_lem_example =
    reconcile_event_lem (purger (pos 300)) (named "e1" "tenant-acme") netbox refl

reconcile-protects_server_example :
    All (AcquiresProtected servers server) (reconcile servers (named "box" "tenant-acme") netbox).1
reconcile-protects_server_example =
    reconcile-protects_server servers (named "box" "tenant-acme") netbox refl

reconcile-ServerComesBack_example :
    let (answer, events, _) = reconcile servers (named "box" "tenant-acme") netbox in
    ComesBack watched_server answer events
reconcile-ServerComesBack_example =
    reconcile-ServerComesBack servers (named "box" "tenant-acme") netbox refl refl

abbrev served : ServerClaim
served = in_phase server ServerClaimPhase.ready
