-- ===== src/Tests/Startup.antt =====
-- The start of the operator and the watcher of its configuration, in the small installation.
use smeltry_operator.Base.{◌≡◌, refl, ◌+ℤ◌, pos, none, [], ◌∷◌, All}
use smeltry_operator.Error.{Error, Result, err}
use smeltry_operator.Api.{AuditEvent, AuditEventSpec, ClusterClaimPhase, named}
use smeltry_operator.Netbox.Fake
use smeltry_operator.Effect.{body, next}
use smeltry_operator.Effect.Emits.{Ends}
use smeltry_operator.Kube.{Kube}
use smeltry_operator.Http.Types.{Request, Response}
use smeltry_operator.Http.Client.{Client, new_client}
use smeltry_operator.Controller.Audit.{audit_event}
use smeltry_operator.Controller.Purge.{expiry}
use smeltry_operator.Config.Holder.{new_netbox_holder, NetboxHolder, get}
use smeltry_operator.Config.Watcher.{
  ConfigReconciler, WatchEvent, Watched, config_map_key, requests, reconcile_config,
}
use smeltry_operator.Config.Watcher.Passes.{Passes, settings_at, latest, Complete, Passes-latest}
use smeltry_operator.Config.Watcher.Triggers.{Changed, Changed-renews}
use smeltry_operator.Rbac.{ensure_cluster_rbac}
use smeltry_operator.Telemetry.{Otel, setup}
use smeltry_operator.Startup.{Platform, Flags, default_flags, Operator, operator, prepare}
use smeltry_operator.Startup.Safety.{IsStartup, IsExit, IsSafe, prepare-IsSafe}
use smeltry_operator.Startup.Operation.{started-Complete, started-expiry}
use smeltry_operator.Tests.World.{kube, claim_in, done_job, netbox}

abbrev api : Kube Fake.Client
api = kube (claim_in ClusterClaimPhase.ready) done_job

abbrev unreachable : Request → Fake.Client → Result Response × Fake.Client
unreachable q w = (err (Error.external "no route to host"), w)

abbrev watcher : ConfigReconciler Fake.Client
watcher = record {
  client = api;
  send = unreachable;
  config_map_name = "smeltry-operator-config";
  secret_name = "smeltry-operator-netbox";
  namespace = "smeltry-system";
}

-- A holder with a client of an older configuration.
abbrev old_holder : NetboxHolder (Client Fake.Client)
old_holder = record { client = new_client unreachable "https://old" "old" }

Passes-latest_example :
    get (reconcile_config watcher (config_map_key watcher) old_holder netbox).0.1
    ≡ latest watcher (get old_holder) (settings_at watcher netbox ∷ [])
Passes-latest_example =
    Passes-latest watcher (Passes.passed (config_map_key watcher) netbox Passes.started)

Changed-renews_example :
    let key = config_map_key watcher in
    (requests watcher
        (Watched.secret (WatchEvent.updated (named "smeltry-operator-netbox" "smeltry-system")))
      ≡ key ∷ [])
    × (get (reconcile_config watcher key old_holder netbox).0.1
        ≡ new_client unreachable "https://netbox" "token")
Changed-renews_example = Changed-renews watcher old_holder netbox Changed.secret_updated refl

abbrev otel : Otel Fake.Client
otel = record {
  grpc_new_client = λ endpoint w. (none, w);
  new_exporter = λ w. (none, w);
  new_resource = λ name w. (none, w);
  set_tracer_provider = λ w. w;
  set_text_map_propagator = λ w. w;
  shutdown = λ timeout w. (none, w);
}

abbrev platform : Platform Fake.Client
platform = record {
  pod_namespace = "";
  max_procs = 4;
  bootstrap = api;
  client = api;
  held = λ w. new_netbox_holder (new_client unreachable "https://netbox" "token");
  send = unreachable;
  otel = otel;
  range_order = λ m. m;
  register_metrics = λ w. w;
  new_manager = λ options w. (none, w);
  new_bootstrap_client = λ w. (none, w);
  setup_with_manager = λ c w. (none, w);
  add_healthz_check = λ w. (none, w);
  add_readyz_check = λ w. (none, w);
  start = λ op w. (none, w);
}

abbrev flags : Flags
flags = record default_flags { audit_ttl = "1h" }

abbrev running : Operator Fake.Client
running = operator platform flags (pos 3600000000000) "https://netbox" "token" (λ w. (none, w))

prepared : (prepare platform flags netbox).0 ≡ next running
unfolding prepare body setup ensure_cluster_rbac
prepared = refl

prepare-IsSafe_example :
    let (outcome, events, _) = prepare platform flags netbox in
    All IsStartup events × Ends (IsExit platform flags) (IsSafe platform flags) outcome
prepare-IsSafe_example = prepare-IsSafe platform flags netbox

started-Complete_example : Complete (
    get
      (reconcile_config running.watcher (config_map_key running.watcher) running.holder netbox).0.1)
started-Complete_example =
    started-Complete platform flags netbox prepared
      (Passes.passed (config_map_key running.watcher) netbox Passes.started)

abbrev spec : AuditEventSpec
spec = record {
  type = "MachineAllocated";
  resource_kind = "ClusterClaim";
  resource_name = "prod";
  actor = "";
  old_phase = "";
  new_phase = "";
  machine_id = 1;
  timestamp = pos 0;
  ttl = "";
}

abbrev emitted : AuditEvent
emitted = audit_event "tenant-acme" "1h" spec (pos 100)

started-expiry_example :
    expiry running.purge emitted ≡ emitted.meta.creation_timestamp +ℤ pos 3600000000000
unfolding operator audit_event
started-expiry_example =
    started-expiry platform flags netbox "tenant-acme" spec (pos 100) emitted prepared refl refl
