-- ===== src/Startup.antt =====
-- main.go: the start of the operator.
mod Types
pub mod Safety
pub mod Operation
use smeltry_operator.Base.{ℕ, ◌*◌, String, Option, none, some, ◌||◌, ltb, str_eq, if◌then◌else◌, ℤ}
use smeltry_operator.Error.{Error}
use smeltry_operator.Api.{named}
use smeltry_operator.Effect.{
  Go, Block, ◌>>=◌, ◌>>◌, pure, return, call, check, value_or, return_if, body, silent,
  get_config_map, get_secret,
}
use smeltry_operator.Http.Client.{new_client}
use smeltry_operator.Rbac.{ensure_cluster_rbac}
use smeltry_operator.Telemetry.{Shutdown, setup}
use smeltry_operator.Config.Holder.{new_netbox_holder, through}
use smeltry_operator.Config.Watcher.{entry}
unfoldable pub use Types.*

unfoldable pub max : ℕ → ℕ → ℕ
max a b = if ltb b a then a else b

-- os.Getenv("POD_NAMESPACE"), or its default
abbrev pub namespace_or_default : String → String
namespace_or_default namespace = if str_eq namespace "" then "smeltry-system" else namespace

abbrev pub manager_options : Flags → ManagerOptions
manager_options flags = record {
  bind_address = flags.metrics_bind_address;
  health_probe_bind_address = flags.health_probe_bind_address;
  leader_election = flags.leader_elect;
  leader_election_id = "smeltry-operator.portal.smeltry.io";
}

module _ {W : Type 0} (p : Platform W) (flags : Flags) where
  -- The reconcilers' fields.
  unfoldable pub operator : ℤ → String → String → Shutdown W → Operator W
  unfolding max new_netbox_holder through
  operator ttl url token otel_shutdown = record {
    holder = new_netbox_holder (new_client p.send url token);
    cluster = record {
      client = p.client;
      netbox = through p.held;
      netbox_token = token;
      netbox_url = url;
      machinecfg_image = flags.machinecfg_image;
      default_audit_ttl = flags.audit_ttl;
      range_order = p.range_order;
    };
    max_workers = max 1 p.max_procs;
    tenants = record {
      client = p.client;
      netbox = through p.held;
      poll_interval = flags.netbox_poll_interval;
    };
    server = record {
      client = p.client;
      netbox = through p.held;
      netbox_token = token;
      netbox_url = url;
      machinecfg_image = flags.machinecfg_image;
      default_audit_ttl = flags.audit_ttl;
    };
    sites = record { client = p.client; netbox = through p.held };
    purge = record { client = p.client; default_ttl = ttl };
    watcher = record {
      client = p.client;
      send = p.send;
      config_map_name = flags.config_map;
      secret_name = flags.netbox_secret;
      namespace = namespace_or_default p.pod_namespace;
    };
    otel_shutdown = otel_shutdown;
  }

  abbrev pub exit_1 : Error → ℕ
  exit_1 _ = 1

  abbrev pub parsed_ttl : Option ℤ → Block W ℕ ℤ
  parsed_ttl none = return 1
  parsed_ttl (some ttl) = pure ttl

  -- Up to the telemetry: the duration, the address and the token.
  unfoldable pub read_settings : Block W ℕ (ℤ × String × String × Shutdown W)
  unfolding setup
  read_settings = do
    let namespace = namespace_or_default p.pod_namespace
    ttl ← parsed_ttl (p.client.parse_duration flags.audit_ttl)
    call (silent λ w. (tt, p.register_metrics w))
    call (silent (p.new_manager (manager_options flags))) >>= check exit_1
    call (silent p.new_bootstrap_client) >>= check exit_1
    cm ← call (get_config_map p.bootstrap (named flags.config_map namespace)) >>= value_or exit_1
    secret ← call (get_secret p.bootstrap (named flags.netbox_secret namespace)) >>= value_or exit_1
    let url = entry "netbox.url" cm.entries
    let token = entry "netbox.token" secret.entries
    return_if (str_eq url "" || str_eq token "") 1
    otel_shutdown ← call (setup p.otel (entry "otel.endpoint" cm.entries)) >>= value_or exit_1
    pure (ttl, url, token, otel_shutdown)

  abbrev pub set_up : Controller W → Block W ℕ (Unit {0})
  set_up c = call (silent (p.setup_with_manager c)) >>= check exit_1

  -- From the roles to the checks.
  unfoldable pub set_up_all : Operator W → Block W ℕ (Unit {0})
  set_up_all op = do
    call (ensure_cluster_rbac p.bootstrap) >>= check exit_1
    set_up (Controller.cluster_claims op.cluster op.max_workers)
    set_up (Controller.netbox_tenants op.tenants)
    set_up (Controller.server_claims op.server)
    set_up (Controller.site_configs op.sites)
    set_up (Controller.audit_event_purge op.purge)
    set_up (Controller.config op.watcher)
    call (silent p.add_healthz_check) >>= check exit_1
    call (silent p.add_readyz_check) >>= check exit_1

  unfoldable pub prepare : Block W ℕ (Operator W)
  unfolding read_settings set_up_all operator
  prepare = do
    (ttl, url, token, otel_shutdown) ← read_settings
    let op = operator ttl url token otel_shutdown
    set_up_all op
    pure op

  -- The exit code. The deferred shutdown runs where main returns, not where it exits.
  unfoldable pub main : Go W ℕ
  unfolding prepare
  main = body do
    op ← prepare
    call (silent (p.start op)) >>= check exit_1
    call (silent op.otel_shutdown)
    pure 0
