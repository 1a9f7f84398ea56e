-- ===== src/Startup/Types.antt =====
-- main.go: the flags, the parameters, and what the process holds when its manager starts.
use smeltry_operator.Base.{ℕ, ◌*◌, String, Bool, true, Option, ℤ, pos}
use smeltry_operator.Error.{Error, Result}
use smeltry_operator.Api.{OsdDevices}
use smeltry_operator.Kube.{Kube}
use smeltry_operator.Http.Types.{Request, Response}
use smeltry_operator.Http.Client.{Client}
use smeltry_operator.Telemetry.{Otel, Shutdown}
use smeltry_operator.Controller.Reply.{minute}
use smeltry_operator.Controller.Cluster.Defs.{ClusterClaimReconciler}
use smeltry_operator.Controller.Server.Defs.{ServerClaimReconciler}
use smeltry_operator.Controller.Tenants.{NetboxTenantReconciler}
use smeltry_operator.Controller.Sites.{SiteConfigReconciler}
use smeltry_operator.Controller.Purge.{AuditEventPurgeReconciler}
use smeltry_operator.Config.Holder.{NetboxHolder}
use smeltry_operator.Config.Watcher.{ConfigReconciler}

-- The flags, but for the level of the log.
pub record Flags : Type 0 where
  pub metrics_bind_address : String
  pub health_probe_bind_address : String
  pub leader_elect : Bool
  pub config_map : String
  pub netbox_secret : String
  pub netbox_poll_interval : ℤ
  pub machinecfg_image : String
  pub audit_ttl : String

abbrev pub default_flags : Flags
default_flags = record {
  metrics_bind_address = ":8080";
  health_probe_bind_address = ":8081";
  leader_elect = true;
  config_map = "smeltry-operator-config";
  netbox_secret = "smeltry-operator-netbox";
  netbox_poll_interval = pos (5 * minute);
  machinecfg_image = "ghcr.io/smeltry-io/machinecfg:latest";
  audit_ttl = "720h";
}

-- ctrl.Options
pub record ManagerOptions : Type 0 where
  pub bind_address : String
  pub health_probe_bind_address : String
  pub leader_election : Bool
  pub leader_election_id : String

-- A reconciler whose SetupWithManager is called, in the order of the calls.
pub data Controller (W : Type 0) : Type 0 where
  cluster_claims : ClusterClaimReconciler W → ℕ → Controller W
  netbox_tenants : NetboxTenantReconciler W → Controller W
  server_claims : ServerClaimReconciler W → Controller W
  site_configs : SiteConfigReconciler W → Controller W
  audit_event_purge : AuditEventPurgeReconciler W → Controller W
  config : ConfigReconciler W → Controller W

-- What the process holds when it starts its manager.
pub record Operator (W : Type 0) : Type 0 where
  pub holder : NetboxHolder (Client W)
  pub cluster : ClusterClaimReconciler W
  pub max_workers : ℕ
  pub tenants : NetboxTenantReconciler W
  pub server : ServerClaimReconciler W
  pub sites : SiteConfigReconciler W
  pub purge : AuditEventPurgeReconciler W
  pub watcher : ConfigReconciler W
  pub otel_shutdown : Shutdown W

-- `bootstrap` is the client that is made before the manager runs, `client` the manager's. `held`
-- is the holder in the memory of the process, as the watcher has left it in a state.
pub record Platform (W : Type 0) : Type 0 where
  pub pod_namespace : String
  pub max_procs : ℕ
  pub bootstrap : Kube W
  pub client : Kube W
  pub held : W → NetboxHolder (Client W)
  pub send : Request → W → Result Response × W
  pub otel : Otel W
  pub range_order : OsdDevices → OsdDevices
  pub register_metrics : W → W
  pub new_manager : ManagerOptions → W → Option Error × W
  pub new_bootstrap_client : W → Option Error × W
  pub setup_with_manager : Controller W → W → Option Error × W
  pub add_healthz_check : W → Option Error × W
  pub add_readyz_check : W → Option Error × W
  pub start : Operator W → W → Option Error × W
