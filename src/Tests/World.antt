-- ===== src/Tests/World.antt =====
-- A small installation: a claim, a profile, a site, three machines, and an API server that answers
-- with fixed objects and accepts every write.
use smeltry_operator.Base.{
  ℕ, String, Bool, true, false, none, some, List, [], ◌∷◌, ◌++◌, ◌||◌, pos, str_eq, if◌then◌else◌,
}
use smeltry_operator.Error.{Error, ok, err}
use smeltry_operator.Api.{
  object_meta, ClusterClaim, ClusterClaimPhase, AddonProfile, AddonComponent, SiteConfig,
}
use smeltry_operator.Netbox.{Device, DeviceStatus}
use smeltry_operator.Netbox.Fake
use smeltry_operator.Kube.{Kube, Job, Role, PolicyRule, Cluster, ConfigMap, Secret, Fields}
use smeltry_operator.Controller.Cluster.Defs.{ClusterClaimReconciler}

abbrev pub device : ℕ → Device
device id = record {
  id = id;
  name = "node";
  status = DeviceStatus.active;
  site_slug = "paris";
  model = "r640";
  tenant = none;
  tags = "nvme" ∷ [];
}

abbrev pub netbox : Fake.Client
netbox = record {
  tenants = [];
  devices = device 1 ∷ device 2 ∷ device 3 ∷ [];
  osd_disks = (1, record { id = 7; name = "sdb" } ∷ []) ∷ [];
  next_ip_id = 1;
  allocated_ips = [];
  released_ips = [];
  device_statuses = [];
  device_tenants = [];
  list_tenants_err = none;
  list_devices_by_site_err = none;
}

abbrev finalizer : String
finalizer = "portal.smeltry.io/clusterclaim-protection"

-- A claim for two machines, in a phase.
abbrev pub claim_in : ClusterClaimPhase → ClusterClaim
claim_in phase = record {
  meta = record (object_meta "prod" "tenant-acme") { finalizers = finalizer ∷ [] };
  spec = record {
    machine_class = "r640";
    machine_count = 2;
    site = "paris";
    addon_profile = "base";
  };
  status = record {
    phase = phase;
    conditions = [];
    control_plane_ip = "";
    control_plane_dns = "";
    webhook_ip = "";
    webhook_dns = "";
    netbox_ipam_ids = [];
    allocated_machine_ids = [];
    osd_devices = [];
    kubeconfig_secret = "";
    cluster_ref = none;
  };
}

-- A claim in a phase that has its addresses and machines.
abbrev pub allocated_in : ClusterClaimPhase → ClusterClaim
allocated_in phase =
    let claim = claim_in phase in
    record claim {
      status = record (claim.status) {
        control_plane_ip = "10.0.1.1";
        webhook_ip = "10.0.1.2";
        netbox_ipam_ids = 4 ∷ 5 ∷ [];
        allocated_machine_ids = 1 ∷ [];
        kubeconfig_secret = "prod-kubeconfig";
      };
    }

abbrev pub component : String → ℕ → AddonComponent
component name order = record {
  name = name;
  required = true;
  order = order;
  helm_ref = record {
    repo_url = "https://charts";
    chart_name = name;
    chart_version = "1";
    values = "";
  };
}

abbrev pub profile : AddonProfile
profile = record {
  meta = object_meta "base" "portal-system";
  spec = record {
    description = "";
    components = component "rook" 2 ∷ component "cilium" 1 ∷ [];
    machine_constraints = some (record { required_tags = "nvme" ∷ [] });
  };
}

abbrev pub site : SiteConfig
site = record {
  meta = object_meta "paris" "portal-system";
  spec = record {
    netbox = record { site_slug = "paris"; provisioning_prefix = "10.0.1.0/24"; ipam_tags = [] };
    network = record { provisioning_cidr = "10.0.1.0/24"; management_cidr = "10.0.2.0/24" };
    cilium = record { l2_pool_name = "pool" };
    dns = record { zone = "example.org" };
    oidc = record {
      issuer_url = "https://id";
      client_id = "k8s";
      username_claim = "email";
      groups_claim = "groups";
    };
  };
  status = record { conditions = []; machine_classes = []; last_machine_sync = none };
}

abbrev pub rule : List String → PolicyRule
rule names = record {
  api_groups = "" ∷ [];
  resources = "secrets" ∷ [];
  verbs = "get" ∷ [];
  resource_names = names;
}

abbrev pub user_role : Role
user_role = record { meta = object_meta "cluster-user" "tenant-acme"; rules = rule [] ∷ [] }

abbrev pub done_job : Job
done_job = record {
  meta = object_meta "prod-machinecfg" "tenant-acme";
  image = "machinecfg";
  args = [];
  env = [];
  completion_time = some (pos 5);
  failed = 0;
}

abbrev pub settings : ConfigMap
settings = record {
  meta = object_meta "smeltry-operator-config" "smeltry-system";
  entries = ("netbox.url", "https://netbox") ∷ [];
}

abbrev pub credentials : Secret
credentials = record {
  meta = object_meta "smeltry-operator-netbox" "smeltry-system";
  entries = ("netbox.token", "token") ∷ [];
}

abbrev pub ready_cluster : Cluster
ready_cluster = record {
  meta = object_meta "prod" "tenant-acme";
  infrastructure_ref = none;
  control_plane_ref = none;
  control_plane_ready = true;
}

abbrev contains : List String → String → Bool
contains [] s = false
contains (x ∷ xs) s = str_eq x s || contains xs s

abbrev without : List String → String → List String
without [] s = []
without (x ∷ xs) s = if str_eq x s then without xs s else x ∷ without xs s

-- An answer that leaves the world as it is.
abbrev always : {A : Type 0} → A → Fake.Client → A × Fake.Client
always a w = (a, w)

abbrev pub is_missing : Error → Bool
is_missing (Error.external s) = str_eq s "NotFound"
is_missing (Error.message _) = false
is_missing (Error.wrapped _ _) = false

abbrev pub kube : ClusterClaim → Job → Kube Fake.Client
kube claim job = record {
  is_not_found = is_missing;
  ignore_not_found = λ e. if is_missing e then none else some e;
  contains_finalizer = λ m f. contains m.finalizers f;
  add_finalizer = λ m f. record m { finalizers = m.finalizers ++ (f ∷ []) };
  remove_finalizer = λ m f. record m { finalizers = without m.finalizers f };
  set_controller_reference = λ owner m. ok (record m { owner_references = owner.name ∷ [] });
  set_nested_field = λ content value path. ok (Fields.field "spec" value content);
  nested_bool = λ content path. true;
  parse_time = λ s. none;
  parse_duration = λ s. if str_eq s "1h" then some (pos 3600000000000) else none;
  now = always (pos 100);
  get_cluster_claim = λ key. always (ok claim);
  get_server_claim = λ key. always (err (Error.external "NotFound"));
  get_addon_profile = λ key. always (ok profile);
  get_site_config = λ key. always (ok site);
  get_audit_event = λ key. always (err (Error.external "NotFound"));
  get_job = λ key. always (ok job);
  get_role = λ key. always (ok user_role);
  get_namespace = λ key. always (err (Error.external "NotFound"));
  get_cluster = λ key. always (ok ready_cluster);
  get_config_map = λ key. always (ok settings);
  get_secret = λ key. always (ok credentials);
  get_unstructured = λ gvk key. always (err (Error.external "NotFound"));
  create = λ o. always none;
  update = λ o. always none;
  update_status = λ o. always none;
  delete = λ o. always none;
  create_or_update_cluster = λ o f. always none;
  create_or_update_machine_deployment = λ o f. always none;
  create_or_update_service = λ o f. always none;
  create_or_update_quota = λ o f. always none;
  create_or_update_role = λ o f. always none;
  create_or_update_role_binding = λ o f. always none;
  create_or_update_cluster_role = λ o f. always none;
  create_or_update_cluster_role_binding = λ o f. always none;
}

abbrev pub reconciler : ClusterClaim → Job → ClusterClaimReconciler Fake.Client
reconciler claim job = record {
  client = kube claim job;
  netbox = Fake.fake_client;
  netbox_token = "token";
  netbox_url = "https://netbox";
  machinecfg_image = "machinecfg";
  default_audit_ttl = "720h";
  range_order = λ m. m;
}
