-- ===== src/Controller/Cluster/Provision/Values.antt =====
-- stepProvision: the changes that it makes to the status, and the names that it gives.
use smeltry_operator.Base.{ℕ, String, ◌<>◌, List, [], ◌∷◌, ◌++◌, str_eq, if◌then◌else◌}
use smeltry_operator.Error.{Result, ok, err}
use smeltry_operator.Api.{ClusterClaim, SiteConfig, OsdDevices, ObjectMeta}
use smeltry_operator.Netbox.{InventoryItem, IpAddress}
use smeltry_operator.Controller.Utility.{tenant_from_namespace, strip_prefix}

-- osdDevices[key] = append(osdDevices[key], name)
unfoldable pub append_osd : String → String → OsdDevices → OsdDevices
append_osd key name [] = (key, name ∷ []) ∷ []
append_osd key name ((k, names) ∷ rest) =
    if str_eq k key then (k, names ++ (name ∷ [])) ∷ rest else (k, names) ∷ append_osd key name rest

unfoldable pub append_osds : String → List InventoryItem → OsdDevices → OsdDevices
unfolding append_osd
append_osds key [] osds = osds
append_osds key (d ∷ ds) osds = append_osds key ds (append_osd key d.name osds)

-- What the loop over the machines has built so far.
pub record Allocation : Type 0 where
  pub ids : List ℕ
  pub osds : OsdDevices

abbrev pub with_control_plane_ip : ClusterClaim → IpAddress → String → ClusterClaim
with_control_plane_ip claim ip dns = record claim {
  status = record (claim.status) {
    control_plane_ip = strip_prefix ip.address;
    control_plane_dns = dns;
    netbox_ipam_ids = claim.status.netbox_ipam_ids ++ (ip.id ∷ []);
  };
}

abbrev pub with_webhook_ip : ClusterClaim → IpAddress → String → ClusterClaim
with_webhook_ip claim ip dns = record claim {
  status = record (claim.status) {
    webhook_ip = strip_prefix ip.address;
    webhook_dns = dns;
    netbox_ipam_ids = claim.status.netbox_ipam_ids ++ (ip.id ∷ []);
  };
}

abbrev pub with_allocation : ClusterClaim → Allocation → ClusterClaim
with_allocation claim a = record claim {
  status = record (claim.status) { allocated_machine_ids = a.ids; osd_devices = a.osds };
}

unfoldable pub dns_name : ClusterClaim → String → SiteConfig → String
unfolding tenant_from_namespace
dns_name claim suffix site =
    claim.meta.name
    <> (suffix
        <> ("." <> (tenant_from_namespace claim.meta.namespace <> ("." <> site.spec.dns.zone))))

unfoldable pub job_name : ClusterClaim → String
job_name claim = claim.meta.name <> "-machinecfg"

-- `_ = controllerutil.SetControllerReference(...)`: an error leaves the metadata as it was.
abbrev pub meta_or : ObjectMeta → Result ObjectMeta → ObjectMeta
meta_or old (ok meta) = meta
meta_or old (err _) = old
