-- ===== src/Effect/Calls.antt =====
-- The calls themselves, each with its event.
use smeltry_operator.Base.{ℕ, String, Option, List, ℤ}
use smeltry_operator.Error.{Error, Result}
use smeltry_operator.Netbox.{Tenant, Device, DeviceStatus, InventoryItem, IpAddress, ClientIface}
use smeltry_operator.Api.{Key, ClusterClaim, ServerClaim, AddonProfile, SiteConfig, AuditEvent}
use smeltry_operator.Kube.{
  Kube, Object, Job, Role, RoleBinding, GroupVersionKind, Unstructured, Cluster, MachineDeployment,
  Service, Namespace, ResourceQuota, ConfigMap, Secret,
}
use smeltry_operator.Effect.Events.{Event}
use smeltry_operator.Effect.Blocks.{Go, logged, silent}

module _ {W : Type 0} (k : Kube W) where
  abbrev pub time_now : Go W ℤ
  time_now = silent k.now

  abbrev pub get_cluster_claim : Key → Go W (Result ClusterClaim)
  get_cluster_claim key = logged (λ _. Event.get "ClusterClaim" key) (k.get_cluster_claim key)

  abbrev pub get_server_claim : Key → Go W (Result ServerClaim)
  get_server_claim key = logged (λ _. Event.get "ServerClaim" key) (k.get_server_claim key)

  abbrev pub get_addon_profile : Key → Go W (Result AddonProfile)
  get_addon_profile key = logged (λ _. Event.get "AddonProfile" key) (k.get_addon_profile key)

  abbrev pub get_site_config : Key → Go W (Result SiteConfig)
  get_site_config key = logged (λ _. Event.get "SiteConfig" key) (k.get_site_config key)

  abbrev pub get_audit_event : Key → Go W (Result AuditEvent)
  get_audit_event key = logged (λ _. Event.get "AuditEvent" key) (k.get_audit_event key)

  abbrev pub get_job : Key → Go W (Result Job)
  get_job key = logged (λ _. Event.get "Job" key) (k.get_job key)

  abbrev pub get_role : Key → Go W (Result Role)
  get_role key = logged (λ _. Event.get "Role" key) (k.get_role key)

  abbrev pub get_namespace : Key → Go W (Result Namespace)
  get_namespace key = logged (λ _. Event.get "Namespace" key) (k.get_namespace key)

  abbrev pub get_cluster : Key → Go W (Result Cluster)
  get_cluster key = logged (λ _. Event.get "Cluster" key) (k.get_cluster key)

  abbrev pub get_config_map : Key → Go W (Result ConfigMap)
  get_config_map key = logged (λ _. Event.get "ConfigMap" key) (k.get_config_map key)

  abbrev pub get_secret : Key → Go W (Result Secret)
  get_secret key = logged (λ _. Event.get "Secret" key) (k.get_secret key)

  abbrev pub get_unstructured : GroupVersionKind → Key → Go W (Result Unstructured)
  get_unstructured gvk key = logged (λ _. Event.get gvk.kind key) (k.get_unstructured gvk key)

  abbrev pub create : Object → Go W (Option Error)
  create o = logged (Event.create o) (k.create o)

  abbrev pub update : Object → Go W (Option Error)
  update o = logged (Event.update o) (k.update o)

  abbrev pub update_status : Object → Go W (Option Error)
  update_status o = logged (Event.update_status o) (k.update_status o)

  abbrev pub delete : Object → Go W (Option Error)
  delete o = logged (Event.delete o) (k.delete o)

  abbrev pub upsert_cluster : Cluster → (Cluster → Cluster) → Go W (Option Error)
  upsert_cluster o f = logged (Event.upsert (Object.cluster (f o))) (k.create_or_update_cluster o f)

  abbrev pub upsert_machine_deployment :
      MachineDeployment → (MachineDeployment → MachineDeployment) → Go W (Option Error)
  upsert_machine_deployment o f =
      logged (Event.upsert (Object.machine_deployment (f o)))
        (k.create_or_update_machine_deployment o f)

  abbrev pub upsert_service : Service → (Service → Service) → Go W (Option Error)
  upsert_service o f = logged (Event.upsert (Object.service (f o))) (k.create_or_update_service o f)

  abbrev pub upsert_quota : ResourceQuota → (ResourceQuota → ResourceQuota) → Go W (Option Error)
  upsert_quota o f =
      logged (Event.upsert (Object.resource_quota (f o))) (k.create_or_update_quota o f)

  abbrev pub upsert_role : Role → (Role → Role) → Go W (Option Error)
  upsert_role o f = logged (Event.upsert (Object.role (f o))) (k.create_or_update_role o f)

  abbrev pub upsert_role_binding : RoleBinding → (RoleBinding → RoleBinding) → Go W (Option Error)
  upsert_role_binding o f =
      logged (Event.upsert (Object.role_binding (f o))) (k.create_or_update_role_binding o f)

  abbrev pub upsert_cluster_role : Role → (Role → Role) → Go W (Option Error)
  upsert_cluster_role o f =
      logged (Event.upsert (Object.cluster_role (f o))) (k.create_or_update_cluster_role o f)

  abbrev pub upsert_cluster_role_binding :
      RoleBinding → (RoleBinding → RoleBinding) → Go W (Option Error)
  upsert_cluster_role_binding o f =
      logged (Event.upsert (Object.cluster_role_binding (f o)))
        (k.create_or_update_cluster_role_binding o f)

module _ {W : Type 0} (n : ClientIface W) where
  abbrev pub list_tenants : Go W (Result (List Tenant))
  list_tenants = logged (λ _. Event.list_tenants) n.list_tenants

  abbrev pub list_available_devices : String → String → Go W (Result (List Device))
  list_available_devices site model =
      logged (λ _. Event.list_available_devices site model) (n.list_available_devices site model)

  abbrev pub list_devices_by_site : String → Go W (Result (List Device))
  list_devices_by_site site =
      logged (λ _. Event.list_devices_by_site site) (n.list_devices_by_site site)

  abbrev pub set_device_status : ℕ → DeviceStatus → String → Go W (Option Error)
  set_device_status id status tenant =
      logged (Event.set_device_status id status tenant) (n.set_device_status id status tenant)

  abbrev pub list_osd_disks : ℕ → Go W (Result (List InventoryItem))
  list_osd_disks id = logged (λ _. Event.list_osd_disks id) (n.list_osd_disks id)

  abbrev pub allocate_ip : String → String → List String → Go W (Result IpAddress)
  allocate_ip prefix dns tags =
      logged (Event.allocate_ip prefix dns tags) (n.allocate_ip prefix dns tags)

  abbrev pub release_ip : ℕ → Go W (Option Error)
  release_ip id = logged (Event.release_ip id) (n.release_ip id)
