-- ===== src/Kube/Client.antt =====
-- What the controllers call of controller-runtime, client-go and the clock. None of it is in the
-- repository, so all of it is a parameter.
use smeltry_operator.Base.{String, Bool, Option, List, ℤ}
use smeltry_operator.Error.{Error, Result}
use smeltry_operator.Api.{
  Key, ObjectMeta, ClusterClaim, ServerClaim, AddonProfile, SiteConfig, AuditEvent,
}
use smeltry_operator.Kube.Json.{Value, Fields}
use smeltry_operator.Kube.Objects.{
  Job, Role, RoleBinding, GroupVersionKind, Unstructured, Cluster, MachineDeployment, Service,
  Namespace, ResourceQuota, ConfigMap, Secret, Object,
}

pub record Kube (W : Type 0) : Type 0 where
  -- errors.IsNotFound and client.IgnoreNotFound
  pub is_not_found : Error → Bool
  pub ignore_not_found : Error → Option Error
  -- controllerutil.ContainsFinalizer, AddFinalizer and RemoveFinalizer, on the metadata
  pub contains_finalizer : ObjectMeta → String → Bool
  pub add_finalizer : ObjectMeta → String → ObjectMeta
  pub remove_finalizer : ObjectMeta → String → ObjectMeta
  -- controllerutil.SetControllerReference: the owner's metadata, then the object's
  pub set_controller_reference : ObjectMeta → ObjectMeta → Result ObjectMeta
  -- unstructured.SetNestedField and NestedBool
  pub set_nested_field : Fields → Value → List String → Result Fields
  pub nested_bool : Fields → List String → Bool
  -- time.Parse(time.RFC3339, s) and time.ParseDuration(s)
  pub parse_time : String → Option ℤ
  pub parse_duration : String → Option ℤ
  -- time.Now
  pub now : W → ℤ × W
  -- client.Reader
  pub get_cluster_claim : Key → W → Result ClusterClaim × W
  pub get_server_claim : Key → W → Result ServerClaim × W
  pub get_addon_profile : Key → W → Result AddonProfile × W
  pub get_site_config : Key → W → Result SiteConfig × W
  pub get_audit_event : Key → W → Result AuditEvent × W
  pub get_job : Key → W → Result Job × W
  pub get_role : Key → W → Result Role × W
  pub get_namespace : Key → W → Result Namespace × W
  pub get_cluster : Key → W → Result Cluster × W
  pub get_config_map : Key → W → Result ConfigMap × W
  pub get_secret : Key → W → Result Secret × W
  pub get_unstructured : GroupVersionKind → Key → W → Result Unstructured × W
  -- client.Writer and client.StatusWriter
  pub create : Object → W → Option Error × W
  pub update : Object → W → Option Error × W
  pub update_status : Object → W → Option Error × W
  pub delete : Object → W → Option Error × W
  -- ctrl.CreateOrUpdate, with the function that sets the desired fields
  pub create_or_update_cluster : Cluster → (Cluster → Cluster) → W → Option Error × W
  pub create_or_update_machine_deployment :
      MachineDeployment → (MachineDeployment → MachineDeployment) → W → Option Error × W
  pub create_or_update_service : Service → (Service → Service) → W → Option Error × W
  pub create_or_update_quota :
      ResourceQuota → (ResourceQuota → ResourceQuota) → W → Option Error × W
  pub create_or_update_role : Role → (Role → Role) → W → Option Error × W
  pub create_or_update_role_binding :
      RoleBinding → (RoleBinding → RoleBinding) → W → Option Error × W
  pub create_or_update_cluster_role : Role → (Role → Role) → W → Option Error × W
  pub create_or_update_cluster_role_binding :
      RoleBinding → (RoleBinding → RoleBinding) → W → Option Error × W
