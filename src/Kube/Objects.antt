-- ===== src/Kube/Objects.antt =====
-- The objects that the controllers read and write, with the fields that they use.
use smeltry_operator.Base.{ℕ, String, Bool, Option, List, ℤ}
use smeltry_operator.Api.{ObjectMeta, ClusterClaim, ServerClaim, SiteConfig, AuditEvent}
use smeltry_operator.Kube.Json.{Fields}

-- batchv1.Job
pub record Job : Type 0 where
  pub meta : ObjectMeta
  pub image : String
  pub args : List String
  pub env : List (String × String)
  pub completion_time : Option ℤ
  pub failed : ℕ

-- rbacv1.PolicyRule
pub record PolicyRule : Type 0 where
  pub api_groups : List String
  pub resources : List String
  pub verbs : List String
  pub resource_names : List String

-- rbacv1.Role, and rbacv1.ClusterRole
pub record Role : Type 0 where
  pub meta : ObjectMeta
  pub rules : List PolicyRule

-- rbacv1.Subject, and rbacv1.RoleRef
pub record RoleRef : Type 0 where
  pub api_group : String
  pub kind : String
  pub name : String

-- rbacv1.RoleBinding, and rbacv1.ClusterRoleBinding
pub record RoleBinding : Type 0 where
  pub meta : ObjectMeta
  pub subjects : List RoleRef
  pub role_ref : RoleRef

-- schema.GroupVersionKind
pub record GroupVersionKind : Type 0 where
  pub group : String
  pub version : String
  pub kind : String

-- unstructured.Unstructured
pub record Unstructured : Type 0 where
  pub gvk : GroupVersionKind
  pub meta : ObjectMeta
  pub content : Fields

-- corev1.ObjectReference
pub record ObjectReference : Type 0 where
  pub api_version : String
  pub kind : String
  pub name : String
  pub namespace : String

-- clusterv1.Cluster
pub record Cluster : Type 0 where
  pub meta : ObjectMeta
  pub infrastructure_ref : Option ObjectReference
  pub control_plane_ref : Option ObjectReference
  pub control_plane_ready : Bool

-- clusterv1.MachineDeployment
pub record MachineDeployment : Type 0 where
  pub meta : ObjectMeta
  pub cluster_name : String
  pub replicas : Option ℤ
  pub template_cluster_name : String
  pub template_infrastructure_ref : Option ObjectReference

-- corev1.ServicePort
pub record ServicePort : Type 0 where
  pub name : String
  pub port : ℕ
  pub protocol : String

-- corev1.Service
pub record Service : Type 0 where
  pub meta : ObjectMeta
  pub type : String
  pub selector : List (String × String)
  pub ports : List ServicePort

-- corev1.Namespace
pub record Namespace : Type 0 where
  pub meta : ObjectMeta

-- corev1.ResourceQuota, with its hard limits
pub record ResourceQuota : Type 0 where
  pub meta : ObjectMeta
  pub hard : List (String × String)

-- corev1.ConfigMap, and corev1.Secret, whose bytes stand as the texts that they convert to. A map
-- holds each key once.
pub record ConfigMap : Type 0 where
  pub meta : ObjectMeta
  pub entries : List (String × String)

pub record Secret : Type 0 where
  pub meta : ObjectMeta
  pub entries : List (String × String)

-- client.Object
pub data Object : Type 0 where
  cluster_claim : ClusterClaim → Object
  server_claim : ServerClaim → Object
  site_config : SiteConfig → Object
  audit_event : AuditEvent → Object
  job : Job → Object
  role : Role → Object
  cluster_role : Role → Object
  role_binding : RoleBinding → Object
  cluster_role_binding : RoleBinding → Object
  unstructured : Unstructured → Object
  cluster : Cluster → Object
  machine_deployment : MachineDeployment → Object
  service : Service → Object
  namespace : Namespace → Object
  resource_quota : ResourceQuota → Object
