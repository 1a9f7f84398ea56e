-- ===== src/Api/Meta.antt =====
-- Object metadata, conditions and keys, as the controllers use them (k8s.io/apimachinery).
use smeltry_operator.Base.{String, Option, none, List, [], ℤ, pos}

-- types.NamespacedName
pub record Key : Type 0 where
  pub name : String
  pub namespace : String

-- metav1.ObjectMeta, less what no controller reads or writes.
pub record ObjectMeta : Type 0 where
  pub name : String
  pub namespace : String
  pub generate_name : String
  pub labels : List (String × String)
  pub annotations : List (String × String)
  pub finalizers : List String
  pub owner_references : List String
  pub creation_timestamp : ℤ
  pub deletion_timestamp : Option ℤ

-- metav1.ConditionStatus
pub data ConditionStatus : Type 0 where
  condition_true condition_false condition_unknown : ConditionStatus

-- metav1.Condition
pub record Condition : Type 0 where
  pub type : String
  pub status : ConditionStatus
  pub reason : String
  pub message : String
  pub last_transition_time : ℤ

abbrev pub named : String → String → Key
named name namespace = record { name = name; namespace = namespace }

-- The metadata of an object that is built with a name and a namespace.
abbrev pub object_meta : String → String → ObjectMeta
object_meta name namespace = record {
  name = name;
  namespace = namespace;
  generate_name = "";
  labels = [];
  annotations = [];
  finalizers = [];
  owner_references = [];
  creation_timestamp = pos 0;
  deletion_timestamp = none;
}
