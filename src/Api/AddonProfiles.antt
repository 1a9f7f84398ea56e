-- ===== src/Api/AddonProfiles.antt =====
-- api/v1alpha1/other_types.go, AddonProfile
use smeltry_operator.Base.{ℕ, String, Bool, Option, List}
use smeltry_operator.Api.Meta.{ObjectMeta}

pub record HelmRef : Type 0 where
  pub repo_url : String
  pub chart_name : String
  pub chart_version : String
  pub values : String

pub record AddonComponent : Type 0 where
  pub name : String
  pub required : Bool
  pub order : ℕ
  pub helm_ref : HelmRef

pub record MachineConstraints : Type 0 where
  pub required_tags : List String

pub record AddonProfileSpec : Type 0 where
  pub description : String
  pub components : List AddonComponent
  pub machine_constraints : Option MachineConstraints

pub record AddonProfile : Type 0 where
  pub meta : ObjectMeta
  pub spec : AddonProfileSpec
