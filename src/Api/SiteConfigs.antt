-- ===== src/Api/SiteConfigs.antt =====
-- api/v1alpha1/other_types.go, SiteConfig
use smeltry_operator.Base.{ℕ, String, Option, List, ℤ}
use smeltry_operator.Api.Meta.{ObjectMeta, Condition}

pub record SiteNetboxConfig : Type 0 where
  pub site_slug : String
  pub provisioning_prefix : String
  pub ipam_tags : List String

pub record SiteNetworkConfig : Type 0 where
  pub provisioning_cidr : String
  pub management_cidr : String

pub record SiteCiliumConfig : Type 0 where
  pub l2_pool_name : String

pub record SiteDnsConfig : Type 0 where
  pub zone : String

pub record SiteOidcConfig : Type 0 where
  pub issuer_url : String
  pub client_id : String
  pub username_claim : String
  pub groups_claim : String

pub record SiteConfigSpec : Type 0 where
  pub netbox : SiteNetboxConfig
  pub network : SiteNetworkConfig
  pub cilium : SiteCiliumConfig
  pub dns : SiteDnsConfig
  pub oidc : SiteOidcConfig

pub record MachineCharacteristics : Type 0 where
  pub cpu_cores : ℕ
  pub ram_gb : ℕ
  pub storage_gb : ℕ

pub record MachineClassSummary : Type 0 where
  pub machine_class : String
  pub available_count : ℕ
  pub tags : List String
  pub characteristics : MachineCharacteristics

pub record SiteConfigStatus : Type 0 where
  pub conditions : List Condition
  pub machine_classes : List MachineClassSummary
  pub last_machine_sync : Option ℤ

pub record SiteConfig : Type 0 where
  pub meta : ObjectMeta
  pub spec : SiteConfigSpec
  pub status : SiteConfigStatus
