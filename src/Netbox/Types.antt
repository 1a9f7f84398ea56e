-- ===== src/Netbox/Types.antt =====
-- internal/netbox/client.go: the objects that Netbox returns. A JSON object with one field that is
-- read stands as that field: `site_slug` is Site.Slug, `model` is DeviceType.Model, and a tag is
-- its slug.
use smeltry_operator.Base.{ℕ, String, Option, List, ℤ}

pub record Tenant : Type 0 where
  pub id : ℕ
  pub name : String
  pub slug : String
  pub k8s_max_clusters : ℤ
  pub k8s_max_nodes : ℤ

-- DeviceStatus is a string: `other` is any text that is no constant.
pub data DeviceStatus : Type 0 where
  active staged offline decommissioning : DeviceStatus
  other : String → DeviceStatus

unfoldable pub device_status_text : DeviceStatus → String
device_status_text active = "active"
device_status_text staged = "staged"
device_status_text offline = "offline"
device_status_text decommissioning = "decommissioning"
device_status_text (other text) = text

pub record Device : Type 0 where
  pub id : ℕ
  pub name : String
  pub status : DeviceStatus
  pub site_slug : String
  pub model : String
  pub tenant : Option String
  pub tags : List String

pub record InventoryItem : Type 0 where
  pub id : ℕ
  pub name : String

pub record IpAddress : Type 0 where
  pub id : ℕ
  pub address : String
  pub dns_name : String
