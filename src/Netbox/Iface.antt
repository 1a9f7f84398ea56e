-- ===== src/Netbox/Iface.antt =====
-- internal/netbox/interface.go: ClientIface, over an unknown state of the world. The reconcilers
-- fetch the client anew from the NetboxHolder for every call: which client answers is part of that
-- state.
use smeltry_operator.Base.{ℕ, String, Option, List}
use smeltry_operator.Error.{Error, Result}
use smeltry_operator.Netbox.Types.{Tenant, Device, DeviceStatus, InventoryItem, IpAddress}

pub record ClientIface (W : Type 0) : Type 0 where
  pub list_tenants : W → Result (List Tenant) × W
  pub list_available_devices : String → String → W → Result (List Device) × W
  pub list_devices_by_site : String → W → Result (List Device) × W
  pub set_device_status : ℕ → DeviceStatus → String → W → Option Error × W
  pub list_osd_disks : ℕ → W → Result (List InventoryItem) × W
  pub allocate_ip : String → String → List String → W → Result IpAddress × W
  pub release_ip : ℕ → W → Option Error × W
