-- ===== src/Effect/Events.antt =====
-- The calls that leave the operator.
use smeltry_operator.Base.{ℕ, String, Option, List}
use smeltry_operator.Error.{Error, Result}
use smeltry_operator.Netbox.{DeviceStatus, IpAddress}
use smeltry_operator.Api.{Key}
use smeltry_operator.Kube.{Object}
use smeltry_operator.Http.Types.{Request}

-- `get` names the kind that is read. `upsert` is CreateOrUpdate, with the object as it is created.
pub data Event : Type 0 where
  get : String → Key → Event
  create update update_status delete upsert : Object → Option Error → Event
  list_tenants : Event
  list_available_devices : String → String → Event
  list_devices_by_site : String → Event
  set_device_status : ℕ → DeviceStatus → String → Option Error → Event
  list_osd_disks : ℕ → Event
  allocate_ip : String → String → List String → Result IpAddress → Event
  release_ip : ℕ → Option Error → Event
  http : Request → Event
