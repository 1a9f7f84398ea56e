-- ===== src/Netbox/Fake.antt =====
-- internal/netbox/fake/client.go: the in-memory Netbox. Its mutex makes each method atomic, so a
-- method is a function of the client's state.
pub mod Laws
pub mod Inventory
use smeltry_operator.Base.{
  ℕ, ◌+◌, String, ◌<>◌, Bool, true, false, not, Option, none, some, List, [], ◌∷◌, ◌++◌, ◌&&◌, ◌==◌,
  str_eq, sprint, if◌then◌else◌,
}
use smeltry_operator.Error.{Error, Result, ok, err}
use smeltry_operator.Netbox.Types.{
  Tenant, Device, DeviceStatus, device_status_text, InventoryItem, IpAddress,
}
use smeltry_operator.Netbox.Iface.{ClientIface}

pub record Client : Type 0 where
  pub tenants : List Tenant
  pub devices : List Device
  pub osd_disks : List (ℕ × List InventoryItem)
  pub next_ip_id : ℕ
  pub allocated_ips : List IpAddress
  pub released_ips : List ℕ
  pub device_statuses : List (ℕ × DeviceStatus)
  pub device_tenants : List (ℕ × String)
  pub list_tenants_err : Option Error
  pub list_devices_by_site_err : Option Error

unfoldable pub new : Client
new = record {
  tenants = [];
  devices = [];
  osd_disks = [];
  next_ip_id = 1;
  allocated_ips = [];
  released_ips = [];
  device_statuses = [];
  device_tenants = [];
  list_tenants_err = none;
  list_devices_by_site_err = none;
}

-- Go's maps with integer keys.
module _ {V : Type 0} where
  unfoldable pub put : ℕ → V → List (ℕ × V) → List (ℕ × V)
  put k v [] = (k, v) ∷ []
  put k v ((j, u) ∷ m) = if j == k then (k, v) ∷ m else (j, u) ∷ put k v m

disks_of : ℕ → List (ℕ × List InventoryItem) → List InventoryItem
disks_of id [] = []
disks_of id ((j, disks) ∷ m) = if j == id then disks else disks_of id m

is_active : Device → Bool
unfolding device_status_text
is_active d = str_eq (device_status_text d.status) "active"

abbrev is_free : Option String → Bool
is_free none = true
is_free (some _) = false

-- The three guards of ListAvailableDevices, each of which skips a device. The site is only asked
-- for being there.
available : String → String → Device → Bool
unfolding is_active
available site_slug model d =
    is_active d
    && (is_free d.tenant
        && not (not (str_eq site_slug "") && (not (str_eq model "") && not (str_eq d.model model))))

on_site : String → Device → Bool
unfolding is_active
on_site site_slug d = is_active d && str_eq d.site_slug site_slug

pub keep : (Device → Bool) → List Device → List Device
keep test [] = []
keep test (d ∷ ds) = if test d then d ∷ keep test ds else keep test ds

abbrev tenant_of : String → Option String
tenant_of slug = if str_eq slug "" then none else some slug

-- The loop of SetDeviceStatus, which ends at the first device with the ID, and whether it found one.
pub update_device : ℕ → DeviceStatus → String → List Device → List Device × Bool
update_device id status slug [] = ([], false)
update_device id status slug (d ∷ ds) =
    let (rest, found) = update_device id status slug ds in
    if d.id == id
    then (record d { status = status; tenant = tenant_of slug } ∷ ds, true)
    else (d ∷ rest, found)

unfoldable pub list_tenants : Client → Result (List Tenant) × Client
list_tenants c = elim c.list_tenants_err [ some e ↦ (err e, c) | none ↦ (ok c.tenants, c) ]

unfoldable pub list_devices_by_site : String → Client → Result (List Device) × Client
unfolding on_site keep
list_devices_by_site site_slug c = elim c.list_devices_by_site_err [
  | some e ↦ (err e, c)
  | none ↦ (ok (keep (on_site site_slug) c.devices), c)
]

unfoldable pub list_available_devices : String → String → Client → Result (List Device) × Client
unfolding available keep
list_available_devices site_slug model c = (ok (keep (available site_slug model) c.devices), c)

unfoldable pub set_device_status : ℕ → DeviceStatus → String → Client → Option Error × Client
unfolding update_device put
set_device_status id status slug c =
    let (devices, found) = update_device id status slug c.devices in
    if found
    then (
      none,
      record c {
        devices = devices;
        device_statuses = put id status c.device_statuses;
        device_tenants = put id slug c.device_tenants;
      },
    )
    else (some (Error.message ("fake: device " <> (sprint id <> " not found"))), c)

unfoldable pub list_osd_disks : ℕ → Client → Result (List InventoryItem) × Client
unfolding disks_of
list_osd_disks id c = (ok (disks_of id c.osd_disks), c)

new_ip : ℕ → String → IpAddress
new_ip id dns_name = record {
  id = id;
  address = "10.0.1." <> (sprint id <> "/24");
  dns_name = dns_name;
}

unfoldable pub allocate_ip : String → String → List String → Client → Result IpAddress × Client
unfolding new_ip
allocate_ip prefix dns_name tags c = (
  ok (new_ip c.next_ip_id dns_name),
  record c {
    next_ip_id = c.next_ip_id + 1;
    allocated_ips = c.allocated_ips ++ (new_ip c.next_ip_id dns_name ∷ []);
  },
)

unfoldable pub release_ip : ℕ → Client → Option Error × Client
release_ip id c = (none, record c { released_ips = c.released_ips ++ (id ∷ []) })

-- The fake as the interface, over a world that holds it.
abbrev pub fake_client : ClientIface Client
fake_client = record {
  list_tenants = list_tenants;
  list_available_devices = list_available_devices;
  list_devices_by_site = list_devices_by_site;
  set_device_status = set_device_status;
  list_osd_disks = list_osd_disks;
  allocate_ip = allocate_ip;
  release_ip = release_ip;
}
