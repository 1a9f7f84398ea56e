-- ===== src/Netbox/Fake/Laws.antt =====
-- The in-memory Netbox keeps its books: allocation and release round trips.
use smeltry_operator.Base.{
  ℕ, ◌+◌, ◌<◌, ◌≡◌, refl, String, Bool, true, false, none, List, [], ◌∷◌, ◌++◌, ◌==◌, arith,
  if◌then◌else◌,
}
use smeltry_operator.Error.{Result, ok, err}
use smeltry_operator.Netbox.Types.{Device, DeviceStatus, IpAddress}
use smeltry_operator.Netbox.Fake.{
  Client, update_device, set_device_status, list_available_devices, keep, available, new_ip,
  allocate_ip,
}

-- The IDs of the devices that are listed, whether a device is there.
abbrev pub ids : List Device → List ℕ
ids [] = []
ids (d ∷ ds) = d.id ∷ ids ds

abbrev pub mem : ℕ → List ℕ → Bool
mem id [] = false
mem id (j ∷ js) = if j == id then true else mem id js

-- The IDs that a listing offers.
abbrev pub listed : Result (List Device) → List ℕ
listed (ok ds) = ids ds
listed (err _) = []

abbrev pub Unique : List ℕ → Type 0
Unique [] = Unit
Unique (j ∷ js) = (mem j js ≡ false) × Unique js

pub mem-keep :
    (test : Device → Bool) (id : ℕ) (ds : List Device)
    → mem id (ids ds) ≡ false
    → mem id (ids (keep test ds)) ≡ false
unfolding keep
mem-keep test id [] h = refl
mem-keep test id (d ∷ ds) h = ground (arith, mem-keep test id ds)

-- A staged device is listed as available to nobody.
staged_is_hidden :
    (id : ℕ) (slug site model : String) (ds : List Device)
    → Unique (ids ds)
    → mem id (ids (keep (available site model) (update_device id DeviceStatus.staged slug ds).0))
      ≡ false
unfolding keep update_device available
staged_is_hidden id slug site model [] u = refl
staged_is_hidden id slug site model (d ∷ ds) u =
    ground
      (arith, staged_is_hidden id slug site model ds u.1, mem-keep (available site model) id ds)

released_is_listed :
    (id : ℕ) (ds : List Device)
    → mem id (ids ds) ≡ true
    → mem id (ids (keep (available "" "") (update_device id DeviceStatus.active "" ds).0)) ≡ true
unfolding keep update_device available
released_is_listed id [] h = cc
released_is_listed id (d ∷ ds) h = ground (arith, released_is_listed id ds)

pub found_iff :
    (id : ℕ) (status : DeviceStatus) (slug : String) (ds : List Device)
    → (update_device id status slug ds).1 ≡ mem id (ids ds)
unfolding update_device
found_iff id status slug [] = refl
found_iff id status slug (d ∷ ds) = ground (arith, found_iff id status slug ds)

pub mem-update_device :
    (j id : ℕ) (status : DeviceStatus) (slug : String) (ds : List Device)
    → mem j (ids (update_device id status slug ds).0) ≡ mem j (ids ds)
unfolding update_device
mem-update_device j id status slug [] = refl
mem-update_device j id status slug (d ∷ ds) = ground (arith, mem-update_device j id status slug ds)

-- Staging a device and releasing it again, at a Netbox that has it and no two devices of one ID:
-- both calls succeed, between them no listing of available devices has the device, and after them
-- the listing of all available devices has it.
pub stage_and_release :
    (id : ℕ) (slug site model : String) (c : Client)
    → Unique (ids c.devices)
    → mem id (ids c.devices) ≡ true
    → let (e, staged) = set_device_status id DeviceStatus.staged slug c in
      let (e', released) = set_device_status id DeviceStatus.active "" staged in
      (e ≡ none)
      × (e' ≡ none)
      × (mem id (listed (list_available_devices site model staged).0) ≡ false)
      × (mem id (listed (list_available_devices "" "" released).0) ≡ true)
unfolding set_device_status list_available_devices
stage_and_release id slug site model c u here =
    let staged = (update_device id DeviceStatus.staged slug c.devices).0 in
    ground (
      arith,
      found_iff id DeviceStatus.staged slug c.devices,
      found_iff id DeviceStatus.active "" staged,
      mem-update_device id id DeviceStatus.staged slug c.devices,
      staged_is_hidden id slug site model c.devices u,
      released_is_listed id staged,
    )

-- Every address that the fake has handed out has an ID below the next one.
abbrev pub IdsBelow : ℕ → List IpAddress → Type 0
IdsBelow n [] = Unit
IdsBelow n (ip ∷ ips) = (ip.id < n) × IdsBelow n ips

IdsBelow-suc : (n : ℕ) (ips : List IpAddress) → IdsBelow n ips → IdsBelow (n + 1) ips
IdsBelow-suc n [] h = tt
IdsBelow-suc n (ip ∷ ips) h = (omega arith, IdsBelow-suc n ips h.1)

IdsBelow-append :
    (n : ℕ) (ips : List IpAddress) (ip : IpAddress)
    → IdsBelow n ips
    → ip.id < n
    → IdsBelow n (ips ++ (ip ∷ []))
IdsBelow-append n [] ip h lt = (lt, tt)
IdsBelow-append n (x ∷ ips) ip h lt = (h.0, IdsBelow-append n ips ip h.1 lt)

-- Where every handed-out address has an ID below the next one, AllocateIP hands out an address
-- with an ID above all of those, and afterwards every handed-out address, the new one too, has an
-- ID below the next one.
pub allocate_ip-IdsBelow :
    (prefix dns_name : String) (tags : List String) (c : Client)
    → IdsBelow c.next_ip_id c.allocated_ips
    → let (answer, c') = allocate_ip prefix dns_name tags c in
      ((ip : IpAddress) × (answer ≡ ok ip) × IdsBelow ip.id c.allocated_ips)
      × IdsBelow c'.next_ip_id c'.allocated_ips
unfolding allocate_ip new_ip
allocate_ip-IdsBelow prefix dns_name tags c h = (
  (_, refl, h),
  IdsBelow-append _ c.allocated_ips _ (IdsBelow-suc _ c.allocated_ips h) (omega arith),
)
