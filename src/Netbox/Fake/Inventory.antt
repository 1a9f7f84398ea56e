-- ===== src/Netbox/Fake/Inventory.antt =====
-- The in-memory Netbox as a client sees it: an inventory, which has at most one device for an ID.
-- How the devices are ordered and what the maps of the fake remember is forgotten.
use mathlib.Core.Path.{subst}
use smeltry_operator.Base.{
  ℕ, ◌≡◌, refl, sym, ap, ◌∙◌, String, Bool, true, false, not, Option, none, some, List, [], ◌∷◌,
  ◌==◌, ◌&&◌, str_eq, arith, if◌then◌else◌,
}
use smeltry_operator.Error.{Error, ok}
use smeltry_operator.Netbox.Types.{Device, DeviceStatus, device_status_text}
use smeltry_operator.Netbox.Fake.{
  Client, update_device, set_device_status, list_available_devices, keep, available, is_free,
}
use smeltry_operator.Netbox.Fake.Laws.{ids, mem, Unique, mem-keep, found_iff}

abbrev pub Inventory : Type 0
Inventory = ℕ → Option Device

-- The inventory of a list of devices.
unfoldable pub inventory : List Device → Inventory
inventory [] j = none
inventory (d ∷ ds) j = if d.id == j then some d else inventory ds j

-- A call of SetDeviceStatus.
pub record Assignment : Type 0 where
  pub device : ℕ
  pub status : DeviceStatus
  pub tenant_slug : String

abbrev owner : String → Option String
owner slug = if str_eq slug "" then none else some slug

assigned : Assignment → Option Device → Option Device
assigned a none = none
assigned a (some d) = some (record d { status = a.status; tenant = owner a.tenant_slug })

-- What a call does to an inventory, and what calls in a row do.
unfoldable pub assign : Assignment → Inventory → Inventory
unfolding assigned
assign a inv j = if a.device == j then assigned a (inv j) else inv j

unfoldable pub assign_all : List Assignment → Inventory → Inventory
assign_all [] inv = inv
assign_all (a ∷ rest) inv = assign_all rest (assign a inv)

abbrev pub known : Option Device → Bool
known none = false
known (some _) = true

-- Whether a call succeeds at each of the calls in a row.
unfoldable pub successes : List Assignment → Inventory → List Bool
successes [] inv = []
successes (a ∷ rest) inv = known (inv a.device) ∷ successes rest inv

abbrev pub is_active_text : Device → Bool
unfolding device_status_text
is_active_text d = str_eq (device_status_text d.status) "active"

-- What ListAvailableDevices is documented to give: the active devices of the site and the model that
-- no tenant has.
unfoldable pub offered : String → String → Option Device → Bool
offered site model none = false
offered site model (some d) =
    is_active_text d && (is_free d.tenant && (str_eq d.site_slug site && str_eq d.model model))

-- The entry, if there is one, is a device of the site.
abbrev pub stands_on : String → Option Device → Bool
stands_on site none = true
stands_on site (some d) = str_eq d.site_slug site

abbrev succeeded : Option Error → Bool
succeeded none = true
succeeded (some _) = false

-- The calls in a row at the fake: whether each succeeds, and the fake after them.
unfoldable pub run : List Assignment → Client → List Bool × Client
run [] c = ([], c)
run (a ∷ rest) c =
    let (e, c') = set_device_status a.device a.status a.tenant_slug c in
    let (answers, c'') = run rest c' in (succeeded e ∷ answers, c'')

inventory-update_device :
    (a : Assignment) (ds : List Device) (j : ℕ)
    → inventory (update_device a.device a.status a.tenant_slug ds).0 j ≡ assign a (inventory ds) j
unfolding inventory assign assigned update_device
inventory-update_device a [] j = ground arith
inventory-update_device a (d ∷ ds) j = ground (arith, inventory-update_device a ds j)

ids-update_device :
    (id : ℕ) (status : DeviceStatus) (slug : String) (ds : List Device)
    → ids (update_device id status slug ds).0 ≡ ids ds
unfolding update_device
ids-update_device id status slug [] = refl
ids-update_device id status slug (d ∷ ds) = ground (arith, ids-update_device id status slug ds)

update_device-missing :
    (id : ℕ) (status : DeviceStatus) (slug : String) (ds : List Device)
    → (update_device id status slug ds).1 ≡ false
    → (update_device id status slug ds).0 ≡ ds
unfolding update_device
update_device-missing id status slug [] h = refl
update_device-missing id status slug (d ∷ ds) h =
    ground (arith, update_device-missing id status slug ds)

known-inventory : (ds : List Device) (j : ℕ) → known (inventory ds j) ≡ mem j (ids ds)
unfolding inventory
known-inventory [] j = refl
known-inventory (d ∷ ds) j = ground (arith, known-inventory ds j)

known-assign : (a : Assignment) (inv : Inventory) (j : ℕ) → known (assign a inv j) ≡ known (inv j)
unfolding assign assigned
known-assign a inv j = elim (inv j) [ none ↦ ground arith | some d ↦ ground arith ]

successes-assign :
    (rest : List Assignment) (a : Assignment) (inv : Inventory)
    → successes rest (assign a inv) ≡ successes rest inv
unfolding successes
successes-assign [] a inv = refl
successes-assign (b ∷ rest) a inv = cc (known-assign a inv b.device, successes-assign rest a inv)

guards :
    (active free on_site same : Bool)
    → on_site ≡ true
    → (active && (free && not (true && (true && not same))))
      ≡ (active && (free && (on_site && same)))
guards active free on_site same h = ground arith

abbrev passes : (Device → Bool) → Option Device → Bool
passes test none = false
passes test (some d) = test d

-- What is listed of devices with different IDs: the entries that pass the test.
mem-keep-passes :
    (test : Device → Bool) (ds : List Device) (j : ℕ)
    → Unique (ids ds)
    → mem j (ids (keep test ds)) ≡ passes test (inventory ds j)
unfolding keep inventory
mem-keep-passes test [] j u = refl
mem-keep-passes test (d ∷ ds) j u =
    ground (arith, mem-keep-passes test ds j u.1, mem-keep test j ds)

passes-offered :
    (site model : String) (entry : Option Device)
    → str_eq site "" ≡ false
    → str_eq model "" ≡ false
    → stands_on site entry ≡ true
    → passes (available site model) entry ≡ offered site model entry
unfolding available offered
passes-offered site model none s m on = refl
passes-offered site model (some d) s m on =
    rw (s, m)
      (guards (is_active_text d) (is_free d.tenant) (str_eq d.site_slug site) (str_eq d.model model)
        on)

-- A call leaves every device on its site.
stands_on-assign :
    (site : String) (a : Assignment) (inv : Inventory) (j : ℕ)
    → stands_on site (assign a inv j) ≡ stands_on site (inv j)
unfolding assign assigned
stands_on-assign site a inv j = elim (inv j) [ none ↦ ground arith | some d ↦ ground arith ]

stands_on-assign_all :
    (site : String) (calls : List Assignment) (inv : Inventory) (j : ℕ)
    → stands_on site (assign_all calls inv j) ≡ stands_on site (inv j)
unfolding assign_all
stands_on-assign_all site [] inv j = refl
stands_on-assign_all site (a ∷ rest) inv j =
    stands_on-assign_all site rest (assign a inv) j ∙ stands_on-assign site a inv j

devices-set_device_status :
    (a : Assignment) (c : Client)
    → (set_device_status a.device a.status a.tenant_slug c).1.devices
      ≡ (update_device a.device a.status a.tenant_slug c.devices).0
unfolding set_device_status
devices-set_device_status a c =
    ground (arith, update_device-missing a.device a.status a.tenant_slug c.devices)

succeeded-set_device_status :
    (a : Assignment) (c : Client)
    → succeeded (set_device_status a.device a.status a.tenant_slug c).0
      ≡ known (inventory c.devices a.device)
unfolding set_device_status
succeeded-set_device_status a c =
    ground (
      arith,
      found_iff a.device a.status a.tenant_slug c.devices,
      known-inventory c.devices a.device,
    )

-- One call is one step of the inventory.
inventory-set_device_status :
    (a : Assignment) (c : Client)
    → inventory (set_device_status a.device a.status a.tenant_slug c).1.devices
      ≡ assign a (inventory c.devices)
inventory-set_device_status a c =
    ap inventory (devices-set_device_status a c) ∙ (λ i j. inventory-update_device a c.devices j i)

run-inventory :
    (calls : List Assignment) (c : Client)
    → inventory (run calls c).1.devices ≡ assign_all calls (inventory c.devices)
unfolding run assign_all
run-inventory [] c = refl
run-inventory (a ∷ rest) c =
    let c' = (set_device_status a.device a.status a.tenant_slug c).1 in
    run-inventory rest c' ∙ ap (assign_all rest) (inventory-set_device_status a c)

run-successes :
    (calls : List Assignment) (c : Client) → (run calls c).0 ≡ successes calls (inventory c.devices)
unfolding run successes
run-successes [] c = refl
run-successes (a ∷ rest) c =
    let c' = (set_device_status a.device a.status a.tenant_slug c).1 in
    cc (
      succeeded-set_device_status a c,
      run-successes rest c',
      ap (successes rest) (inventory-set_device_status a c),
      successes-assign rest a (inventory c.devices),
    )

run-ids : (calls : List Assignment) (c : Client) → ids (run calls c).1.devices ≡ ids c.devices
unfolding run
run-ids [] c = refl
run-ids (a ∷ rest) c =
    let c' = (set_device_status a.device a.status a.tenant_slug c).1 in
    run-ids rest c'
    ∙ (ap ids (devices-set_device_status a c)
        ∙ ids-update_device a.device a.status a.tenant_slug c.devices)

-- The fake refines the inventory. At devices with different IDs that are all of one site, for that
-- site and a model that is not empty, after any calls of SetDeviceStatus in a row:
--   - a call has succeeded exactly where the inventory at the start has the device;
--   - the devices are the inventory on which the calls were carried out one after the other;
--   - ListAvailableDevices succeeds, and has a device exactly where that inventory has it active,
--     without a tenant, and of the site and the model.
pub run-refines :
    (calls : List Assignment) (site model : String) (c : Client)
    → Unique (ids c.devices)
    → str_eq site "" ≡ false
    → str_eq model "" ≡ false
    → ((j : ℕ) → stands_on site (inventory c.devices j) ≡ true)
    → let (answers, c') = run calls c in
      (answers ≡ successes calls (inventory c.devices))
      × (inventory c'.devices ≡ assign_all calls (inventory c.devices))
      × ((ds : List Device) × ((list_available_devices site model c').0 ≡ ok ds)
          × ((j : ℕ)
              → mem j (ids ds) ≡ offered site model (assign_all calls (inventory c.devices) j)))
unfolding list_available_devices
run-refines calls site model c u s m on =
    let c' = (run calls c).1 in
    let after : inventory c'.devices ≡ _ = run-inventory calls c in
    (
      run-successes calls c,
      after,
      (
        keep (available site model) c'.devices,
        refl,
        λ j.
            mem-keep-passes (available site model) c'.devices j
              (subst Unique (sym (run-ids calls c)) u)
            ∙ (ap (λ inv. passes (available site model) (inv j)) after
                ∙ passes-offered site model (assign_all calls (inventory c.devices) j) s m
                    (stands_on-assign_all site calls (inventory c.devices) j ∙ on j)),
      ),
    )
