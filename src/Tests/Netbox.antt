-- ===== src/Tests/Netbox.antt =====
-- The laws of the in-memory Netbox at three machines.
use smeltry_operator.Base.{arith, ◌≡◌, refl, List, [], ◌∷◌, ℕ}
use smeltry_operator.Error.{ok}
use smeltry_operator.Netbox.{Device, DeviceStatus}
use smeltry_operator.Netbox.Fake
use smeltry_operator.Netbox.Fake.Laws.{ids, mem}
use smeltry_operator.Netbox.Fake.Inventory.{
  Assignment, inventory, assign_all, offered, successes, run, run-refines,
}
use smeltry_operator.Tests.World.{netbox}

-- Machine 2 is staged, a machine that is not there is asked for, and machine 2 is released.
abbrev calls : List Assignment
calls =
    record { device = 2; status = DeviceStatus.staged; tenant_slug = "acme" }
    ∷ (record { device = 9; status = DeviceStatus.staged; tenant_slug = "acme" }
        ∷ (record { device = 2; status = DeviceStatus.active; tenant_slug = "" } ∷ []))

run-refines_example :
    let (answers, netbox') = run calls netbox in
    (answers ≡ successes calls (inventory netbox.devices))
    × (inventory netbox'.devices ≡ assign_all calls (inventory netbox.devices))
    × ((ds : List Device) × ((Fake.list_available_devices "paris" "r640" netbox').0 ≡ ok ds)
        × ((j : ℕ)
            → mem j (ids ds)
              ≡ offered "paris" "r640" (assign_all calls (inventory netbox.devices) j)))
unfolding inventory
run-refines_example =
    run-refines calls "paris" "r640" netbox (refl, (refl, (refl, tt))) refl refl (λ j. ground arith)
