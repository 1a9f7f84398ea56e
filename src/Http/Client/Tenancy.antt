-- ===== src/Http/Client/Tenancy.antt =====
-- internal/netbox/client.go: what SetDeviceStatus does to the tenant of a device.
use mathlib.Core.Path.{subst}
use smeltry_operator.Base.{
  ℕ, ◌≡◌, refl, String, Bool, true, false, Option, none, some, List, ◌∷◌, str_eq, if◌then◌else◌,
  arith,
}
use smeltry_operator.Error.{ok}
use smeltry_operator.Netbox.{Device, DeviceStatus}
use smeltry_operator.Effect.{Event}
use smeltry_operator.Http.Json.{Json, Members, get}
use smeltry_operator.Http.Decode.{as_object, as_device, as_tenant_ref}
use smeltry_operator.Http.Client.{Client, set_device_status, device_patch}
use smeltry_operator.Http.Client.Requests.{set_device_status-Answered}

abbrev pub has : String → Members → Bool
has name Members.end = false
has name (Members.member n _ rest) = if str_eq n name then true else has name rest

-- A partial update of an object, as Netbox documents its PATCH: what the request does not name
-- stays as it was.
abbrev pub KeepsUnnamed : Option Json → Members → Members → Type 0
KeepsUnnamed (some (Json.object named)) before after =
    (name : String) → has name named ≡ false → get name after ≡ get name before
KeepsUnnamed _ before after = Unit

as_device-tenant :
    (o : Members) (d : Device)
    → as_device (Json.object o) ≡ ok d
    → as_tenant_ref (get "tenant" o) ≡ ok d.tenant
unfolding as_device as_object
as_device-tenant o d h = ground arith

-- The body of the first request.
abbrev pub sent_body : List Event → Option Json
sent_body (Event.http q ∷ _) = q.body
sent_body _ = none

-- Where Netbox keeps what a PATCH does not name, SetDeviceStatus with an empty tenant leaves the
-- tenant of the device as it was: the device decoded afterwards has that of the one before.
pub set_device_status-keeps_tenant :
    {W : Type 0} (c : Client W) (w : W) (id : ℕ) (status : DeviceStatus) (before after : Members)
    (d d' : Device)
    → KeepsUnnamed (sent_body (set_device_status c id status "" w).1) before after
    → as_device (Json.object before) ≡ ok d
    → as_device (Json.object after) ≡ ok d'
    → d'.tenant ≡ d.tenant
unfolding device_patch
set_device_status-keeps_tenant c w id status before after d d' keeps old new =
    let named =
      subst (λ events. KeepsUnnamed (sent_body events) before after)
        ((set_device_status-Answered c w id status "").0) keeps in
    let same : get "tenant" after ≡ get "tenant" before = named "tenant" refl in
    cc (as_device-tenant before d old, as_device-tenant after d' new, same)
