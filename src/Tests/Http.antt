-- ===== src/Tests/Http.antt =====
-- The HTTP client of Netbox, at a server that gives one answer to every request.
use smeltry_operator.Base.{ℕ, ◌≡◌, refl, ◌↔◌, sprint, pos, String, none, some, [], ◌∷◌, ◌⊎◌, arith}
use smeltry_operator.Error.{Error, ok, err}
use smeltry_operator.Netbox.{Device, DeviceStatus, IpAddress, device_status_text}
use smeltry_operator.Effect.{Event, body}
use smeltry_operator.Http.Bytes.{utf8}
use smeltry_operator.Http.Json.{Json, Elements, Members, member, end, slug_object, get}
use smeltry_operator.Http.Types.{Response}
use smeltry_operator.Http.Decode.{
  as_device, as_object, as_id, as_int, as_list, decode_each, as_text, as_slug, as_tenant_ref,
  status_of,
}
use smeltry_operator.Http.Decode.Roundtrip.{ShowsPage}
use smeltry_operator.Http.Client.{
  Client, new_client, device_patch, set_device_status, release_ip, allocate_ip, resolve_prefix_id,
  list_available_devices, list_devices_by_site, list_osd_disks,
}
use smeltry_operator.Http.Client.Requests.{
  Answered, patch_request, delete_request, lookup_request, allocation_request, writes-Answered,
  Found, allocate_ip-Calls,
}
use smeltry_operator.Http.Client.Queries.{Asks, listings-Ask, device_listings-decode}
use smeltry_operator.Http.Client.Tenancy.{KeepsUnnamed, sent_body, set_device_status-keeps_tenant}
use smeltry_operator.Api.{ClusterClaimPhase}
use smeltry_operator.Netbox.Fake
use smeltry_operator.Controller.Cluster.Validate.{step_validate}
use smeltry_operator.Controller.Cluster.Validate.Shortage.{
  written_phases, over_http, step_validate-refused,
}
use smeltry_operator.Tests.World.{claim_in, reconciler, done_job, netbox, profile, site}

abbrev answering : Response → Client (Unit {0})
answering resp = new_client (λ q w. (ok resp, w)) "https://netbox" "token"

abbrev created : Response
created = record {
  status_code = 201;
  body = some (
      Json.object (
        member "results"
          (Json.array
            (Elements.cons (Json.object (member "id" (Json.int (pos 4)) end)) Elements.nil))
          end));
}

abbrev forbidden : Response
forbidden = record {
  status_code = 403;
  body = some (Json.object (member "detail" (Json.text "Invalid token") end));
}

-- A page with one device, with some of the other members that Netbox sends.
abbrev device_members : Members
device_members = member "id" (Json.int (pos 1)) (
    member "url" (Json.text "https://netbox/api/dcim/devices/1/") (
      member "name" (Json.text "m1") (
        member "device_type"
          (Json.object (member "id" (Json.int (pos 7)) (member "model" (Json.text "r640") end)))
          (member "serial" (Json.text "") (
            member "tenant" Json.null (
              member "site" (slug_object "paris") (
                member "status"
                  (Json.object
                    (member "value" (Json.text "active") (member "label" (Json.text "Active") end)))
                  (member "tags" (Json.array Elements.nil) end))))))))

abbrev page_json : Json
page_json = Json.object (
    member "count" (Json.int (pos 1)) (
      member "next" Json.null (
        member "previous" Json.null (
          member "results" (Json.array (Elements.cons (Json.object device_members) Elements.nil))
            end))))

abbrev listed_device : Device
listed_device = record {
  id = 1;
  name = "m1";
  status = DeviceStatus.active;
  site_slug = "paris";
  model = "r640";
  tenant = none;
  tags = [];
}

abbrev listing : Response
listing = record { status_code = 200; body = some page_json }

page-ShowsPage : ShowsPage (listed_device ∷ []) page_json
unfolding get device_status_text status_of
page-ShowsPage = (
  _,
  _,
  refl,
  refl,
  (
    (
      device_members,
      refl,
      (
        omega arith,
        refl,
        refl,
        (_, refl, refl),
        refl,
        (_, refl, refl),
        (_, refl, refl),
        refl,
        (_, refl, tt),
      ),
    ),
    tt,
  ),
)

writes-Answered_example :
    let c = answering created in
    (((set_device_status c 7 DeviceStatus.staged "acme" tt).1
        ≡ Event.http (patch_request c tt 7 DeviceStatus.staged "acme") ∷ [])
      × ((set_device_status c 7 DeviceStatus.staged "acme" tt).0 ≡ none
          ↔ Answered c (patch_request c tt 7 DeviceStatus.staged "acme") tt 200 300))
    × ((release_ip c 4 tt).1 ≡ Event.http (delete_request c tt 4) ∷ [])
    × ((release_ip c 4 tt).0 ≡ none ↔ Answered c (delete_request c tt 4) tt 204 205)
writes-Answered_example = writes-Answered (answering created) tt 7 DeviceStatus.staged "acme" 4

allocate_ip-Calls_example :
    let c = answering created in
    let (answer, events, _) = allocate_ip c "10.0.1.0/24" "prod" [] tt in
    ((e : Error) × (answer ≡ err e)
      × (events ≡ Event.http (lookup_request c tt "10.0.1.0/24") ∷ []))
    ⊎ ((id : ℕ) × Found c tt "10.0.1.0/24" id
        × (events
            ≡ Event.http (lookup_request c tt "10.0.1.0/24")
              ∷ Event.http (allocation_request c tt id "prod" [])
              ∷ [])
        × ((a : IpAddress)
            → answer ≡ ok a
            → Answered c (allocation_request c tt id "prod" []) tt 200 300))
allocate_ip-Calls_example = allocate_ip-Calls (answering created) tt "10.0.1.0/24" "prod" []

-- The second case is the one that comes about.
prefix_found : (resolve_prefix_id (answering created) "10.0.1.0/24" tt).0 ≡ ok 4
unfolding resolve_prefix_id body get as_object as_id as_int as_list decode_each
prefix_found = refl

listings-Ask_example :
    let c = answering listing in
    ((site model : String)
      → Asks c "/api/dcim/devices/?"
          ((utf8 "device_type__model", utf8 model)
            ∷ (utf8 "limit", utf8 "1000")
            ∷ (utf8 "site", utf8 site)
            ∷ (utf8 "status", utf8 "active")
            ∷ (utf8 "tenant_id__isnull", utf8 "true")
            ∷ [])
          (list_available_devices c site model tt).1)
    × ((site : String)
        → Asks c "/api/dcim/devices/?"
            ((utf8 "limit", utf8 "1000")
              ∷ (utf8 "site", utf8 site)
              ∷ (utf8 "status", utf8 "active")
              ∷ [])
            (list_devices_by_site c site tt).1)
    × ((id : ℕ)
        → Asks c "/api/dcim/inventory-items/?"
            ((utf8 "device_id", utf8 (sprint id))
              ∷ (utf8 "limit", utf8 "100")
              ∷ (utf8 "tag", utf8 "ceph-osd")
              ∷ [])
            (list_osd_disks c id tt).1)
listings-Ask_example = listings-Ask (answering listing) tt

device_listings-decode_example :
    let c = answering listing in
    ((site model : String) → (list_available_devices c site model tt).0 ≡ ok (listed_device ∷ []))
    × ((site : String) → (list_devices_by_site c site tt).0 ≡ ok (listed_device ∷ []))
device_listings-decode_example =
    device_listings-decode (answering listing) tt listing page_json (listed_device ∷ []) (λ q. refl)
      refl page-ShowsPage

-- A device that a tenant has, and the same when it has become active again.
abbrev held : String → Members
held status =
    member "tenant" (slug_object "acme")
      (member "status" (Json.object (member "value" (Json.text status) end)) end)

abbrev acme_device : DeviceStatus → Device
acme_device status = record {
  id = 0;
  name = "";
  status = status;
  site_slug = "";
  model = "";
  tenant = some "acme";
  tags = [];
}

held_decodes :
    (as_device (Json.object (held "staged")) ≡ ok (acme_device DeviceStatus.staged))
    × (as_device (Json.object (held "active")) ≡ ok (acme_device DeviceStatus.active))
unfolding as_device as_object as_id as_int as_text as_slug as_list as_tenant_ref status_of get
held_decodes = (refl, refl)

held-KeepsUnnamed :
    KeepsUnnamed
      (sent_body (set_device_status (answering listing) 7 DeviceStatus.active "" tt).1)
      (held "staged")
      (held "active")
unfolding set_device_status device_patch body get
held-KeepsUnnamed = λ name h. ground arith

set_device_status-keeps_tenant_example :
    (acme_device DeviceStatus.active).tenant ≡ (acme_device DeviceStatus.staged).tenant
set_device_status-keeps_tenant_example =
    set_device_status-keeps_tenant (answering listing) tt 7 DeviceStatus.active (held "staged")
      (held "active") (acme_device DeviceStatus.staged) (acme_device DeviceStatus.active)
      held-KeepsUnnamed held_decodes.0 held_decodes.1

-- The HTTP client over the world of the small installation, at a server that refuses.
abbrev refusing : Client Fake.Client
refusing = new_client (λ q w. (ok forbidden, w)) "https://netbox" "expired"

step_validate-refused_example :
    let claim = claim_in ClusterClaimPhase.pending in
    written_phases (step_validate (over_http (reconciler claim done_job) refusing) claim netbox).1
    ≡ ClusterClaimPhase.failed ∷ []
unfolding get
step_validate-refused_example =
    step_validate-refused (reconciler (claim_in ClusterClaimPhase.pending) done_job) refusing
      (claim_in ClusterClaimPhase.pending) netbox forbidden
      (member "detail" (Json.text "Invalid token") end) profile site (λ q v. refl) refl refl refl
      refl (omega arith)
