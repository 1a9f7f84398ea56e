-- ===== src/Http/Client/Queries.antt =====
-- internal/netbox/client.go: the queries of the listings, and what a listing makes of a refusal.
use smeltry_operator.Base.{
  ℕ, ◌≡◌, refl, ap, ◌∙◌, String, none, some, List, [], ◌∷◌, ◌++◌, arith, sprint,
}
use smeltry_operator.Error.{Result, ok}
use smeltry_operator.Effect.{Event, body}
use smeltry_operator.Http.Bytes.{Bytes, utf8}
use smeltry_operator.Http.Query.{Values, encode, sort_values}
use smeltry_operator.Http.Query.Roundtrip.{read_query, wire, read_query-encode}
use smeltry_operator.Http.Json.{Json, Members, get}
use smeltry_operator.Http.Decode.{as_tenant, as_device, as_item, as_results}
use smeltry_operator.Http.Decode.Roundtrip.{ShowsPage, as_results-ShowsPage}
use smeltry_operator.Netbox.{Device}
use smeltry_operator.Http.Types.{Request, Response}
use smeltry_operator.Http.Client.{
  Client, request, get_decoded, list_tenants, list_available_devices, list_devices_by_site,
  list_osd_disks, available_values, site_values, osd_values,
}

-- The request is the only one, asks for the path, and a reader of its query finds the pairs.
abbrev pub Asks : {W : Type 0} → Client W → String → List (Bytes × Bytes) → List Event → Type 0
Asks c path pairs events =
    (query : Bytes) × (events ≡ Event.http (request c "GET" (utf8 path ++ query) none) ∷ [])
    × (read_query query ≡ some pairs)

available_values_lem :
    (site model : String)
    → sort_values (available_values site model)
      ≡ ("device_type__model", model)
        ∷ ("limit", "1000")
        ∷ ("site", site)
        ∷ ("status", "active")
        ∷ ("tenant_id__isnull", "true")
        ∷ []
unfolding sort_values available_values
available_values_lem site model = refl

site_values_lem :
    (site : String)
    → sort_values (site_values site)
      ≡ ("limit", "1000") ∷ ("site", site) ∷ ("status", "active") ∷ []
unfolding sort_values site_values
site_values_lem site = refl

osd_values_lem :
    (id : ℕ)
    → sort_values (osd_values id)
      ≡ ("device_id", sprint id) ∷ ("limit", "100") ∷ ("tag", "ceph-osd") ∷ []
unfolding sort_values osd_values
osd_values_lem id = refl

module _ {W : Type 0} (c : Client W) (w : W) where
  get_decoded-Asks :
      {A : Type 0} (f : Json → Result A) (path : String) (values pairs : Values)
      → sort_values values ≡ pairs
      → Asks c path (wire pairs) (get_decoded c (utf8 path ++ encode values) f w).1
  unfolding get_decoded body
  get_decoded-Asks f path values pairs sorted =
      (encode values, ground arith, read_query-encode values ∙ ap (λ vs. some (wire vs)) sorted)

  get_decoded-ignores_status :
      {A : Type 0} (f : Json → Result A) (path : Bytes) (resp : Response) (o : Members)
      → (c.send (request c "GET" path none) w).0 ≡ ok resp
      → resp.body ≡ some (Json.object o)
      → get "results" o ≡ Json.null
      → (get_decoded c path (as_results f) w).0 ≡ ok []
  unfolding get_decoded as_results body
  get_decoded-ignores_status f path resp o h b g = ground arith

  -- Each of the three listings sends one GET, and whoever reads its query back finds the filters
  -- and the limit with the site, the model and the ID as they were given, whatever bytes those
  -- have: active devices of the site and the model without a tenant, active devices of the site,
  -- items of the device that are tagged ceph-osd.
  pub listings-Ask :
      ((site model : String)
        → Asks c "/api/dcim/devices/?"
            ((utf8 "device_type__model", utf8 model)
              ∷ (utf8 "limit", utf8 "1000")
              ∷ (utf8 "site", utf8 site)
              ∷ (utf8 "status", utf8 "active")
              ∷ (utf8 "tenant_id__isnull", utf8 "true")
              ∷ [])
            (list_available_devices c site model w).1)
      × ((site : String)
          → Asks c "/api/dcim/devices/?"
              ((utf8 "limit", utf8 "1000")
                ∷ (utf8 "site", utf8 site)
                ∷ (utf8 "status", utf8 "active")
                ∷ [])
              (list_devices_by_site c site w).1)
      × ((id : ℕ)
          → Asks c "/api/dcim/inventory-items/?"
              ((utf8 "device_id", utf8 (sprint id))
                ∷ (utf8 "limit", utf8 "100")
                ∷ (utf8 "tag", utf8 "ceph-osd")
                ∷ [])
              (list_osd_disks c id w).1)
  unfolding list_available_devices list_devices_by_site list_osd_disks
  listings-Ask = (
    λ site model.
        get_decoded-Asks (as_results as_device) "/api/dcim/devices/?" (available_values site model)
          _ (available_values_lem site model),
    λ site.
        get_decoded-Asks (as_results as_device) "/api/dcim/devices/?" (site_values site) _
          (site_values_lem site),
    λ id.
        get_decoded-Asks (as_results as_item) "/api/dcim/inventory-items/?" (osd_values id) _
          (osd_values_lem id),
  )

  -- Where every request is answered by an object without results, such as a refusal with its
  -- detail, all four listings give an empty list and no error, whatever the status is.
  pub listings-ignore_status :
      (resp : Response) (o : Members)
      → ((q : Request) → (c.send q w).0 ≡ ok resp)
      → resp.body ≡ some (Json.object o)
      → get "results" o ≡ Json.null
      → ((list_tenants c w).0 ≡ ok [])
        × ((site model : String) → (list_available_devices c site model w).0 ≡ ok [])
        × ((site : String) → (list_devices_by_site c site w).0 ≡ ok [])
        × ((id : ℕ) → (list_osd_disks c id w).0 ≡ ok [])
  unfolding list_available_devices list_tenants list_devices_by_site list_osd_disks
  listings-ignore_status resp o h b g = (
    get_decoded-ignores_status as_tenant _ resp o (h _) b g,
    λ site model. get_decoded-ignores_status as_device _ resp o (h _) b g,
    λ site. get_decoded-ignores_status as_device _ resp o (h _) b g,
    λ id. get_decoded-ignores_status as_item _ resp o (h _) b g,
  )

  get_decoded-ok :
      {A : Type 0} (f : Json → Result A) (path : Bytes) (resp : Response) (j : Json) (a : A)
      → (c.send (request c "GET" path none) w).0 ≡ ok resp
      → resp.body ≡ some j
      → f j ≡ ok a
      → (get_decoded c path f w).0 ≡ ok a
  unfolding get_decoded body
  get_decoded-ok f path resp j a h b e = ground arith

  -- Where every request is answered by a page of devices as Netbox documents it (each device with
  -- a name, an ID below 2^63 and a status that is spelled in one way, and whatever other members
  -- the page and the devices have), both listings of devices give these devices.
  pub device_listings-decode :
      (resp : Response) (j : Json) (ds : List Device)
      → ((q : Request) → (c.send q w).0 ≡ ok resp)
      → resp.body ≡ some j
      → ShowsPage ds j
      → ((site model : String) → (list_available_devices c site model w).0 ≡ ok ds)
        × ((site : String) → (list_devices_by_site c site w).0 ≡ ok ds)
  unfolding list_available_devices list_devices_by_site
  device_listings-decode resp j ds h b shown =
      let decoded = as_results-ShowsPage ds j shown in
      (
        λ site model. get_decoded-ok (as_results as_device) _ resp j ds (h _) b decoded,
        λ site. get_decoded-ok (as_results as_device) _ resp j ds (h _) b decoded,
      )
