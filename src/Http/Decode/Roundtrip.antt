-- ===== src/Http/Decode/Roundtrip.antt =====
-- The answers as Netbox documents them, and that the structs of internal/netbox/client.go are
-- decoded from them.
use smeltry_operator.Base.{ℕ, ◌<◌, ◌≡◌, refl, String, Option, none, some, List, [], ◌∷◌, pos, arith}
use smeltry_operator.Error.{ok}
use smeltry_operator.Netbox.{Device, device_status_text}
use smeltry_operator.Http.Json.{Json, get, Elements, Members}
use smeltry_operator.Http.Decode.{
  as_int, as_id, as_text, as_object, as_slug, as_list, decode_each, as_tenant_ref, as_device,
  as_results, status_of,
}

-- A JSON object with this slug, whatever else is in it.
abbrev pub ShowsSlug : String → Json → Type 0
ShowsSlug slug j = (o : Members) × (j ≡ Json.object o) × (get "slug" o ≡ Json.text slug)

abbrev pub ShowsTenant : Option String → Json → Type 0
ShowsTenant none j = j ≡ Json.null
ShowsTenant (some slug) j = ShowsSlug slug j

abbrev pub ShowsTags : List String → Elements → Type 0
ShowsTags [] Elements.nil = Unit
ShowsTags (tag ∷ tags) (Elements.cons j js) = ShowsSlug tag j × ShowsTags tags js
ShowsTags _ _ = ⊥

-- An object with this text under the name.
abbrev pub ShowsText : String → String → Json → Type 0
ShowsText name text j = (o : Members) × (j ≡ Json.object o) × (get name o ≡ Json.text text)

-- The members of a device that the client reads, as Netbox documents them, among any others. The
-- ID fits an int, and the status is spelled as one thing only.
abbrev pub ShowsDevice : Device → Members → Type 0
ShowsDevice d o =
    (d.id < 9223372036854775808)
    × (get "id" o ≡ Json.int (pos d.id))
    × (get "name" o ≡ Json.text d.name)
    × ShowsText "value" (device_status_text d.status) (get "status" o)
    × (status_of (device_status_text d.status) ≡ d.status)
    × ShowsSlug d.site_slug (get "site" o)
    × ShowsText "model" d.model (get "device_type" o)
    × ShowsTenant d.tenant (get "tenant" o)
    × ((tags : Elements) × (get "tags" o ≡ Json.array tags) × ShowsTags d.tags tags)

abbrev pub ShowsDevices : List Device → Elements → Type 0
ShowsDevices [] Elements.nil = Unit
ShowsDevices (d ∷ ds) (Elements.cons j js) =
    ((o : Members) × (j ≡ Json.object o) × ShowsDevice d o) × ShowsDevices ds js
ShowsDevices _ _ = ⊥

-- A page of a listing: the devices under "results", among other members such as the count.
abbrev pub ShowsPage : List Device → Json → Type 0
ShowsPage ds j =
    (o : Members) × (results : Elements) × (j ≡ Json.object o)
    × (get "results" o ≡ Json.array results)
    × ShowsDevices ds results

slug_back : (slug : String) (j : Json) → ShowsSlug slug j → as_slug j ≡ ok slug
unfolding as_slug as_object as_text
slug_back slug j (o, e, h) = rw (e, h) refl

tags_back :
    (tags : List String) (js : Elements) → ShowsTags tags js → decode_each as_slug js ≡ ok tags
unfolding decode_each
tags_back [] Elements.nil h = refl
tags_back [] (Elements.cons j js) h = absurd h
tags_back (t ∷ ts) Elements.nil h = absurd h
tags_back (t ∷ ts) (Elements.cons j js) (h, hs) = rw (slug_back t j h, tags_back ts js hs) refl

tenant_back : (t : Option String) (j : Json) → ShowsTenant t j → as_tenant_ref j ≡ ok t
unfolding as_tenant_ref as_slug as_object as_text
tenant_back none j h = rw h refl
tenant_back (some slug) j (o, e, h) = rw (e, h) refl

id_back : (n : ℕ) → n < 9223372036854775808 → as_id (Json.int (pos n)) ≡ ok n
unfolding as_id as_int
id_back n h = ground arith

as_device-ShowsDevice :
    (d : Device) (o : Members) → ShowsDevice d o → as_device (Json.object o) ≡ ok d
unfolding as_device as_object as_text as_list
as_device-ShowsDevice d o
      (
        small,
        id,
        name,
        (status, at, value),
        plain,
        site,
        (kind, kind_at, model),
        tenant,
        (tags, tags_at, each),
      ) =
    rw
      (
        id,
        name,
        at,
        value,
        kind_at,
        model,
        tags_at,
        id_back d.id small,
        plain,
        slug_back d.site_slug (get "site" o) site,
        tenant_back d.tenant (get "tenant" o) tenant,
        tags_back d.tags tags each,
      )
      refl

devices_back :
    (ds : List Device) (js : Elements) → ShowsDevices ds js → decode_each as_device js ≡ ok ds
unfolding decode_each
devices_back [] Elements.nil h = refl
devices_back [] (Elements.cons j js) h = absurd h
devices_back (d ∷ ds) Elements.nil h = absurd h
devices_back (d ∷ ds) (Elements.cons j js) ((o, e, h), hs) =
    rw (e, as_device-ShowsDevice d o h, devices_back ds js hs) refl

pub as_results-ShowsPage :
    (ds : List Device) (j : Json) → ShowsPage ds j → as_results as_device j ≡ ok ds
unfolding as_results as_object as_list
as_results-ShowsPage ds j (o, results, e, at, h) = rw (e, at, devices_back ds results h) refl
