-- ===== src/Http/Decode.antt =====
-- json.Decoder.Decode into the structs of internal/netbox/client.go, each from its zero value.
-- A null, or a name that is not there, leaves a field at zero; a value of another kind is an error.
pub mod Roundtrip
use smeltry_operator.Base.{
  ℕ, ◌≡◌, refl, String, Bool, true, false, Option, none, some, List, [], ◌∷◌, ltb, if◌then◌else◌, ℤ,
  pos, negsuc, str_eq,
}
use smeltry_operator.Error.{Error, Result, ok, err}
use smeltry_operator.Netbox.{Tenant, Device, DeviceStatus, InventoryItem, IpAddress}
use smeltry_operator.Http.Json.{Json, Elements, Members, get}

infixl 5 ◌>>=◌
abbrev pub ◌>>=◌ : {A B : Type 0} → Result A → (A → Result B) → Result B
ok a >>= f = f a
err e >>= f = err e

pub >>=-eq-ok :
    {A B : Type 0} (r : Result A) (f : A → Result B) {b : B}
    → (r >>= f) ≡ ok b
    → (a : A) × (r ≡ ok a) × (f a ≡ ok b)
>>=-eq-ok (ok a) f h = (a, refl, h)
>>=-eq-ok (err e) f h = cc

abbrev pub bad_json : Error
bad_json = Error.external "json"

unfoldable pub as_text : Json → Result String
as_text Json.null = ok ""
as_text (Json.text s) = ok s
as_text _ = err bad_json

-- int, of 64 bits
unfoldable pub as_int : Json → Result ℤ
as_int Json.null = ok (pos 0)
as_int (Json.int (pos n)) = if ltb n 9223372036854775808 then ok (pos n) else err bad_json
as_int (Json.int (negsuc n)) = if ltb n 9223372036854775808 then ok (negsuc n) else err bad_json
as_int _ = err bad_json

-- An ID, which Netbox numbers from 1. A negative one has no place in the model's structs.
abbrev natural : ℤ → Result ℕ
natural (pos n) = ok n
natural (negsuc n) = err bad_json

unfoldable pub as_id : Json → Result ℕ
unfolding as_int
as_id j = as_int j >>= natural

unfoldable pub as_object : Json → Result Members
as_object Json.null = ok Members.end
as_object (Json.object o) = ok o
as_object _ = err bad_json

unfoldable pub decode_each : {A : Type 0} → (Json → Result A) → Elements → Result (List A)
decode_each f Elements.nil = ok []
decode_each f (Elements.cons j js) = do a ← f j; rest ← decode_each f js; ok (a ∷ rest)

unfoldable pub as_list : {A : Type 0} → (Json → Result A) → Json → Result (List A)
unfolding decode_each
as_list f Json.null = ok []
as_list f (Json.array js) = decode_each f js
as_list f _ = err bad_json

unfoldable pub as_slug : Json → Result String
unfolding as_object as_text
as_slug j = do o ← as_object j; as_text (get "slug" o)

-- A pointer to a struct with a slug.
unfoldable pub as_tenant_ref : Json → Result (Option String)
unfolding as_slug
as_tenant_ref Json.null = ok none
as_tenant_ref j = do slug ← as_slug j; ok (some slug)

unfoldable pub status_of : String → DeviceStatus
status_of s =
    if str_eq s "active"
    then DeviceStatus.active
    else if str_eq s "staged"
    then DeviceStatus.staged
    else if str_eq s "offline"
    then DeviceStatus.offline
    else if str_eq s "decommissioning"
    then DeviceStatus.decommissioning
    else DeviceStatus.other s

unfoldable pub as_tenant : Json → Result Tenant
unfolding as_object as_id as_text as_int
as_tenant j = do
  o ← as_object j
  id ← as_id (get "id" o)
  name ← as_text (get "name" o)
  slug ← as_text (get "slug" o)
  custom ← as_object (get "custom_fields" o)
  clusters ← as_int (get "k8s_max_clusters" custom)
  nodes ← as_int (get "k8s_max_nodes" custom)
  ok (record {
    id = id;
    name = name;
    slug = slug;
    k8s_max_clusters = clusters;
    k8s_max_nodes = nodes;
  })

unfoldable pub as_device : Json → Result Device
as_device j = do
  o ← as_object j
  id ← as_id (get "id" o)
  name ← as_text (get "name" o)
  status ← as_object (get "status" o)
  value ← as_text (get "value" status)
  site ← as_slug (get "site" o)
  kind ← as_object (get "device_type" o)
  model ← as_text (get "model" kind)
  tenant ← as_tenant_ref (get "tenant" o)
  tags ← as_list as_slug (get "tags" o)
  ok (record {
    id = id;
    name = name;
    status = status_of value;
    site_slug = site;
    model = model;
    tenant = tenant;
    tags = tags;
  })

unfoldable pub as_item : Json → Result InventoryItem
unfolding as_object as_id as_text
as_item j = do
  o ← as_object j
  id ← as_id (get "id" o)
  name ← as_text (get "name" o)
  ok (record { id = id; name = name })

unfoldable pub as_address : Json → Result IpAddress
unfolding as_object as_id as_text
as_address j = do
  o ← as_object j
  id ← as_id (get "id" o)
  address ← as_text (get "address" o)
  dns ← as_text (get "dns_name" o)
  ok (record { id = id; address = address; dns_name = dns })

-- The struct of a prefix, of which only the ID is read.
unfoldable pub as_prefix : Json → Result ℕ
unfolding as_object as_id
as_prefix j = do o ← as_object j; as_id (get "id" o)

-- A body that holds no JSON is an error.
unfoldable pub decode : {A : Type 0} → (Json → Result A) → Option Json → Result A
decode f none = err bad_json
decode f (some j) = f j

-- struct { Results []T `json:"results"` }
unfoldable pub as_results : {A : Type 0} → (Json → Result A) → Json → Result (List A)
unfolding as_object as_list
as_results f j = do o ← as_object j; as_list f (get "results" o)
