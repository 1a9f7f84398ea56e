-- ===== src/Http/Client.antt =====
-- internal/netbox/client.go: Client. `send` is http.NewRequestWithContext and (*http.Client).Do.
pub mod Requests
pub mod Queries
pub mod Tenancy
use smeltry_operator.Base.{
  ℕ, String, ◌<>◌, Bool, true, false, Option, none, some, List, [], ◌∷◌, ◌++◌, ltb, ◌==◌, ◌||◌, not,
  sprint, quote, str_eq, if◌then◌else◌,
}
use smeltry_operator.Error.{Error, Result, ok, err}
use smeltry_operator.Netbox.{
  Tenant, Device, DeviceStatus, device_status_text, InventoryItem, IpAddress, ClientIface,
}
use smeltry_operator.Effect.{
  Event, Go, Block, ◌>>=◌, ◌>>◌, pure, return, call, value_or, return_if, body, logged,
}
use smeltry_operator.Http.Bytes.{Bytes, utf8}
use smeltry_operator.Http.Query.{Values, set_value, encode}
use smeltry_operator.Http.Json
use smeltry_operator.Http.Json.{Json, slug_object, slug_objects}
use smeltry_operator.Http.Decode.{
  decode, as_results, as_tenant, as_device, as_item, as_address, as_prefix,
}
use smeltry_operator.Http.Types.{Request, Response}

pub record Client (W : Type 0) : Type 0 where
  pub base_url : String
  pub token : String
  pub send : Request → W → Result Response × W

-- NewClient
abbrev pub new_client :
    {W : Type 0} → (Request → W → Result Response × W) → String → String → Client W
new_client send base_url token = record { base_url = base_url; token = token; send = send }

-- The request that `do` builds.
abbrev pub request : {W : Type 0} → Client W → String → Bytes → Option Json → Request
request c method path body = record {
  method = method;
  url = utf8 c.base_url ++ path;
  headers = ("Authorization", "Token " <> c.token) ∷ ("Content-Type", "application/json") ∷ [];
  body = body;
}

unfoldable pub available_values : String → String → Values
unfolding set_value
available_values site_slug model = set_value "limit" "1000" (
    set_value "tenant_id__isnull" "true" (
      set_value "status" "active"
        (set_value "device_type__model" model (set_value "site" site_slug []))))

unfoldable pub site_values : String → Values
unfolding set_value
site_values site_slug =
    set_value "limit" "1000" (set_value "status" "active" (set_value "site" site_slug []))

unfoldable pub osd_values : ℕ → Values
unfolding set_value
osd_values device_id =
    set_value "limit" "100"
      (set_value "tag" "ceph-osd" (set_value "device_id" (sprint device_id) []))

-- The payload of SetDeviceStatus.
unfoldable pub device_patch : DeviceStatus → String → Json
unfolding device_status_text
device_patch status tenant_slug =
    let tenant =
      if str_eq tenant_slug ""
      then Json.end
      else Json.member "tenant" (slug_object tenant_slug) Json.end in
    Json.object (Json.member "status" (Json.text (device_status_text status)) tenant)

-- The payload of AllocateIP.
unfoldable pub address_payload : String → List String → Json
unfolding slug_objects
address_payload dns_name tags = Json.object (
    Json.member "dns_name" (Json.text dns_name)
      (Json.member "tags" (Json.array (slug_objects tags)) Json.end))

-- resp.StatusCode < 200 || resp.StatusCode >= 300
abbrev pub is_refused : Response → Bool
is_refused resp = ltb resp.status_code 200 || not (ltb resp.status_code 300)

unfoldable pub device_path : ℕ → Bytes
device_path id = utf8 ("/api/dcim/devices/" <> (sprint id <> "/"))

unfoldable pub available_ips_path : ℕ → Bytes
available_ips_path id = utf8 ("/api/ipam/prefixes/" <> (sprint id <> "/available-ips/"))

unfoldable pub address_path : ℕ → Bytes
address_path id = utf8 ("/api/ipam/ip-addresses/" <> (sprint id <> "/"))

unfoldable pub prefix_path : String → Bytes
unfolding set_value
prefix_path prefix = utf8 "/api/ipam/prefixes/?" ++ encode (set_value "prefix" prefix [])

-- The first of the prefixes that were found.
unfoldable pub first_prefix : String → List ℕ → Result ℕ
first_prefix prefix [] = err (Error.message ("netbox prefix " <> (quote prefix <> " not found")))
first_prefix prefix (id ∷ _) = ok id

module _ {W : Type 0} (c : Client W) where
  abbrev pub do_request : String → Bytes → Option Json → Go W (Result Response)
  do_request method path body =
      let req = request c method path body in logged (λ _. Event.http req) (c.send req)

  -- A GET, and its body decoded.
  unfoldable pub get_decoded : {A : Type 0} → Bytes → (Json → Result A) → Go W (Result A)
  unfolding decode
  get_decoded path f =
      body do resp ← call (do_request "GET" path none) >>= value_or err; pure (decode f resp.body)

  unfoldable pub list_tenants : Go W (Result (List Tenant))
  unfolding get_decoded as_results as_tenant
  list_tenants = get_decoded (utf8 "/api/tenancy/tenants/?limit=1000") (as_results as_tenant)

  unfoldable pub list_available_devices : String → String → Go W (Result (List Device))
  unfolding get_decoded as_results as_device
  list_available_devices site_slug model =
      get_decoded (utf8 "/api/dcim/devices/?" ++ encode (available_values site_slug model))
        (as_results as_device)

  unfoldable pub list_devices_by_site : String → Go W (Result (List Device))
  unfolding get_decoded as_results as_device
  list_devices_by_site site_slug =
      get_decoded (utf8 "/api/dcim/devices/?" ++ encode (site_values site_slug))
        (as_results as_device)

  unfoldable pub set_device_status : ℕ → DeviceStatus → String → Go W (Option Error)
  unfolding device_patch device_path
  set_device_status id status tenant_slug = body do
    resp ←
        call (do_request "PATCH" (device_path id) (some (device_patch status tenant_slug)))
        >>= value_or some
    pure (
        if is_refused resp
        then some (
            Error.message
              ("netbox PATCH device " <> (sprint id <> (": status " <> sprint resp.status_code))))
        else none)

  unfoldable pub list_osd_disks : ℕ → Go W (Result (List InventoryItem))
  unfolding get_decoded as_results as_item
  list_osd_disks id =
      get_decoded (utf8 "/api/dcim/inventory-items/?" ++ encode (osd_values id))
        (as_results as_item)

  unfoldable pub resolve_prefix_id : String → Go W (Result ℕ)
  unfolding as_results as_prefix decode first_prefix
  resolve_prefix_id prefix = body do
    resp ← call (do_request "GET" (prefix_path prefix) none) >>= value_or err
    found ← value_or err (decode (as_results as_prefix) resp.body)
    pure (first_prefix prefix found)

  unfoldable pub allocate_ip : String → String → List String → Go W (Result IpAddress)
  unfolding address_payload available_ips_path as_address decode
  allocate_ip prefix dns_name tags = body do
    id ← call (resolve_prefix_id prefix) >>= value_or err
    resp ←
        call (do_request "POST" (available_ips_path id) (some (address_payload dns_name tags)))
        >>= value_or err
    return_if (is_refused resp) (
        err (
          Error.message
            ("netbox allocate IP in " <> (prefix <> (": status " <> sprint resp.status_code)))))
    pure (decode as_address resp.body)

  unfoldable pub release_ip : ℕ → Go W (Option Error)
  unfolding address_path
  release_ip id = body do
    resp ← call (do_request "DELETE" (address_path id) none) >>= value_or some
    pure (
        if resp.status_code == 204
        then none
        else some (
            Error.message
              ("netbox DELETE ip " <> (sprint id <> (": status " <> sprint resp.status_code)))))

-- A function whose calls nobody counts.
abbrev untraced : {W A : Type 0} → Go W A → W → A × W
untraced m w = let (a, _, w') = m w in (a, w')

-- The client as the interface.
unfoldable pub as_iface : {W : Type 0} → Client W → ClientIface W
unfolding list_tenants list_available_devices list_devices_by_site set_device_status list_osd_disks
    allocate_ip release_ip
as_iface c = record {
  list_tenants = untraced (list_tenants c);
  list_available_devices = λ site model. untraced (list_available_devices c site model);
  list_devices_by_site = λ site. untraced (list_devices_by_site c site);
  set_device_status = λ id status tenant. untraced (set_device_status c id status tenant);
  list_osd_disks = λ id. untraced (list_osd_disks c id);
  allocate_ip = λ prefix dns tags. untraced (allocate_ip c prefix dns tags);
  release_ip = λ id. untraced (release_ip c id);
}
