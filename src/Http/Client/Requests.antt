-- ===== src/Http/Client/Requests.antt =====
-- internal/netbox/client.go: which requests each method of the client sends, and how it reads the
-- answer's status.
use smeltry_operator.Base.{
  ℕ, ◌≤◌, ◌<◌, ◌≡◌, refl, ◌⊎◌, inl, inr, ◌↔◌, String, none, some, List, [], ◌∷◌, arith,
}
use smeltry_operator.Error.{Error, Result, ok, err}
use smeltry_operator.Netbox.{DeviceStatus, IpAddress}
use smeltry_operator.Effect.{Event, body}
use smeltry_operator.Http.Decode.{decode, as_results, as_prefix}
use smeltry_operator.Http.Types.{Request, Response}
use smeltry_operator.Http.Client.{
  Client, request, first_prefix, resolve_prefix_id, allocate_ip, set_device_status, release_ip,
  device_patch, address_payload, device_path, available_ips_path, address_path, prefix_path,
}

pub Result-cases :
    {A : Type 0} (r : Result A) → ((a : A) × (r ≡ ok a)) ⊎ ((e : Error) × (r ≡ err e))
Result-cases (ok a) = inl (a, refl)
Result-cases (err e) = inr (e, refl)

-- The request was answered, by a status from `low` up to `high`.
abbrev pub Answered : {W : Type 0} → Client W → Request → W → ℕ → ℕ → Type 0
Answered c req w low high =
    (resp : Response) × ((c.send req w).0 ≡ ok resp)
    × (low ≤ resp.status_code)
    × (resp.status_code < high)

module _ {W : Type 0} (c : Client W) (w : W) where
  abbrev pub patch_request : ℕ → DeviceStatus → String → Request
  patch_request id status slug =
      request c "PATCH" (device_path id) (some (device_patch status slug))

  abbrev pub lookup_request : String → Request
  lookup_request prefix = request c "GET" (prefix_path prefix) none

  abbrev pub allocation_request : ℕ → String → List String → Request
  allocation_request id dns_name tags =
      request c "POST" (available_ips_path id) (some (address_payload dns_name tags))

  abbrev pub delete_request : ℕ → Request
  delete_request id = request c "DELETE" (address_path id) none

  pub set_device_status-Answered :
      (id : ℕ) (status : DeviceStatus) (slug : String)
      → ((set_device_status c id status slug w).1 ≡ Event.http (patch_request id status slug) ∷ [])
        × ((set_device_status c id status slug w).0 ≡ none
            ↔ Answered c (patch_request id status slug) w 200 300)
  unfolding set_device_status body
  set_device_status-Answered id status slug = (
    ground arith,
    (
      λ h. elim (Result-cases (c.send (patch_request id status slug) w).0) [
        | inl (resp, e) ↦ (resp, e, ground arith, ground arith)
        | inr (e, f) ↦ absurd (ground arith)
      ],
      λ (r, e, l, u). ground arith,
    ),
  )

  release_ip-Answered :
      (id : ℕ)
      → ((release_ip c id w).1 ≡ Event.http (delete_request id) ∷ [])
        × ((release_ip c id w).0 ≡ none ↔ Answered c (delete_request id) w 204 205)
  unfolding release_ip body
  release_ip-Answered id = (
    ground arith,
    (
      λ h. elim (Result-cases (c.send (delete_request id) w).0) [
        | inl (resp, e) ↦ (resp, e, ground arith, ground arith)
        | inr (e, f) ↦ absurd (ground arith)
      ],
      λ (r, e, l, u). ground arith,
    ),
  )

  -- SetDeviceStatus sends one request, the PATCH of the device with the status and the tenant, and
  -- returns no error exactly when that is answered by a status from 200 to 299; ReleaseIP sends
  -- one, the DELETE of the address, and returns no error exactly when that is answered by 204.
  pub writes-Answered :
      (id : ℕ) (status : DeviceStatus) (slug : String) (ip : ℕ)
      → (((set_device_status c id status slug w).1 ≡ Event.http (patch_request id status slug) ∷ [])
          × ((set_device_status c id status slug w).0 ≡ none
              ↔ Answered c (patch_request id status slug) w 200 300))
        × ((release_ip c ip w).1 ≡ Event.http (delete_request ip) ∷ [])
        × ((release_ip c ip w).0 ≡ none ↔ Answered c (delete_request ip) w 204 205)
  writes-Answered id status slug ip = (
    set_device_status-Answered id status slug,
    (release_ip-Answered ip).0,
    (release_ip-Answered ip).1,
  )

  resolve_prefix_id-sends :
      (prefix : String)
      → ((resolve_prefix_id c prefix w).1 ≡ Event.http (lookup_request prefix) ∷ [])
        × ((resolve_prefix_id c prefix w).2 ≡ (c.send (lookup_request prefix) w).1)
  unfolding resolve_prefix_id body
  resolve_prefix_id-sends prefix = ground arith

  -- The lookup of a prefix was answered by JSON whose results begin with a prefix of this ID.
  abbrev pub Found : String → ℕ → Type 0
  Found prefix id =
      (resp : Response) × (others : List ℕ) × ((c.send (lookup_request prefix) w).0 ≡ ok resp)
      × (decode (as_results as_prefix) resp.body ≡ ok (id ∷ others))

  first :
      (prefix : String) (id : ℕ) (resp : Response) (found : List ℕ)
      → (c.send (lookup_request prefix) w).0 ≡ ok resp
      → decode (as_results as_prefix) resp.body ≡ ok found
      → (resolve_prefix_id c prefix w).0 ≡ ok id
      → Found prefix id
  unfolding resolve_prefix_id first_prefix body
  first prefix id resp [] f g h = absurd (ground (arith, f, g, h))
  first prefix id resp (j ∷ js) f g h = (resp, js, f, ground (arith, f, g, h))

  resolve_prefix_id-Found :
      (prefix : String) (id : ℕ) → (resolve_prefix_id c prefix w).0 ≡ ok id → Found prefix id
  unfolding resolve_prefix_id first_prefix body
  resolve_prefix_id-Found prefix id h = elim (Result-cases (c.send (lookup_request prefix) w).0) [
    | inr (e, f) ↦ absurd (ground (arith, h, f))
    | inl (resp, f) ↦ elim (Result-cases (decode (as_results as_prefix) resp.body)) [
      | inr (e, g) ↦ absurd (ground (arith, h, f, g))
      | inl (found, g) ↦ first prefix id resp found f g h
    ]
  ]

  -- AllocateIP looks the prefix up first. Either it returns an error and sends nothing more, or
  -- the lookup has found prefixes, and it sends one more request, the POST to the first of them,
  -- and returns an address only if this is answered by a status from 200 to 299.
  pub allocate_ip-Calls :
      (prefix dns_name : String) (tags : List String)
      → (((e : Error) × ((allocate_ip c prefix dns_name tags w).0 ≡ err e)
            × ((allocate_ip c prefix dns_name tags w).1 ≡ Event.http (lookup_request prefix) ∷ []))
          ⊎ ((id : ℕ) × Found prefix id
              × ((allocate_ip c prefix dns_name tags w).1
                  ≡ Event.http (lookup_request prefix)
                    ∷ Event.http (allocation_request id dns_name tags)
                    ∷ [])
              × ((a : IpAddress)
                  → (allocate_ip c prefix dns_name tags w).0 ≡ ok a
                  → Answered c
                      (allocation_request id dns_name tags)
                      (c.send (lookup_request prefix) w).1
                      200
                      300)))
  unfolding allocate_ip body
  allocate_ip-Calls prefix dns_name tags =
      let (events, world) = resolve_prefix_id-sends prefix in
      elim (Result-cases (resolve_prefix_id c prefix w).0) [
        | inr (e, f) ↦ inl (e, ground arith, ground arith)
        | inl (id, f) ↦ inr (
          id,
          resolve_prefix_id-Found prefix id f,
          ground arith,
          λ a h.
              elim (Result-cases
                (c.send (allocation_request id dns_name tags)
                  (c.send (lookup_request prefix) w).1).0) [
                    | inl (resp, g) ↦ (resp, g, ground arith, ground arith)
                    | inr (e, g) ↦ absurd (ground arith)
                  ],
        )
      ]
