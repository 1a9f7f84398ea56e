-- ===== src/Controller/Addresses.antt =====
-- What it means that no allocated address goes unrecorded.
use smeltry_operator.Base.{
  ◌≡◌, ℕ, String, Bool, true, false, Option, none, some, ◌==◌, List, [], ◌∷◌, ◌++◌, if◌then◌else◌,
  arith,
}
use smeltry_operator.Error.{Error, Result, ok, err}
use smeltry_operator.Api.{AuditEventSpec}
use smeltry_operator.Kube.{Object, Kube}
use smeltry_operator.Controller.Audit.{emit_audit_event}
use smeltry_operator.Effect.{Event, Go, Block, ◌>>=◌, pure, call, value_or, check, return_if, body}
use smeltry_operator.Effect.Traces.{Traced, Traced-bind}

abbrev pub lists : ℕ → List ℕ → Bool
lists id [] = false
lists id (j ∷ js) = if j == id then true else lists id js

pub lists-snoc : (id : ℕ) (ids : List ℕ) → lists id (ids ++ (id ∷ [])) ≡ true
lists-snoc id [] = ground arith
lists-snoc id (j ∷ ids) = ground (arith, lists-snoc id ids)

-- A call that takes no address and no machine in Netbox.
abbrev pub TakesNothing : Event → Type 0
TakesNothing (Event.allocate_ip _ _ _ _) = ⊥
TakesNothing (Event.set_device_status _ _ _ _) = ⊥
TakesNothing _ = Unit

-- The status of a claim has the ID of an address.
abbrev pub HasAddress : ℕ → Object → Type 0
HasAddress id (Object.cluster_claim claim) = lists id claim.status.netbox_ipam_ids ≡ true
HasAddress id (Object.server_claim claim) = claim.status.netbox_ipam_id ≡ id
HasAddress id _ = ⊥

-- The next call writes a status with the ID.
abbrev pub WrittenNext : ℕ → List Event → Type 0
WrittenNext id (Event.update_status o _ ∷ _) = HasAddress id o
WrittenNext id _ = ⊥

-- Behind every successful AllocateIP, the next call writes a status with the ID of its address.
abbrev pub AllRecorded : List Event → Type 0
AllRecorded [] = Unit
AllRecorded (Event.allocate_ip _ _ _ (ok ip) ∷ es) = WrittenNext ip.id es × AllRecorded es
AllRecorded (_ ∷ es) = AllRecorded es

WrittenNext-append : (id : ℕ) (xs ys : List Event) → WrittenNext id xs → WrittenNext id (xs ++ ys)
WrittenNext-append id [] ys h = absurd h
WrittenNext-append id (Event.update_status o e ∷ xs) ys h = h
WrittenNext-append id (_ ∷ xs) ys h = absurd h

pub AllRecorded-append :
    (xs ys : List Event) → AllRecorded xs → AllRecorded ys → AllRecorded (xs ++ ys)
AllRecorded-append [] ys h k = k
AllRecorded-append (Event.allocate_ip _ _ _ (ok ip) ∷ xs) ys h k =
    (WrittenNext-append ip.id xs ys h.0, AllRecorded-append xs ys h.1 k)
AllRecorded-append (Event.allocate_ip _ _ _ (err _) ∷ xs) ys h k = AllRecorded-append xs ys h k
AllRecorded-append (_ ∷ xs) ys h k = AllRecorded-append xs ys h k

pub AllRecorded-bind :
    {W R A B : Type 0} (m : Block W R A) (f : A → Block W R B)
    → Traced AllRecorded m
    → ((a : A) → Traced AllRecorded (f a))
    → Traced AllRecorded (m >>= f)
AllRecorded-bind = Traced-bind AllRecorded AllRecorded-append

module _ {W R : Type 0} where
  pub return_if-Traced : (b : Bool) (reply : R) → Traced AllRecorded (return_if {W = W} b reply)
  unfolding body
  return_if-Traced true reply = record { trace = λ w. tt }
  return_if-Traced false reply = record { trace = λ w. tt }

  pub value_or-Traced :
      {A : Type 0} (f : Error → R) (v : Result A) → Traced AllRecorded (value_or {W = W} f v)
  unfolding body
  value_or-Traced f (ok a) = record { trace = λ w. tt }
  value_or-Traced f (err e) = record { trace = λ w. tt }

  pub check-Traced : (f : Error → R) (e : Option Error) → Traced AllRecorded (check {W = W} f e)
  unfolding body
  check-Traced f none = record { trace = λ w. tt }
  check-Traced f (some e) = record { trace = λ w. tt }

  pub call-Traced :
      {A : Type 0} (m : Go W A)
      → ((w : W) → AllRecorded (m w).1)
      → Traced AllRecorded (call {R = R} m)
  unfolding body
  call-Traced m h = record { trace = h }

  pub pure-Traced : {A : Type 0} (a : A) → Traced AllRecorded (pure {W = W} {R = R} a)
  unfolding body
  pure-Traced a = record { trace = λ w. tt }

  -- A call that allocates nothing, with its value.
  pub valued-Traced :
      {A : Type 0} (f : Error → R) (m : Go W (Result A))
      → ((w : W) → AllRecorded (m w).1)
      → Traced AllRecorded (call m >>= value_or f)
  valued-Traced f m h = AllRecorded-bind _ _ (call-Traced m h) (value_or-Traced f)

  -- A call that allocates nothing, with its error.
  pub checked-Traced :
      (f : Error → R) (m : Go W (Option Error))
      → ((w : W) → AllRecorded (m w).1)
      → Traced AllRecorded (call m >>= check f)
  checked-Traced f m h = AllRecorded-bind _ _ (call-Traced m h) (check-Traced f)

  pub if-Traced :
      {A : Type 0} (b : Bool) (m n : Block W R A)
      → Traced AllRecorded m
      → Traced AllRecorded n
      → Traced AllRecorded (if b then m else n)
  if-Traced true m n hm hn = hm
  if-Traced false m n hm hn = hn

pub emit_audit_event-AllRecorded :
    {W : Type 0} (k : Kube W) (namespace default_ttl : String) (spec : AuditEventSpec) (w : W)
    → AllRecorded (emit_audit_event k namespace default_ttl spec w).1
unfolding emit_audit_event body
emit_audit_event-AllRecorded k namespace default_ttl spec w = tt
