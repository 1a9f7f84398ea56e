-- ===== src/Controller/Purge/Expiry.antt =====
-- What the purge deletes.
use smeltry_operator.Base.{
  ◌<ℤ◌, ◌≤ℤ◌, ◌⊎◌, inl, inr, Bool-cases, ◌+ℤ◌, ◌-ℤ◌, +ℤ_parts, -ℤ_parts, Option, ◌≡◌, refl, ℤ,
  ltb_ℤ, false, true, arith, [], ◌∷◌, none, pos,
}
use smeltry_operator.Error.{Error, ok}
use smeltry_operator.Api.{Key, AuditEvent}
use smeltry_operator.Kube.{Object}
use smeltry_operator.Effect.{Event, body}
use smeltry_operator.Controller.Reply.{second}
use smeltry_operator.Controller.Purge.{AuditEventPurgeReconciler, expiry, reconcile_event}

-- The instant after the wait that is asked for is one second past the given one.
past : (now t : ℤ) → t <ℤ (now +ℤ ((t -ℤ now) +ℤ pos second))
past now t = ground (
  arith,
  +ℤ_parts now ((t -ℤ now) +ℤ pos second),
  +ℤ_parts (t -ℤ now) (pos second),
  -ℤ_parts t now,
)

module _ {W : Type 0} (r : AuditEventPurgeReconciler W) where
  -- The time that the clock gives a purge that starts in the world `w` and finds its event.
  abbrev pub clock : Key → W → ℤ
  clock key w = (r.client.now (r.client.get_audit_event key w).1).0

  -- The second time that the clock gives such a purge.
  abbrev pub clock_again : Key → W → ℤ
  clock_again key w = (r.client.now (r.client.now (r.client.get_audit_event key w).1).1).0

  -- What a purge of `ev` does before the expiry: it only reads the event, and asks to come back at a
  -- time past the expiry.
  abbrev pub Waits : Key → W → AuditEvent → Type 0
  Waits key w ev =
      let (answer, events, _) = reconcile_event r key w in
      (events ≡ Event.get "AuditEvent" key ∷ [])
      × (expiry r ev <ℤ (clock_again key w +ℤ answer.result.requeue_after))
      × (answer.error ≡ none)

  -- What it does from then on: it deletes the event that it read, and nothing else.
  abbrev pub Purges : Key → W → AuditEvent → Type 0
  Purges key w ev =
      (error : Option Error) × ((reconcile_event r key w).1
        ≡ Event.get "AuditEvent" key ∷ Event.delete (Object.audit_event ev) error ∷ [])

  waits :
      (key : Key) (w : W) (ev : AuditEvent)
      → (r.client.get_audit_event key w).0 ≡ ok ev
      → ltb_ℤ (clock key w) (expiry r ev) ≡ true
      → Waits key w ev
  unfolding body reconcile_event
  waits key w ev e early = rw (e, early) (refl, past (clock_again key w) (expiry r ev), refl)

  purges :
      (key : Key) (w : W) (ev : AuditEvent)
      → (r.client.get_audit_event key w).0 ≡ ok ev
      → ltb_ℤ (clock key w) (expiry r ev) ≡ false
      → Purges key w ev
  unfolding body reconcile_event
  purges key w ev e late = (
    (r.client.delete (Object.audit_event ev) (r.client.now (r.client.get_audit_event key w).1).1).0,
    ground (arith, e, late),
  )

  -- Before its expiry (its creation and its TTL, or the default TTL where it has none that parses)
  -- the purge only reads the event, returns no error, and asks to come back at a time past the
  -- expiry; from its expiry on, the purge deletes the event that it read and does nothing else.
  pub reconcile_event_lem :
      (key : Key) (w : W) {ev : AuditEvent}
      → (r.client.get_audit_event key w).0 ≡ ok ev
      → ((clock key w <ℤ expiry r ev) × Waits key w ev)
        ⊎ ((expiry r ev ≤ℤ clock key w) × Purges key w ev)
  reconcile_event_lem key w {ev} e = elim (Bool-cases (ltb_ℤ (clock key w) (expiry r ev))) [
    | inl early ↦ inl (ground arith, waits key w ev e early)
    | inr late ↦ inr (ground arith, purges key w ev e late)
  ]
