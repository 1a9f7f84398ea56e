-- ===== src/Startup/Operation.antt =====
-- main.go, with internal/config and internal/controller/auditevent_controller.go: what holds of the
-- operator from its start on.
use mathlib.Core.Path.{subst}
use smeltry_operator.Base.{
  ℕ, ◌≡◌, refl, ap, ◌∙◌, ◌⊎◌, inl, inr, ℤ, ◌+ℤ◌, String, Option, none, some, List, eq_iff,
  Option-cases, arith,
}
use smeltry_operator.Api.{AuditEvent, AuditEventSpec}
use smeltry_operator.Effect.{Flow, next, returned, body}
use smeltry_operator.Effect.Emits.{Ends}
use smeltry_operator.Controller.Audit.{audit_event}
use smeltry_operator.Controller.Purge.{AuditEventPurgeReconciler, expiry, ttl_of}
use smeltry_operator.Http.Client.{Client}
use smeltry_operator.Config.Holder.{NetboxHolder, get}
use smeltry_operator.Config.Watcher.Passes.{Passes, Complete, Passes-Complete}
use smeltry_operator.Startup.{Platform, Flags, Operator, prepare, main}
use smeltry_operator.Startup.Safety.{IsSafe, IsExit, prepare-IsSafe}

Flow-cases : {R A : Type 0} (o : Flow R A) → ((a : A) × (o ≡ next a)) ⊎ ((r : R) × (o ≡ returned r))
Flow-cases (next a) = inl (a, refl)
Flow-cases (returned r) = inr (r, refl)

module _ {W : Type 0} (p : Platform W) (flags : Flags) where
  prepared-IsSafe : (w : W) {op : Operator W} → (prepare p flags w).0 ≡ next op → IsSafe p flags op
  prepared-IsSafe w e =
      subst (Ends (IsExit p flags) (IsSafe p flags)) e (prepare-IsSafe p flags w).1

  exited_1 : (w : W) {code : ℕ} → (prepare p flags w).0 ≡ returned code → code ≡ 1
  exited_1 w e = subst (Ends (IsExit p flags) (IsSafe p flags)) e (prepare-IsSafe p flags w).1

  -- If the start arrives at the manager, the holder has a client with an address and a token from
  -- then on, after any passes of the watcher.
  pub started-Complete :
      (w : W) {op : Operator W} {found : List (Option (String × String))}
      {h : NetboxHolder (Client W)}
      → (prepare p flags w).0 ≡ next op
      → Passes op.watcher op.holder found h
      → Complete (get h)
  started-Complete w {op} e passes =
      Passes-Complete op.watcher passes ((prepared-IsSafe w e).complete)

  ttl_of-default :
      (r : AuditEventPurgeReconciler W) (ev : AuditEvent) {ttl : String}
      → ev.spec.ttl ≡ ttl
      → r.client.parse_duration ttl ≡ some r.default_ttl
      → ttl_of r ev ≡ r.default_ttl
  unfolding ttl_of
  ttl_of-default r ev e h = rw (e, h) (ground arith)

  -- If the start arrives at the manager, an event with the spec that the ClusterClaim controller
  -- emits, given none of its own, expires for the purge at its creation and the duration of the
  -- flag.
  pub started-expiry :
      (w : W) {op : Operator W} (namespace : String) (spec : AuditEventSpec) (now : ℤ)
      (ev : AuditEvent)
      → (prepare p flags w).0 ≡ next op
      → spec.ttl ≡ ""
      → ev.spec ≡ (audit_event namespace op.cluster.default_audit_ttl spec now).spec
      → expiry op.purge ev ≡ ev.meta.creation_timestamp +ℤ op.purge.default_ttl
  unfolding expiry audit_event
  started-expiry w {op} namespace spec now ev e own emitted =
      let safe = prepared-IsSafe w e in
      let ttl : ev.spec.ttl ≡ flags.audit_ttl =
        ap (λ s. s.ttl) emitted ∙ (ground (arith, eq_iff spec.ttl "") ∙ safe.ttl_given.0) in
      ap (λ t. ev.meta.creation_timestamp +ℤ t) (ttl_of-default op.purge ev ttl safe.ttl_parsed)

  -- main exits with 1, or it returns 0 and has run the manager with safe reconcilers to an end
  -- without an error.
  pub main_lem :
      (w : W)
      → ((op : Operator W) × (w' : W) × IsSafe p flags op
          × ((p.start op w').0 ≡ none)
          × ((main p flags w).0 ≡ 0))
        ⊎ ((main p flags w).0 ≡ 1)
  unfolding main body
  main_lem w = elim (Flow-cases (prepare p flags w).0) [
    | inr (code, e) ↦ inr (ground (arith, exited_1 w e))
    | inl (op, e) ↦ elim (Option-cases (p.start op (prepare p flags w).2).0) [
      | inl started ↦ inl (op, (prepare p flags w).2, prepared-IsSafe w e, started, ground arith)
      | inr (failure, stopped) ↦ inr (ground arith)
    ]
  ]
