-- ===== src/Controller/Audit.antt =====
-- internal/controller/auditevent_controller.go: emitting an AuditEvent.
use smeltry_operator.Base.{Option, String, ◌<>◌, ℤ, str_eq, to_lower, if◌then◌else◌}
use smeltry_operator.Api.{AuditEventSpec, AuditEvent, object_meta}
use smeltry_operator.Kube.{Kube, Object}
use smeltry_operator.Error.{Error}
use smeltry_operator.Effect.Emits.{Emits, Any}
use smeltry_operator.Effect.{Event, Go, ◌>>=◌, ◌>>◌, pure, call, body, time_now, create}

-- The object that emitAuditEvent creates, from the time that metav1.Now gave.
unfoldable pub audit_event : String → String → AuditEventSpec → ℤ → AuditEvent
unfolding to_lower
audit_event namespace default_ttl spec now = record {
  meta = record (object_meta "" namespace) {
    generate_name = to_lower spec.resource_name <> ("-" <> (to_lower spec.type <> "-"));
  };
  spec = record spec {
    timestamp = now;
    ttl = if str_eq spec.ttl "" then default_ttl else spec.ttl;
    actor = if str_eq spec.actor "" then "smeltry-operator" else spec.actor;
  };
}

-- An error of the creation is logged and dropped.
unfoldable pub emit_audit_event :
    {W : Type 0} → Kube W → String → String → AuditEventSpec → Go W (Unit {0})
unfolding audit_event
emit_audit_event k namespace default_ttl spec = body do
  now ← call (time_now k)
  call (create k (Object.audit_event (audit_event namespace default_ttl spec now)))
  pure tt

-- It makes one call, the creation.
pub emit_audit_event-Emits :
    {W : Type 0} (P : Event → Type 0) (k : Kube W) (namespace default_ttl : String)
    (spec : AuditEventSpec)
    → ((ev : AuditEvent) (e : Option Error) → P (Event.create (Object.audit_event ev) e))
    → Emits P Any (emit_audit_event k namespace default_ttl spec)
unfolding emit_audit_event body
emit_audit_event-Emits P k namespace default_ttl spec h = record { at = λ w. ((h _ _, tt), tt) }
