-- ===== src/Controller/Purge.antt =====
-- internal/controller/auditevent_controller.go: the purge of expired AuditEvents.
pub mod Expiry
use smeltry_operator.Base.{
  String, Bool, true, false, Option, none, some, ℤ, pos, ltb_ℤ, ◌+ℤ◌, ◌-ℤ◌, str_eq, if◌then◌else◌,
}
use smeltry_operator.Error.{Error, Result, ok, err}
use smeltry_operator.Api.{Key, AuditEvent}
use smeltry_operator.Kube.{Kube, Object}
use smeltry_operator.Effect.{
  Go, Block, ◌>>=◌, ◌>>◌, pure, return, call, body, time_now, get_audit_event, delete,
}
use smeltry_operator.Controller.Reply.{Reply, reply, failure, reply_after, second}

pub record AuditEventPurgeReconciler (W : Type 0) : Type 0 where
  pub client : Kube W
  pub default_ttl : ℤ

-- A parsed duration, or the default.
abbrev parsed_or : ℤ → Option ℤ → ℤ
parsed_or default none = default
parsed_or default (some ttl) = ttl

module _ {W : Type 0} (r : AuditEventPurgeReconciler W) where
  unfoldable pub ttl_of : AuditEvent → ℤ
  ttl_of ev =
      if str_eq ev.spec.ttl ""
      then r.default_ttl
      else parsed_or r.default_ttl (r.client.parse_duration ev.spec.ttl)

  unfoldable pub expiry : AuditEvent → ℤ
  unfolding ttl_of ◌+ℤ◌
  expiry ev = ev.meta.creation_timestamp +ℤ ttl_of ev

  -- The error of the deletion, unless it is that the event is gone.
  unless_gone : Option Error → Block W Reply Reply
  unless_gone none = pure (reply none)
  unless_gone (some e) = if r.client.is_not_found e then pure (reply none) else pure (failure e)

  wait_until : ℤ → Block W Reply Reply
  unfolding ◌+ℤ◌ ◌-ℤ◌
  wait_until t = do
    now ← call (time_now r.client)
    pure (reply_after ((t -ℤ now) +ℤ pos second) none)

  purge : AuditEvent → Block W Reply Reply
  unfolding unless_gone
  purge ev = call (delete r.client (Object.audit_event ev)) >>= unless_gone

  read_event : Result AuditEvent → Block W Reply AuditEvent
  read_event (ok ev) = pure ev
  read_event (err e) = return (reply (r.client.ignore_not_found e))

  unfoldable pub reconcile_event : Key → Go W Reply
  unfolding read_event wait_until purge expiry
  reconcile_event key = body do
    ev ← call (get_audit_event r.client key) >>= read_event
    now ← call (time_now r.client)
    if ltb_ℤ now (expiry ev) then wait_until (expiry ev) else purge ev
