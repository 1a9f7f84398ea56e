-- ===== src/Controller/Server/Machine/Guard.antt =====
-- Nothing is taken for a ServerClaim that the finalizer does not protect.
use smeltry_operator.Base.{◌≡◌, true, none, All, Bool-cases, Option-cases, inl, inr, All-of, arith}
use smeltry_operator.Error.{ok}
use smeltry_operator.Api.{Key, ServerClaim}
use smeltry_operator.Netbox.{DeviceStatus}
use smeltry_operator.Effect.{Event, body}
use smeltry_operator.Controller.Audit.{emit_audit_event}
use smeltry_operator.Controller.Server.Defs.{ServerClaimReconciler, server_claim_finalizer}
use smeltry_operator.Controller.Server.Machine.{dispatch, reconcile, reconcile_delete}

module _ {W : Type 0} (r : ServerClaimReconciler W) where
  abbrev pub IsProtected : ServerClaim → Type 0
  IsProtected claim =
      (claim.meta.deletion_timestamp ≡ none)
      × (r.client.contains_finalizer claim.meta server_claim_finalizer ≡ true)

  abbrev pub AcquiresProtected : ServerClaim → Event → Type 0
  AcquiresProtected claim (Event.allocate_ip _ _ _ _) = IsProtected claim
  AcquiresProtected claim (Event.set_device_status _ DeviceStatus.staged _ _) = IsProtected claim
  AcquiresProtected claim _ = Unit

  AcquiresProtected-protected :
      (claim : ServerClaim) → IsProtected claim → (e : Event) → AcquiresProtected claim e
  AcquiresProtected-protected claim h (Event.allocate_ip _ _ _ _) = h
  AcquiresProtected-protected claim h (Event.set_device_status _ DeviceStatus.staged _ _) = h
  AcquiresProtected-protected claim h _ = tt

  dispatch-AcquiresProtected :
      (claim : ServerClaim) (w : W) → All (AcquiresProtected claim) (dispatch r claim w).1
  unfolding body dispatch reconcile_delete emit_audit_event
  dispatch-AcquiresProtected claim w = elim (Option-cases claim.meta.deletion_timestamp) [
    | inr (t, e) ↦ ground arith
    | inl e ↦ elim (Bool-cases (r.client.contains_finalizer claim.meta server_claim_finalizer)) [
      | inl present ↦
          All-of _ (AcquiresProtected-protected claim (e, present)) (dispatch r claim w).1
      | inr missing ↦ ground arith
    ]
  ]

  -- Whatever the API server and Netbox answer, a reconcile of a ServerClaim takes an address or
  -- stages a machine in Netbox only for a claim that is not being deleted and that carries the
  -- finalizer.
  pub reconcile-protects_server :
      (key : Key) (w : W) {claim : ServerClaim}
      → (r.client.get_server_claim key w).0 ≡ ok claim
      → All (AcquiresProtected claim) (reconcile r key w).1
  unfolding body reconcile
  reconcile-protects_server key w {claim} e =
      rw e (tt, dispatch-AcquiresProtected claim (r.client.get_server_claim key w).1)
