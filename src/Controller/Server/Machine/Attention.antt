-- ===== src/Controller/Server/Machine/Attention.antt =====
-- Which ServerClaims are looked at again.
use smeltry_operator.Base.{
  ◌≡◌, Bool, true, false, Option, none, some, ◌||◌, ℤ, arith, if◌then◌else◌,
}
use smeltry_operator.Error.{ok}
use smeltry_operator.Api.{Key, ServerClaim, ServerClaimPhase}
use smeltry_operator.Effect.{body}
use smeltry_operator.Controller.Attention.{Back, ComesBack, is_set}
use smeltry_operator.Controller.Audit.{emit_audit_event}
use smeltry_operator.Controller.Server.Defs.{ServerClaimReconciler, server_claim_finalizer}
use smeltry_operator.Controller.Server.Steps.Attention.{
  watched_server, step_validate-ServerBack, step_provision-ServerBack,
}
use smeltry_operator.Controller.Server.Machine.{
  step, protect_first, dispatch, reconcile, reconcile_delete,
}

-- A phase in which there is something to do.
abbrev pub is_unfinished : ServerClaimPhase → Bool
is_unfinished ServerClaimPhase.unset = true
is_unfinished ServerClaimPhase.pending = true
is_unfinished ServerClaimPhase.provisioning = true
is_unfinished _ = false

module _ {W : Type 0} (r : ServerClaimReconciler W) where
  step-ServerBack :
      (p : ServerClaimPhase) (claim : ServerClaim)
      → is_unfinished p ≡ true
      → Back watched_server (step r p claim)
  unfolding step
  step-ServerBack ServerClaimPhase.unset claim h = step_validate-ServerBack r claim
  step-ServerBack ServerClaimPhase.pending claim h = step_validate-ServerBack r claim
  step-ServerBack ServerClaimPhase.provisioning claim h = step_provision-ServerBack r claim
  step-ServerBack ServerClaimPhase.ready claim h = cc
  step-ServerBack ServerClaimPhase.failed claim h = cc
  step-ServerBack (ServerClaimPhase.other _) claim h = cc

  protect_first-ServerBack : (claim : ServerClaim) → Back watched_server (protect_first r claim)
  unfolding body protect_first
  protect_first-ServerBack claim w = ground arith

  reconcile_delete-ServerBack :
      (claim : ServerClaim) → Back watched_server (reconcile_delete r claim)
  unfolding body reconcile_delete emit_audit_event
  reconcile_delete-ServerBack claim w = ground arith

  protected-ServerBack :
      (claim : ServerClaim) (b : Bool)
      → is_unfinished claim.status.phase ≡ true
      → Back watched_server (if b then step r claim.status.phase claim else protect_first r claim)
  protected-ServerBack claim true h = step-ServerBack claim.status.phase claim h
  protected-ServerBack claim false h = protect_first-ServerBack claim

  branch-ServerBack :
      (claim : ServerClaim) (at : Option ℤ)
      → (is_set at || is_unfinished claim.status.phase) ≡ true
      → Back watched_server (elim at [
        | some _ ↦ reconcile_delete r claim
        | none ↦
            if r.client.contains_finalizer claim.meta server_claim_finalizer
            then step r claim.status.phase claim
            else protect_first r claim
      ])
  branch-ServerBack claim (some _) h = reconcile_delete-ServerBack claim
  branch-ServerBack claim none h =
      protected-ServerBack claim (r.client.contains_finalizer claim.meta server_claim_finalizer) h

  dispatch-ServerBack :
      (claim : ServerClaim)
      → (is_set claim.meta.deletion_timestamp || is_unfinished claim.status.phase) ≡ true
      → Back watched_server (dispatch r claim)
  unfolding dispatch
  dispatch-ServerBack claim h = branch-ServerBack claim claim.meta.deletion_timestamp h

  -- A reconcile that finds its ServerClaim, where the claim is being deleted or its phase is empty,
  -- Pending or Provisioning, returns an error, or asks to be called again, or the API server has
  -- accepted in it a write or the deletion of a ServerClaim, whatever else it and Netbox answer.
  pub reconcile-ServerComesBack :
      (key : Key) (w : W) {claim : ServerClaim}
      → (r.client.get_server_claim key w).0 ≡ ok claim
      → (is_set claim.meta.deletion_timestamp || is_unfinished claim.status.phase) ≡ true
      → ComesBack watched_server (reconcile r key w).0 (reconcile r key w).1
  unfolding body reconcile
  reconcile-ServerComesBack key w {claim} e h =
      rw e (dispatch-ServerBack claim h (r.client.get_server_claim key w).1)
