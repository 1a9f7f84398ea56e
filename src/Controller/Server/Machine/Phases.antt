-- ===== src/Controller/Server/Machine/Phases.antt =====
-- One reconcile of a ServerClaim: the lifecycle, and what the finalizer gives back.
use smeltry_operator.Base.{◌≡◌, refl, All, arith, ◌==◌, ℕ, List, [], ◌∷◌, if◌then◌else◌}
use smeltry_operator.Error.{ok}
use smeltry_operator.Api.{Key, ServerClaim, ServerClaimPhase}
use smeltry_operator.Effect.{body}
use smeltry_operator.Effect.Emits.{Emits, Any, Emits-body, Runs-pure}
use smeltry_operator.Controller.Audit.{emit_audit_event}
use smeltry_operator.Controller.Cluster.Deletion.Releases.{released, freed}
use smeltry_operator.Controller.Server.Defs.{ServerClaimReconciler}
use smeltry_operator.Controller.Server.Lifecycle.{FollowsLifecycle, Lifecycle}
use smeltry_operator.Controller.Server.Steps.Phases.{
  step_validate-FollowsLifecycle, step_provision-FollowsLifecycle,
}
use smeltry_operator.Controller.Server.Machine.{step, dispatch, reconcile, reconcile_delete}

-- The ID, unless it is 0, which stands for none.
abbrev pub taken : ℕ → List ℕ
taken id = if id == 0 then [] else id ∷ []

module _ {W : Type 0} (r : ServerClaimReconciler W) where
  step-FollowsLifecycle :
      (p : ServerClaimPhase) (claim : ServerClaim)
      → claim.status.phase ≡ p
      → Emits (FollowsLifecycle claim) Any (step r p claim)
  unfolding step
  step-FollowsLifecycle ServerClaimPhase.unset claim e =
      step_validate-FollowsLifecycle r claim (rw e Lifecycle.refused_new)
        (rw e Lifecycle.admitted_new)
  step-FollowsLifecycle ServerClaimPhase.pending claim e =
      step_validate-FollowsLifecycle r claim (rw e Lifecycle.refused) (rw e Lifecycle.admitted)
  step-FollowsLifecycle ServerClaimPhase.provisioning claim e =
      step_provision-FollowsLifecycle r claim (rw e Lifecycle.broken) (rw e Lifecycle.served)
  step-FollowsLifecycle ServerClaimPhase.ready claim e =
      Emits-body _ Any _ (Runs-pure _ Any Any _ tt)
  step-FollowsLifecycle ServerClaimPhase.failed claim e =
      Emits-body _ Any _ (Runs-pure _ Any Any _ tt)
  step-FollowsLifecycle (ServerClaimPhase.other _) claim e =
      Emits-body _ Any _ (Runs-pure _ Any Any _ tt)

  dispatch-FollowsLifecycle :
      (claim : ServerClaim) (w : W) → All (FollowsLifecycle claim) (dispatch r claim w).1
  unfolding body dispatch emit_audit_event
  dispatch-FollowsLifecycle claim w =
      ground (arith, (step-FollowsLifecycle claim.status.phase claim refl).at w)

  -- Every status that a reconcile of a ServerClaim writes moves the claim along the lifecycle (to
  -- Provisioning, from there to Ready, to Failed from the phases up to Provisioning, or not at
  -- all), keeps the address with its name and its ID where the old status has an address, keeps
  -- the machine where the old status has one, and keeps the metadata and the spec, whatever the
  -- API server and Netbox answer.
  pub reconcile-keeps_taken :
      (key : Key) (w : W) {claim : ServerClaim}
      → (r.client.get_server_claim key w).0 ≡ ok claim
      → All (FollowsLifecycle claim) (reconcile r key w).1
  unfolding body reconcile
  reconcile-keeps_taken key w {claim} e =
      rw e (tt, dispatch-FollowsLifecycle claim (r.client.get_server_claim key w).1)

  -- Whatever Netbox and the API server answer, the finalizer of a ServerClaim asks Netbox to
  -- release the recorded address and to set the recorded machine active with no tenant, each once,
  -- and nothing where none is recorded.
  pub reconcile_delete-releases_server :
      (claim : ServerClaim) (w : W)
      → let events = (reconcile_delete r claim w).1 in
        (released events ≡ taken claim.status.netbox_ipam_id)
        × (freed events ≡ taken claim.status.allocated_machine_id)
  unfolding body reconcile_delete emit_audit_event
  reconcile_delete-releases_server claim w = ground arith
