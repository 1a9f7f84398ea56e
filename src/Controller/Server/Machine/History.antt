-- ===== src/Controller/Server/Machine/History.antt =====
-- The statuses of a ServerClaim over many passes.
use smeltry_operator.Base.{ℕ, ◌≡◌, Option}
use smeltry_operator.Error.{Error, ok}
use smeltry_operator.Api.{Key, ServerClaim, ServerClaimPhase}
use smeltry_operator.Kube.{Object}
use smeltry_operator.Effect.{Event}
use smeltry_operator.Controller.History.{Occurs, History}
use smeltry_operator.Controller.Server.Defs.{ServerClaimReconciler}
use smeltry_operator.Controller.Server.Lifecycle.{Lifecycle}
use smeltry_operator.Controller.Server.Machine.{reconcile}

-- How many changes of its phase a claim has before it at most.
abbrev pub rank : ServerClaimPhase → ℕ
rank ServerClaimPhase.unset = 2
rank ServerClaimPhase.pending = 2
rank ServerClaimPhase.provisioning = 1
rank ServerClaimPhase.ready = 0
rank ServerClaimPhase.failed = 0
rank (ServerClaimPhase.other _) = 0

module _ {W : Type 0} (r : ServerClaimReconciler W) where
  -- A reconcile in the world `w` reads the one claim and writes the other as its status.
  abbrev pub Wrote : ServerClaim → ServerClaim → Type 0
  Wrote old new =
      (key : Key) × (w : W) × (e : Option Error) × ((r.client.get_server_claim key w).0 ≡ ok old)
      × Occurs (Event.update_status (Object.server_claim new) e) (reconcile r key w).1

  abbrev phase : ServerClaim → ServerClaimPhase
  phase claim = claim.status.phase

  abbrev pub ServerHistory : ServerClaim → ℕ → ServerClaim → Type 0
  ServerHistory = History phase Wrote
