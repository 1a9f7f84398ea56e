-- ===== src/Controller/Cluster/Machine/History.antt =====
-- The statuses of a claim over many passes.
use smeltry_operator.Base.{ℕ, ◌≡◌, Option}
use smeltry_operator.Error.{Error, ok}
use smeltry_operator.Api.{Key, ClusterClaim, ClusterClaimPhase}
use smeltry_operator.Kube.{Object}
use smeltry_operator.Effect.{Event}
use smeltry_operator.Controller.History.{Occurs, History}
use smeltry_operator.Controller.Cluster.Defs.{ClusterClaimReconciler}
use smeltry_operator.Controller.Cluster.Lifecycle.{Lifecycle}
use smeltry_operator.Controller.Cluster.Machine.{reconcile}

-- How many changes of its phase a claim has before it at most.
abbrev pub rank : ClusterClaimPhase → ℕ
rank ClusterClaimPhase.unset = 4
rank ClusterClaimPhase.pending = 4
rank ClusterClaimPhase.provisioning = 3
rank ClusterClaimPhase.cluster_ready = 2
rank ClusterClaimPhase.addons_ready = 1
rank ClusterClaimPhase.ready = 0
rank ClusterClaimPhase.failed = 0
rank (ClusterClaimPhase.other _) = 0

module _ {W : Type 0} (r : ClusterClaimReconciler W) where
  -- A reconcile in the world `w` reads the one claim and writes the other as its status.
  abbrev pub Wrote : ClusterClaim → ClusterClaim → Type 0
  Wrote old new =
      (key : Key) × (w : W) × (e : Option Error) × ((r.client.get_cluster_claim key w).0 ≡ ok old)
      × Occurs (Event.update_status (Object.cluster_claim new) e) (reconcile r key w).1

  abbrev phase : ClusterClaim → ClusterClaimPhase
  phase claim = claim.status.phase

  abbrev pub ClusterHistory : ClusterClaim → ℕ → ClusterClaim → Type 0
  ClusterHistory = History phase Wrote
