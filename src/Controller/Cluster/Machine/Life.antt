-- ===== src/Controller/Cluster/Machine/Life.antt =====
-- The addresses of a claim from its creation to its deletion.
use mathlib.Core.List.{Sublistᴰ}
use mathlib.Core.List.Sublistᴰ
use smeltry_operator.Base.{ℕ, ◌+◌, ◌≤◌, ◌≡◌, List, [], ◌++◌, length}
use smeltry_operator.Error.{ok}
use smeltry_operator.Api.{Key, ClusterClaim}
use smeltry_operator.Controller.Cluster.Defs.{ClusterClaimReconciler}
use smeltry_operator.Controller.Cluster.Ledger.{allocated, stored, refusals}
use smeltry_operator.Controller.Cluster.Deletion.{reconcile_delete}
use smeltry_operator.Controller.Cluster.Deletion.Releases.{released}
use smeltry_operator.Controller.Cluster.Machine.{reconcile}

-- `kept` is a part of `given`, in order, and lacks `n` of it at most.
abbrev pub KeepsBut : ℕ → List ℕ → List ℕ → Type 0
KeepsBut n kept given = Sublistᴰ kept given × (length given ≤ length kept + n)

module _ {W : Type 0} (r : ClusterClaimReconciler W) where
  -- The claim as it is stored, the addresses that Netbox has allocated for it so far, and the number
  -- of status updates that the API server has refused. Others change the metadata and the spec, and
  -- a reconcile reads the claim as it is stored.
  pub data Life : ClusterClaim → List ℕ → ℕ → Type 0 where
    filed : (claim : ClusterClaim) → claim.status.netbox_ipam_ids ≡ [] → Life claim [] 0
    edited :
        {old : ClusterClaim} {ids : List ℕ} {n : ℕ} (new : ClusterClaim)
        → Life old ids n
        → new.status ≡ old.status
        → Life new ids n
    passed :
        {old : ClusterClaim} {ids : List ℕ} {n : ℕ} (key : Key) (w : W)
        → Life old ids n
        → (r.client.get_cluster_claim key w).0 ≡ ok old
        → Life
            (stored old (reconcile r key w).1)
            (ids ++ allocated (reconcile r key w).1)
            (n + refusals (reconcile r key w).1)

  abbrev pub released_by : ClusterClaim → W → List ℕ
  released_by claim w = released (reconcile_delete r claim w).1
