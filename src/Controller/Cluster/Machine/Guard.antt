-- ===== src/Controller/Cluster/Machine/Guard.antt =====
-- Nothing is acquired for a claim that the finalizer does not protect.
use smeltry_operator.Base.{◌≡◌, true, none, All, Bool-cases, Option-cases, inl, inr, All-of, arith}
use smeltry_operator.Error.{ok}
use smeltry_operator.Api.{Key, ClusterClaim}
use smeltry_operator.Netbox.{DeviceStatus}
use smeltry_operator.Effect.{Event, body}
use smeltry_operator.Controller.Cluster.Defs.{ClusterClaimReconciler, cluster_claim_finalizer}
use smeltry_operator.Controller.Cluster.Deletion.Calls.{reconcile_delete-Emits}
use smeltry_operator.Controller.Cluster.Machine.{dispatch, reconcile}

module _ {W : Type 0} (r : ClusterClaimReconciler W) where
  -- The claim is not being deleted, and the finalizer is on it.
  abbrev pub IsProtected : ClusterClaim → Type 0
  IsProtected claim =
      (claim.meta.deletion_timestamp ≡ none)
      × (r.client.contains_finalizer claim.meta cluster_claim_finalizer ≡ true)

  -- The calls by which the operator takes an address or a machine in Netbox.
  abbrev pub AcquiresProtected : ClusterClaim → Event → Type 0
  AcquiresProtected claim (Event.allocate_ip _ _ _ _) = IsProtected claim
  AcquiresProtected claim (Event.set_device_status _ DeviceStatus.staged _ _) = IsProtected claim
  AcquiresProtected claim _ = Unit

  AcquiresProtected-protected :
      (claim : ClusterClaim) → IsProtected claim → (e : Event) → AcquiresProtected claim e
  AcquiresProtected-protected claim h (Event.allocate_ip _ _ _ _) = h
  AcquiresProtected-protected claim h (Event.set_device_status _ DeviceStatus.staged _ _) = h
  AcquiresProtected-protected claim h _ = tt

  dispatch-AcquiresProtected :
      (claim : ClusterClaim) (w : W) → All (AcquiresProtected claim) (dispatch r claim w).1
  unfolding body dispatch
  dispatch-AcquiresProtected claim w = elim (Option-cases claim.meta.deletion_timestamp) [
    | inr (t, e) ↦ ground (
      arith,
      (reconcile_delete-Emits r (AcquiresProtected claim) (λ _ _. tt) (λ _ _. tt) (λ _ _. tt)
            (λ _ _. tt) (λ _ _. tt) claim).at
          w,
    )
    | inl e ↦ elim (Bool-cases (r.client.contains_finalizer claim.meta cluster_claim_finalizer)) [
      | inl present ↦
          All-of _ (AcquiresProtected-protected claim (e, present)) (dispatch r claim w).1
      | inr missing ↦ ground arith
    ]
  ]

  -- Whatever the API server and Netbox answer, a reconcile takes an address or stages a machine in
  -- Netbox only for a claim that is not being deleted and that carries the finalizer, which is
  -- what later gives them back.
  pub reconcile-AcquiresProtected :
      (key : Key) (w : W) {claim : ClusterClaim}
      → (r.client.get_cluster_claim key w).0 ≡ ok claim
      → All (AcquiresProtected claim) (reconcile r key w).1
  unfolding body reconcile
  reconcile-AcquiresProtected key w {claim} e =
      rw e (tt, dispatch-AcquiresProtected claim (r.client.get_cluster_claim key w).1)
