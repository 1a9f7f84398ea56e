-- ===== src/Controller/Cluster/Machine/Phases.antt =====
-- One reconcile follows the lifecycle and settles the addresses, whatever the API server and Netbox
-- answer.
use smeltry_operator.Base.{
  ◌≡◌, refl, All, Bool, true, false, Option, none, some, ℤ, [], if◌then◌else◌,
}
use smeltry_operator.Error.{ok}
use smeltry_operator.Api.{Key, ClusterClaim, ClusterClaimPhase}
use smeltry_operator.Effect.{Go, body}
use smeltry_operator.Effect.Emits.{Emits, Any, Emits-emits}
use smeltry_operator.Controller.Reply.{Reply}
use smeltry_operator.Controller.Cluster.Defs.{ClusterClaimReconciler, cluster_claim_finalizer}
use smeltry_operator.Controller.Cluster.Lifecycle.{
  FollowsLifecycle, Follows, Quiet, Quiet-Follows, Lifecycle,
}
use smeltry_operator.Controller.Cluster.Accounts.{Settles, Follows-Settles}
use smeltry_operator.Controller.Cluster.Ledger.{Settled}
use smeltry_operator.Controller.Cluster.Validate.Phases.{step_validate-Quiet}
use smeltry_operator.Controller.Cluster.Provision.Addresses.{step_provision-Settles}
use smeltry_operator.Controller.Cluster.Addons.Phases.{step_watch_addons-Quiet}
use smeltry_operator.Controller.Cluster.Kubeconfig.Phases.{step_expose_kubeconfig-Quiet}
use smeltry_operator.Controller.Cluster.Steady.Phases.{step_reconcile_ready-Follows}
use smeltry_operator.Controller.Cluster.Deletion.Calls.{reconcile_delete-Emits}
use smeltry_operator.Controller.Cluster.Deletion.{reconcile_delete}
use smeltry_operator.Controller.Cluster.Machine.{step, add_finalizer_first, dispatch, reconcile}

module _ {W : Type 0} (r : ClusterClaimReconciler W) where
  follows :
      (claim : ClusterClaim) (m : Go W Reply)
      → Emits (Follows claim) Any m
      → (w : W) → Settles claim (m w).1
  follows claim m h w = Follows-Settles claim (m w).1 (h.at w).0

  quiet :
      (claim : ClusterClaim) (m : Go W Reply)
      → Emits (Quiet claim) Any m
      → (w : W) → Settles claim (m w).1
  quiet claim m h =
      follows claim m (Emits-emits (λ e. Quiet-Follows claim claim e (refl, refl, refl, refl)) h)

  idle : (claim : ClusterClaim) (w : W) → Settles claim []
  idle claim w = Follows-Settles claim [] tt

  step-Settles :
      (p : ClusterClaimPhase) (claim : ClusterClaim)
      → claim.status.phase ≡ p
      → (w : W) → Settles claim (step r p claim w).1
  unfolding step body
  step-Settles ClusterClaimPhase.unset claim e =
      quiet claim _
        (step_validate-Quiet r claim (rw e Lifecycle.refused_new) (rw e Lifecycle.admitted_new))
  step-Settles ClusterClaimPhase.pending claim e =
      quiet claim _ (step_validate-Quiet r claim (rw e Lifecycle.refused) (rw e Lifecycle.admitted))
  step-Settles ClusterClaimPhase.provisioning claim e =
      step_provision-Settles r claim (rw e Lifecycle.broken) (rw e Lifecycle.control_plane_up)
  step-Settles ClusterClaimPhase.cluster_ready claim e =
      quiet claim _ (step_watch_addons-Quiet r claim (rw e Lifecycle.addons_up))
  step-Settles ClusterClaimPhase.addons_ready claim e =
      quiet claim _ (step_expose_kubeconfig-Quiet r claim (rw e Lifecycle.exposed))
  step-Settles ClusterClaimPhase.ready claim e =
      follows claim _ (step_reconcile_ready-Follows r claim)
  step-Settles ClusterClaimPhase.failed claim e = idle claim
  step-Settles (ClusterClaimPhase.other _) claim e = idle claim

  delete-Settles : (claim : ClusterClaim) (w : W) → Settles claim (reconcile_delete r claim w).1
  delete-Settles claim = follows claim _ (
      reconcile_delete-Emits r (Follows claim) (λ _ _. tt) (λ _ _. tt) (λ _ _. tt) (λ _ _. tt)
        (λ _ _. tt) claim)

  finalizer-Settles :
      (claim : ClusterClaim) (w : W) → Settles claim (add_finalizer_first r claim w).1
  unfolding body add_finalizer_first
  finalizer-Settles claim w = Follows-Settles claim (add_finalizer_first r claim w).1 (tt, tt)

  protected-Settles :
      (claim : ClusterClaim) (b : Bool) (w : W)
      → Settles claim
          ((if b then step r claim.status.phase claim else add_finalizer_first r claim) w).1
  protected-Settles claim true w = step-Settles claim.status.phase claim refl w
  protected-Settles claim false w = finalizer-Settles claim w

  -- `dispatch`, on the time of deletion.
  abbrev pub branch : ClusterClaim → Option ℤ → Go W Reply
  branch claim at = elim at [
    | some _ ↦ reconcile_delete r claim
    | none ↦
        if r.client.contains_finalizer claim.meta cluster_claim_finalizer
        then step r claim.status.phase claim
        else add_finalizer_first r claim
  ]

  branch-Settles :
      (claim : ClusterClaim) (at : Option ℤ) (w : W) → Settles claim (branch claim at w).1
  branch-Settles claim (some _) w = delete-Settles claim w
  branch-Settles claim none w = protected-Settles claim _ w

  pub dispatch-Settles : (claim : ClusterClaim) (w : W) → Settles claim (dispatch r claim w).1
  unfolding dispatch
  dispatch-Settles claim w = branch-Settles claim claim.meta.deletion_timestamp w

  -- Every status that a reconcile of a claim writes moves the claim along the lifecycle (forward
  -- one phase at a time, to Failed from the phases up to Provisioning, or not at all) and keeps
  -- its metadata and its spec, whatever the API server and Netbox answer.
  pub reconcile-FollowsLifecycle :
      (key : Key) (w : W) {claim : ClusterClaim}
      → (r.client.get_cluster_claim key w).0 ≡ ok claim
      → All (FollowsLifecycle claim) (reconcile r key w).1
  unfolding body reconcile
  reconcile-FollowsLifecycle key w {claim} e =
      rw e (tt, (dispatch-Settles claim (r.client.get_cluster_claim key w).1).0)

  -- The addresses that a reconcile leaves recorded, and those that it has been given.
  pub reconcile-Settled :
      (key : Key) (w : W) {claim : ClusterClaim}
      → (r.client.get_cluster_claim key w).0 ≡ ok claim
      → Settled claim.status.netbox_ipam_ids (reconcile r key w).1
  unfolding body reconcile
  reconcile-Settled key w {claim} e =
      rw e ((dispatch-Settles claim (r.client.get_cluster_claim key w).1).1)
