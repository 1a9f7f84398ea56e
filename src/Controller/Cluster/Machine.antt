-- ===== src/Controller/Cluster/Machine.antt =====
-- Reconcile: the state machine of a ClusterClaim.
pub mod Phases
pub mod Attention
pub mod Guard
pub mod History
pub mod Life
pub mod Balance
pub mod Fleet
use smeltry_operator.Base.{Bool, true, false, Option, none, some, if◌then◌else◌}
use smeltry_operator.Error.{Error, Result, ok, err}
use smeltry_operator.Api.{Key, ClusterClaim, ClusterClaimPhase}
use smeltry_operator.Kube.{Object}
use smeltry_operator.Effect.{
  Go, Block, ◌>>=◌, ◌>>◌, pure, return, call, body, get_cluster_claim, update,
}
use smeltry_operator.Controller.Reply.{Reply, reply}
use smeltry_operator.Controller.Cluster.Defs.{ClusterClaimReconciler, cluster_claim_finalizer}
use smeltry_operator.Controller.Cluster.Validate.{step_validate}
use smeltry_operator.Controller.Cluster.Provision.{step_provision}
use smeltry_operator.Controller.Cluster.Addons.{step_watch_addons}
use smeltry_operator.Controller.Cluster.Kubeconfig.{step_expose_kubeconfig}
use smeltry_operator.Controller.Cluster.Steady.{step_reconcile_ready}
use smeltry_operator.Controller.Cluster.Deletion.{reconcile_delete}

module _ {W : Type 0} (r : ClusterClaimReconciler W) where
  -- The switch on the phase.
  unfoldable pub step : ClusterClaimPhase → ClusterClaim → Go W Reply
  step ClusterClaimPhase.unset = step_validate r
  step ClusterClaimPhase.pending = step_validate r
  step ClusterClaimPhase.provisioning = step_provision r
  step ClusterClaimPhase.cluster_ready = step_watch_addons r
  step ClusterClaimPhase.addons_ready = step_expose_kubeconfig r
  step ClusterClaimPhase.ready = step_reconcile_ready r
  step ClusterClaimPhase.failed = λ claim. body (pure (reply none))
  step (ClusterClaimPhase.other _) = λ claim. body (pure (reply none))

  pub add_finalizer_first : ClusterClaim → Go W Reply
  add_finalizer_first claim = body do
    e ← call (
        update r.client (
          Object.cluster_claim
            (record claim { meta = r.client.add_finalizer claim.meta cluster_claim_finalizer })))
    pure (reply e)

  -- Reconcile, once the claim has been read.
  unfoldable pub dispatch : ClusterClaim → Go W Reply
  unfolding step add_finalizer_first
  dispatch claim = elim claim.meta.deletion_timestamp [
    | some _ ↦ reconcile_delete r claim
    | none ↦
        if r.client.contains_finalizer claim.meta cluster_claim_finalizer
        then step claim.status.phase claim
        else add_finalizer_first claim
  ]

  read : Result ClusterClaim → Block W Reply ClusterClaim
  read (ok claim) = pure claim
  read (err e) = return (reply (r.client.ignore_not_found e))

  unfoldable pub reconcile : Key → Go W Reply
  unfolding read dispatch
  reconcile key =
      body do claim ← call (get_cluster_claim r.client key) >>= read; call (dispatch claim)
