-- ===== src/Controller/Cluster/Machine/Attention.antt =====
-- Which claims are looked at again.
use smeltry_operator.Base.{not, ◌≡◌, Bool, true, false, Option, none, some, ◌||◌, ℤ, if◌then◌else◌}
use smeltry_operator.Error.{ok}
use smeltry_operator.Api.{Key, ClusterClaim, ClusterClaimPhase}
use smeltry_operator.Effect.{body}
use smeltry_operator.Controller.Attention.{Back, Closes-body, ComesBack, is_set}
use smeltry_operator.Controller.Cluster.Defs.{ClusterClaimReconciler, cluster_claim_finalizer}
use smeltry_operator.Controller.Cluster.Attention.{watched, Closes-updated}
use smeltry_operator.Controller.Cluster.Validate.Attention.{step_validate-Back}
use smeltry_operator.Controller.Cluster.Provision.Attention.{step_provision-Back}
use smeltry_operator.Controller.Cluster.Addons.Attention.{step_watch_addons-Back}
use smeltry_operator.Controller.Cluster.Kubeconfig.Attention.{step_expose_kubeconfig-Back}
use smeltry_operator.Controller.Cluster.Steady.{delete_at}
use smeltry_operator.Controller.Cluster.Steady.Attention.{step_reconcile_ready-Back}
use smeltry_operator.Controller.Cluster.Deletion.Attention.{reconcile_delete-Back}
use smeltry_operator.Controller.Cluster.Machine.{step, add_finalizer_first, dispatch, reconcile}
use smeltry_operator.Controller.Cluster.Machine.Phases.{branch}

module _ {W : Type 0} (r : ClusterClaimReconciler W) where
  -- In this phase there is something to do or to watch, and at Ready the claim has no time at which
  -- it is to be deleted.
  abbrev pub is_open : ClusterClaimPhase → ClusterClaim → Bool
  is_open ClusterClaimPhase.failed claim = false
  is_open (ClusterClaimPhase.other _) claim = false
  is_open ClusterClaimPhase.ready claim = not (is_set (delete_at r claim))
  is_open _ claim = true

  step-Back :
      (p : ClusterClaimPhase) (claim : ClusterClaim)
      → is_open p claim ≡ true
      → Back watched (step r p claim)
  unfolding step
  step-Back ClusterClaimPhase.unset claim h = step_validate-Back r claim
  step-Back ClusterClaimPhase.pending claim h = step_validate-Back r claim
  step-Back ClusterClaimPhase.provisioning claim h = step_provision-Back r claim
  step-Back ClusterClaimPhase.cluster_ready claim h = step_watch_addons-Back r claim
  step-Back ClusterClaimPhase.addons_ready claim h = step_expose_kubeconfig-Back r claim
  step-Back ClusterClaimPhase.ready claim h = step_reconcile_ready-Back r claim h
  step-Back ClusterClaimPhase.failed claim h = cc
  step-Back (ClusterClaimPhase.other _) claim h = cc

  add_finalizer_first-Back : (claim : ClusterClaim) → Back watched (add_finalizer_first r claim)
  unfolding add_finalizer_first
  add_finalizer_first-Back claim = Closes-body watched _ (Closes-updated r _)

  protected-Back :
      (claim : ClusterClaim) (b : Bool)
      → is_open claim.status.phase claim ≡ true
      → Back watched (if b then step r claim.status.phase claim else add_finalizer_first r claim)
  protected-Back claim true h = step-Back claim.status.phase claim h
  protected-Back claim false h = add_finalizer_first-Back claim

  branch-Back :
      (claim : ClusterClaim) (at : Option ℤ)
      → (is_set at || is_open claim.status.phase claim) ≡ true
      → Back watched (branch r claim at)
  branch-Back claim (some _) h = reconcile_delete-Back r claim
  branch-Back claim none h =
      protected-Back claim (r.client.contains_finalizer claim.meta cluster_claim_finalizer) h

  dispatch-Back :
      (claim : ClusterClaim)
      → (is_set claim.meta.deletion_timestamp || is_open claim.status.phase claim) ≡ true
      → Back watched (dispatch r claim)
  unfolding dispatch
  dispatch-Back claim h = branch-Back claim claim.meta.deletion_timestamp h

  -- A reconcile that finds its claim, where the claim is being deleted, or its phase is empty or one
  -- of the operator's but Failed and it is not a Ready claim with a time of deletion that parses,
  -- returns an error, or asks to be called again, or the API server has accepted in it a write or
  -- the deletion of a ClusterClaim, whatever else it and Netbox answer.
  pub reconcile-ComesBack :
      (key : Key) (w : W) {claim : ClusterClaim}
      → (r.client.get_cluster_claim key w).0 ≡ ok claim
      → (is_set claim.meta.deletion_timestamp || is_open claim.status.phase claim) ≡ true
      → ComesBack watched (reconcile r key w).0 (reconcile r key w).1
  unfolding body reconcile
  reconcile-ComesBack key w {claim} e h =
      rw e (dispatch-Back claim h (r.client.get_cluster_claim key w).1)
