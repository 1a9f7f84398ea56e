-- ===== src/Controller/Cluster/Machine/Balance.antt =====
-- One reconcile accounts for every machine that it stages or frees.
use smeltry_operator.Base.{
  str_eq, if◌then◌else◌, ◌≡◌, refl, Bool, true, false, Option, ℤ, none, some, List, [], ◌∷◌, ◌++◌,
  if◌then◌else◌,
}
use smeltry_operator.Error.{ok}
use smeltry_operator.Api.{Key, ClusterClaim, ClusterClaimPhase}
use smeltry_operator.Netbox.{DeviceStatus}
use smeltry_operator.Kube.{Object}
use smeltry_operator.Effect.{Event, Go, body}
use smeltry_operator.Effect.Emits.{Emits, Any}
use smeltry_operator.Controller.Reply.{Reply}
use smeltry_operator.Controller.Cluster.Defs.{ClusterClaimReconciler}
use smeltry_operator.Controller.Cluster.Lifecycle.{Quiet, Lifecycle}
use smeltry_operator.Controller.Cluster.Ledger.{stored}
use smeltry_operator.Controller.Cluster.Books.{Book, book, opening, Balanced, Keeps, book-Quiet}
use smeltry_operator.Controller.Cluster.Validate.Phases.{step_validate-Quiet}
use smeltry_operator.Controller.Cluster.Provision.Machines.{step_provision-Keeps}
use smeltry_operator.Controller.Cluster.Addons.Phases.{step_watch_addons-Quiet}
use smeltry_operator.Controller.Cluster.Kubeconfig.Phases.{step_expose_kubeconfig-Quiet}
use smeltry_operator.Controller.Cluster.Steady.Machines.{step_reconcile_ready-Keeps}
use smeltry_operator.Controller.Cluster.Machine.Phases.{branch}
use smeltry_operator.Controller.Cluster.Machine.{step, add_finalizer_first, dispatch, reconcile}

pub stored-book :
    (claim : ClusterClaim) (b : Book) (es : List Event)
    → claim.status.allocated_machine_ids ≡ b.recorded
    → (stored claim es).status.allocated_machine_ids ≡ (book b es).recorded
stored-book claim b [] h = h
stored-book claim b (Event.update_status (Object.cluster_claim new) none ∷ es) h =
    stored-book (record claim { status = new.status }) _ es refl
stored-book claim b (Event.update_status (Object.cluster_claim new) (some _) ∷ es) h =
    stored-book claim b es h
stored-book claim b (Event.update (Object.cluster_claim new) none ∷ es) h =
    stored-book (record new { status = claim.status }) b es h
stored-book claim b (Event.update (Object.cluster_claim new) (some _) ∷ es) h =
    stored-book claim b es h
stored-book claim b (Event.set_device_status id DeviceStatus.staged t none ∷ es) h =
    stored-book claim (record b { staged = b.staged ++ (id ∷ []) }) es h
stored-book claim b (Event.set_device_status id DeviceStatus.staged t (some _) ∷ es) h =
    stored-book claim b es h
stored-book claim b (Event.set_device_status id DeviceStatus.active t none ∷ es) h =
    stored-book claim (record b { freed = if str_eq t "" then b.freed ++ (id ∷ []) else b.freed })
      es h
stored-book claim b (Event.set_device_status id DeviceStatus.active t (some _) ∷ es) h =
    stored-book claim b es h
stored-book claim b (_ ∷ es) h = stored-book claim b es h

module _ {W : Type 0} (r : ClusterClaimReconciler W) where
  abbrev Fair : ClusterClaim → Go W Reply → Type 0
  Fair claim m = Keeps (Balanced claim) (opening claim) m

  quiet : (claim : ClusterClaim) (m : Go W Reply) → Emits (Quiet claim) Any m → Fair claim m
  quiet claim m h w _ = rw (book-Quiet claim (opening claim) (m w).1 refl (h.at w).0) refl

  step-Keeps :
      (p : ClusterClaimPhase) (claim : ClusterClaim)
      → claim.status.phase ≡ p
      → Fair claim (step r p claim)
  unfolding step body
  step-Keeps ClusterClaimPhase.unset claim e =
      quiet claim _
        (step_validate-Quiet r claim (rw e Lifecycle.refused_new) (rw e Lifecycle.admitted_new))
  step-Keeps ClusterClaimPhase.pending claim e =
      quiet claim _ (step_validate-Quiet r claim (rw e Lifecycle.refused) (rw e Lifecycle.admitted))
  step-Keeps ClusterClaimPhase.provisioning claim e =
      step_provision-Keeps r claim (rw e Lifecycle.broken) (rw e Lifecycle.control_plane_up)
  step-Keeps ClusterClaimPhase.cluster_ready claim e =
      quiet claim _ (step_watch_addons-Quiet r claim (rw e Lifecycle.addons_up))
  step-Keeps ClusterClaimPhase.addons_ready claim e =
      quiet claim _ (step_expose_kubeconfig-Quiet r claim (rw e Lifecycle.exposed))
  step-Keeps ClusterClaimPhase.ready claim e = step_reconcile_ready-Keeps r claim
  step-Keeps ClusterClaimPhase.failed claim e = λ w _. refl
  step-Keeps (ClusterClaimPhase.other _) claim e = λ w _. refl

  finalizer-Keeps : (claim : ClusterClaim) → Fair claim (add_finalizer_first r claim)
  unfolding body add_finalizer_first
  finalizer-Keeps claim w _ = refl

  protected-Keeps :
      (claim : ClusterClaim) (b : Bool)
      → Fair claim (if b then step r claim.status.phase claim else add_finalizer_first r claim)
  protected-Keeps claim true = step-Keeps claim.status.phase claim refl
  protected-Keeps claim false = finalizer-Keeps claim

  branch-Keeps : (claim : ClusterClaim) (at : Option ℤ) → at ≡ none → Fair claim (branch r claim at)
  branch-Keeps claim (some t) e = cc
  branch-Keeps claim none e = protected-Keeps claim _

  -- What a reconcile of a claim has recorded, staged and freed at its end.
  abbrev pub closing : Key → W → ClusterClaim → Book
  closing key w claim = book (opening claim) (reconcile r key w).1

  -- Whatever the API server and Netbox answer, a reconcile of a claim that is not being deleted
  -- and that returns no error leaves a status that records, with the machines that it has set
  -- active, exactly the machines that the claim had and those that it has staged, in order.
  pub reconcile-Balanced :
      (key : Key) (w : W) {claim : ClusterClaim}
      → (r.client.get_cluster_claim key w).0 ≡ ok claim
      → claim.meta.deletion_timestamp ≡ none
      → (reconcile r key w).0.error ≡ none
      → Balanced claim (closing key w claim)
  unfolding body reconcile dispatch
  reconcile-Balanced key w {claim} got alive =
      rw got (
        branch-Keeps claim claim.meta.deletion_timestamp alive (r.client.get_cluster_claim key w).1)
