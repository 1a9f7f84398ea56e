-- ===== src/Controller/Cluster/Provision/Finish.antt =====
-- What stepProvision does once everything is allocated, and the lifecycle.
use smeltry_operator.Base.{refl, Option, Bool, true, false, arith}
use smeltry_operator.Error.{Error, Result, ok, err}
use smeltry_operator.Api.{ClusterClaim, ClusterClaimPhase, SiteConfig}
use smeltry_operator.Kube.{Object}
use smeltry_operator.Effect.{◌>>◌, Event, body, value_or}
use smeltry_operator.Effect.Emits.{
  Any, Runs, Runs-bind, Runs-call, Runs-pure, Runs-return, Emits-logged, Emits-silent,
}
use smeltry_operator.Controller.Reply.{failure}
use smeltry_operator.Controller.Cluster.Defs.{ClusterClaimReconciler}
use smeltry_operator.Controller.Cluster.Lifecycle.{Quiet, Lifecycle, Alike}
use smeltry_operator.Controller.Cluster.Capi.Phases.{Observed, Seen, ensure_capi_objects-Quiet}
use smeltry_operator.Controller.Cluster.Provision.{ensure_job, finish_provision}

module _ {W : Type 0} (r : ClusterClaimReconciler W) (old : ClusterClaim) where
  abbrev P : Event → Type 0
  P = Quiet old

  ensure_job-Runs :
      (claim : ClusterClaim) (site : SiteConfig)
      → Lifecycle old.status.phase ClusterClaimPhase.failed
      → Alike old claim
      → Runs P Any Any (ensure_job r claim site)
  unfolding body ensure_job
  ensure_job-Runs claim site fails h = record { at = λ w. ground arith }

  value_or-Seen :
      (seen : Result (Bool × ClusterClaim))
      → Observed old seen
      → Runs {W = W} P Any (Seen old) (value_or failure seen)
  unfolding value_or
  value_or-Seen (ok seen) h = Runs-pure P Any (Seen old) seen h
  value_or-Seen (err e) h = Runs-return P Any (Seen old) (failure e) tt

  Seen-Quiet :
      (seen : Bool × ClusterClaim)
      → Lifecycle old.status.phase ClusterClaimPhase.cluster_ready
      → Seen old seen
      → (e : Option Error) → P (Event.update_status (Object.cluster_claim seen.1) e)
  Seen-Quiet (false, new) up h e = (rw h.0 (Lifecycle.stay old.status.phase), h.1, h.2, h.3, h.4)
  Seen-Quiet (true, new) up h e = (rw h.0 up, h.1, h.2, h.3, h.4)

  finish_provision-Runs :
      (claim : ClusterClaim) (site : SiteConfig)
      → Lifecycle old.status.phase ClusterClaimPhase.cluster_ready
      → Alike old claim
      → Runs P Any Any (finish_provision r claim site)
  unfolding finish_provision
  finish_provision-Runs claim site up h =
      Runs-bind P Any (Seen old) Any _ _
        (Runs-bind P Any (Observed old) (Seen old) _ _
          (Runs-call P Any (Observed old) _ (ensure_capi_objects-Quiet r old claim site h))
          λ seen o. value_or-Seen seen o)
        λ seen o. Runs-bind P Any Any Any _ _ (Runs-call P Any Any _ (Emits-silent P _)) λ now _.
          Runs-bind P Any Any Any _ _
            (Runs-call P Any Any _ (Emits-logged P _ _ λ e. Seen-Quiet seen up o e))
            λ e _. Runs-pure P Any Any _ tt

-- From the Job on, stepProvision takes and gives back nothing.
pub after_machines-Quiet :
    {W : Type 0} (r : ClusterClaimReconciler W) (claim : ClusterClaim) (site : SiteConfig)
    → Lifecycle claim.status.phase ClusterClaimPhase.failed
    → Lifecycle claim.status.phase ClusterClaimPhase.cluster_ready
    → Runs (Quiet claim) Any Any (ensure_job r claim site >> finish_provision r claim site)
after_machines-Quiet r claim site fails up =
    Runs-bind (Quiet claim) Any Any Any _ _
      (ensure_job-Runs r claim claim site fails (refl, refl, refl, refl, refl))
      λ _ _. finish_provision-Runs r claim claim site up (refl, refl, refl, refl, refl)
