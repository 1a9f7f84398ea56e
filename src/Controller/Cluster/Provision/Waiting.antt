-- ===== src/Controller/Cluster/Provision/Waiting.antt =====
-- What stepProvision does once everything is allocated and the machinecfg Job is there.
use smeltry_operator.Base.{◌≡◌, false, none, [], ◌∷◌, length, ◌==◌, str_eq, pos, arith, ◌*◌}
use smeltry_operator.Error.{Result, ok}
use smeltry_operator.Api.{ClusterClaim, SiteConfig, named}
use smeltry_operator.Kube.{Job}
use smeltry_operator.Effect.{Event, body}
use smeltry_operator.Controller.Reply.{reply_after, second}
use smeltry_operator.Controller.Cluster.Defs.{ClusterClaimReconciler, portal_system_namespace}
use smeltry_operator.Controller.Cluster.Provision.{
  ensure_control_plane_ip, ensure_webhook_ip, ensure_machines, ensure_job, job_or_create, await_job,
  job_name, step_provision,
}

module _ {W : Type 0} (r : ClusterClaimReconciler W) where
  -- Both addresses and at least one machine are in the status.
  abbrev pub IsAllocated : ClusterClaim → Type 0
  IsAllocated claim =
      (str_eq claim.status.control_plane_ip "" ≡ false)
      × (str_eq claim.status.webhook_ip "" ≡ false)
      × ((length claim.status.allocated_machine_ids == 0) ≡ false)

  abbrev site_of : ClusterClaim → W → Result SiteConfig × W
  site_of claim w = r.client.get_site_config (named claim.spec.site portal_system_namespace) w

  abbrev job_of : ClusterClaim → W → Result Job × W
  job_of claim w =
      r.client.get_job (named (job_name claim) claim.meta.namespace) (site_of claim w).1

  -- With everything allocated and the site there, a Job without a completion time makes stepProvision
  -- read the site and the Job, call nothing else, and come back after ten seconds, however many of
  -- the Job's pods have failed.
  pub step_provision-waits :
      (claim : ClusterClaim) (w : W) {site : SiteConfig} {job : Job}
      → IsAllocated claim
      → (site_of claim w).0 ≡ ok site
      → (job_of claim w).0 ≡ ok job
      → job.completion_time ≡ none
      → step_provision r claim w ≡ (
        reply_after (pos (10 * second)) none,
        Event.get "SiteConfig" (named claim.spec.site portal_system_namespace)
            ∷ Event.get "Job" (named (job_name claim) claim.meta.namespace)
            ∷ [],
        (job_of claim w).1,
      )
  unfolding body step_provision ensure_control_plane_ip ensure_webhook_ip ensure_machines ensure_job
      job_or_create await_job
  step_provision-waits claim w {site} {job} h e e' none_yet = ground (arith, e, e')
