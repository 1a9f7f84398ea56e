-- ===== src/Tests/Cluster.antt =====
-- The theorems on the ClusterClaim controller, at the small installation.
use smeltry_operator.Base.{
  ◌≡◌, refl, All, [], ◌∷◌, String, pos, none, some, ◌*◌, str_eq, if◌then◌else◌,
}
use smeltry_operator.Api.{named, ClusterClaimPhase, ConditionStatus}
use smeltry_operator.Kube.{Job}
use smeltry_operator.Effect.{Event}
use smeltry_operator.Netbox.Fake
use smeltry_operator.Controller.Reply.{reply_after, second}
use smeltry_operator.Controller.Utility.{set_condition, rules_covers_secrets, contains_string}
use smeltry_operator.Controller.Utility.Conditions.{
  types, find_condition, condition, UniqueTypes, set_condition_lem,
}
use smeltry_operator.Controller.Cluster.Lifecycle.{FollowsLifecycle}
use smeltry_operator.Controller.Cluster.Machine.{reconcile}
use smeltry_operator.Controller.Cluster.Machine.Phases.{reconcile-FollowsLifecycle}
use smeltry_operator.Controller.Cluster.Machine.Guard.{
  AcquiresProtected, reconcile-AcquiresProtected,
}
use smeltry_operator.Controller.Cluster.Kubeconfig.{grant_secret}
use smeltry_operator.Controller.Cluster.Deletion.Revocation.{
  Hides, Reverts, revoke_secret-Hides, grant_secret-Reverts,
}
use smeltry_operator.Controller.Cluster.Deletion.{reconcile_delete, revoke_secret}
use smeltry_operator.Controller.Cluster.Deletion.Releases.{
  released, freed, EndsWith, finalized, reconcile_delete-releases_all,
}
use smeltry_operator.Controller.Cluster.Steady.{step_reconcile_ready}
use smeltry_operator.Controller.Cluster.Steady.Scaling.{WritesResized, step_reconcile_ready-Resized}
use smeltry_operator.Controller.Cluster.Provision.{job_name, step_provision}
use smeltry_operator.Controller.Cluster.Provision.Waiting.{step_provision-waits}
use smeltry_operator.Tests.World.{allocated_in, claim_in, reconciler, done_job, netbox, rule}

abbrev failed_job : Job
failed_job = record done_job { completion_time = none; failed = 3 }

reconcile-FollowsLifecycle_example :
    All
      (FollowsLifecycle (claim_in ClusterClaimPhase.provisioning))
      (reconcile
        (reconciler (claim_in ClusterClaimPhase.provisioning) done_job)
        (named "prod" "tenant-acme")
        netbox).1
reconcile-FollowsLifecycle_example =
    reconcile-FollowsLifecycle (reconciler (claim_in ClusterClaimPhase.provisioning) done_job)
      (named "prod" "tenant-acme") netbox refl

reconcile-AcquiresProtected_example :
    let r = reconciler (claim_in ClusterClaimPhase.provisioning) done_job in
    All
      (AcquiresProtected r (claim_in ClusterClaimPhase.provisioning))
      (reconcile r (named "prod" "tenant-acme") netbox).1
reconcile-AcquiresProtected_example =
    reconcile-AcquiresProtected (reconciler (claim_in ClusterClaimPhase.provisioning) done_job)
      (named "prod" "tenant-acme") netbox refl

reconcile_delete-releases_all_example :
    let claim = allocated_in ClusterClaimPhase.ready in
    let r = reconciler claim done_job in
    let (answer, events, _) = reconcile_delete r claim netbox in
    (released events ≡ 4 ∷ 5 ∷ [])
    × (freed events ≡ 1 ∷ [])
    × EndsWith (finalized r claim) answer.error events
reconcile_delete-releases_all_example =
    reconcile_delete-releases_all (reconciler (allocated_in ClusterClaimPhase.ready) done_job)
      (allocated_in ClusterClaimPhase.ready) netbox

step_reconcile_ready-Resized_example :
    let claim = allocated_in ClusterClaimPhase.ready in
    All (WritesResized claim) (step_reconcile_ready (reconciler claim done_job) claim netbox).1
step_reconcile_ready-Resized_example =
    step_reconcile_ready-Resized (reconciler (allocated_in ClusterClaimPhase.ready) done_job)
      (allocated_in ClusterClaimPhase.ready) netbox

step_provision-waits_example :
    let claim = allocated_in ClusterClaimPhase.provisioning in
    step_provision (reconciler claim failed_job) claim netbox ≡ (
      reply_after (pos (10 * second)) none,
      Event.get "SiteConfig" (named "paris" "portal-system")
          ∷ Event.get "Job" (named "prod-machinecfg" "tenant-acme")
          ∷ [],
      netbox,
    )
unfolding job_name
step_provision-waits_example =
    step_provision-waits (reconciler (allocated_in ClusterClaimPhase.provisioning) failed_job)
      (allocated_in ClusterClaimPhase.provisioning) netbox (refl, refl, refl) refl refl refl

set_condition_lem_example :
    let claim = claim_in ClusterClaimPhase.ready in
    let new = set_condition claim "Validated" ConditionStatus.condition_true "Passed" "" (pos 7) in
    ((other : String)
      → find_condition other new.status.conditions ≡ (
          if str_eq "Validated" other
          then some (condition "Validated" ConditionStatus.condition_true "Passed" "" (pos 7))
          else find_condition other claim.status.conditions))
    × UniqueTypes (types new.status.conditions)
    × (record new { status = record (new.status) { conditions = claim.status.conditions } } ≡ claim)
set_condition_lem_example =
    set_condition_lem (claim_in ClusterClaimPhase.ready) "Validated" ConditionStatus.condition_true
      "Passed" "" (pos 7) tt

revoke_secret-Hides_example :
    All
      (Hides "prod-kubeconfig")
      (revoke_secret "prod-kubeconfig" (rule ("x" ∷ "prod-kubeconfig" ∷ []) ∷ []))
revoke_secret-Hides_example =
    revoke_secret-Hides "prod-kubeconfig" (rule ("x" ∷ "prod-kubeconfig" ∷ []) ∷ [])

grant_secret-Reverts_example :
    Reverts "prod-kubeconfig"
      (rule ("x" ∷ []) ∷ [])
      (grant_secret "prod-kubeconfig" (rule ("x" ∷ []) ∷ []))
unfolding contains_string rules_covers_secrets
grant_secret-Reverts_example =
    grant_secret-Reverts "prod-kubeconfig" (rule ("x" ∷ []) ∷ []) (refl, tt)
