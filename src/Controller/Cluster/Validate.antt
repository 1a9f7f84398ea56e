-- ===== src/Controller/Cluster/Validate.antt =====
-- stepValidate: whether the profile, the site and enough fitting machines are there.
pub mod Phases
pub mod Attention
pub mod Shortage
use smeltry_operator.Base.{
  ◌≡◌, ℕ, String, ◌<>◌, Bool, true, false, not, Option, none, some, List, [], ◌∷◌, length, take,
  ltb, sprint, quote, if◌then◌else◌,
}
use smeltry_operator.Error.{Error, Result, ok, err}
use smeltry_operator.Api.{
  ClusterClaim, ClusterClaimPhase, cluster_claim_phase_text, AddonProfile, MachineConstraints,
  SiteConfig, ConditionStatus, AuditEventSpec, audit_event_spec, audit_type_phase_changed,
  condition_validated, named,
}
use smeltry_operator.Netbox.{Device}
use smeltry_operator.Effect.{
  Go, Block, ◌>>=◌, ◌>>◌, pure, return, call, value_or, check, return_if, body, time_now,
  get_addon_profile, get_site_config, list_available_devices,
}
use smeltry_operator.Controller.Reply.{Reply, failure, retry, reply_requeue}
use smeltry_operator.Controller.Utility.{set_condition, machines_have_tag}
use smeltry_operator.Controller.Audit.{emit_audit_event}
use smeltry_operator.Controller.Cluster.Defs.{
  ClusterClaimReconciler, portal_system_namespace, with_phase, write_status, fail,
}

-- The loop over the required tags: the first that no machine has.
unfoldable pub missing_tag : List Device → List String → Option String
unfolding machines_have_tag
missing_tag machines [] = none
missing_tag machines (tag ∷ tags) =
    if machines_have_tag machines tag then missing_tag machines tags else some tag

required_tags : AddonProfile → List String
required_tags ap = elim ap.spec.machine_constraints [ none ↦ [] | some c ↦ c.required_tags ]

module _ {W : Type 0} (r : ClusterClaimReconciler W) where
  -- `return r.fail(...)`
  fail_with : {A : Type 0} → ClusterClaim → String → String → Block W Reply A
  unfolding fail
  fail_with claim reason msg = call (fail r claim reason msg) >>= return

  found : {A : Type 0} → ClusterClaim → String → String → Result A → Block W Reply A
  unfolding fail_with
  found claim reason msg (ok a) = pure a
  found claim reason msg (err e) = fail_with claim reason msg

  unless_missing : ClusterClaim → Option String → Block W Reply (Unit {0})
  unfolding fail_with
  unless_missing claim none = pure tt
  unless_missing claim (some tag) = fail_with claim "MachineClassIncompatible" (
      "AddonProfile "
      <> (quote claim.spec.addon_profile <> (" requires tag " <> (quote tag <> " on machines"))))

  enough : ClusterClaim → ℕ → Block W Reply (Unit {0})
  unfolding fail_with
  enough claim available =
      if ltb available claim.spec.machine_count
      then fail_with claim "InsufficientMachines" (
          "need "
          <> (sprint claim.spec.machine_count
              <> (" machines of class "
                  <> (quote claim.spec.machine_class
                      <> (", only "
                          <> (sprint available
                              <> (" available on site " <> quote claim.spec.site)))))))
      else pure tt

  phase_changed : ClusterClaim → AuditEventSpec
  phase_changed claim =
      record (audit_event_spec audit_type_phase_changed "ClusterClaim" claim.meta.name) {
        old_phase = cluster_claim_phase_text claim.status.phase;
        new_phase = cluster_claim_phase_text ClusterClaimPhase.provisioning;
      }

  unfoldable pub step_validate : ClusterClaim → Go W Reply
  unfolding found unless_missing enough required_tags missing_tag phase_changed set_condition
  step_validate claim = body do
    ap ←
        call (get_addon_profile r.client (named claim.spec.addon_profile portal_system_namespace))
        >>= found claim "AddonProfileNotFound"
            ("AddonProfile " <> (quote claim.spec.addon_profile <> " not found in portal-system"))
    site ←
        call (get_site_config r.client (named claim.spec.site portal_system_namespace))
        >>= found claim "SiteConfigNotFound"
            ("SiteConfig " <> (quote claim.spec.site <> " not found in portal-system"))
    available ←
        call (list_available_devices r.netbox site.spec.netbox.site_slug claim.spec.machine_class)
        >>= value_or retry
    enough claim (length available)
    unless_missing claim (missing_tag (take claim.spec.machine_count available) (required_tags ap))
    now ← call (time_now r.client)
    let claim' =
        set_condition (with_phase claim ClusterClaimPhase.provisioning) condition_validated
          ConditionStatus.condition_true "ValidationPassed" "all checks passed" now
    call (write_status r claim') >>= check failure
    call (emit_audit_event r.client claim.meta.namespace r.default_audit_ttl (phase_changed claim))
    pure (reply_requeue none)
