-- ===== src/Controller/Cluster/Steady.antt =====
-- stepReconcileReady, scaleUp and scaleDown: a cluster that is Ready.
pub mod Scaling
pub mod Attention
pub mod Phases
pub mod Machines
use smeltry_operator.Base.{
  saturate, wrap_64, ℕ, zero, suc, ◌-◌, ◌*◌, String, ◌<>◌, Bool, true, false, Option, none, some,
  List, [], ◌∷◌, ◌++◌, length, take, drop, ltb, str_eq, sprint, quote, if◌then◌else◌, ℤ, pos, ltb_ℤ,
  ◌+ℤ◌, ◌-ℤ◌,
}
use smeltry_operator.Error.{Error, Result, ok, err}
use smeltry_operator.Api.{ClusterClaim, AddonComponent, ConditionStatus, named}
use smeltry_operator.Netbox.{Device, DeviceStatus}
use smeltry_operator.Kube.{Object}
use smeltry_operator.Effect.{
  Go, Block, ◌>>=◌, ◌>>◌, pure, return, call, value_or, check, body, time_now, get_site_config,
  get_addon_profile, delete, list_available_devices, set_device_status,
}
use smeltry_operator.Controller.Reply.{Reply, failure, retry, reply, reply_after, second, minute}
use smeltry_operator.Controller.Utility.{set_condition, tenant_from_namespace}
use smeltry_operator.Controller.Cluster.Defs.{
  ClusterClaimReconciler, portal_system_namespace, write_status,
}

abbrev pub annotation_delete_at : String
annotation_delete_at = "portal.smeltry.io/delete-at"

unfoldable pub annotation : String → List (String × String) → Option String
annotation key [] = none
annotation key ((k, v) ∷ rest) = if str_eq k key then some v else annotation key rest

abbrev pub with_machines : ClusterClaim → List ℕ → ClusterClaim
with_machines claim ids = record claim {
  status = record (claim.status) { allocated_machine_ids = ids };
}

-- Whether the profile has the component rook-ceph.
unfoldable pub has_rook : List AddonComponent → Bool
has_rook [] = false
has_rook (comp ∷ comps) = if str_eq comp.name "rook-ceph" then true else has_rook comps

module _ {W : Type 0} (r : ClusterClaimReconciler W) where
  -- The loop of scaleUp: `delta` machines are left to stage.
  stage_machines : String → ℕ → List Device → List ℕ → Block W Reply (List ℕ)
  stage_machines tenant zero machines ids = pure ids
  stage_machines tenant (suc delta) [] ids = pure ids
  stage_machines tenant (suc delta) (m ∷ machines) ids = do
    call (set_device_status r.netbox m.id DeviceStatus.staged tenant) >>= check retry
    stage_machines tenant delta machines (ids ++ (m.id ∷ []))

  scale_up_blocked : ClusterClaim → ℕ → ℕ → Block W Reply Reply
  unfolding set_condition
  scale_up_blocked claim delta available = do
    now ← call (time_now r.client)
    e ← call (
        write_status r (
          set_condition claim "ScaleUpBlocked" ConditionStatus.condition_true "InsufficientMachines"
            ("need "
              <> (sprint delta
                  <> (" more machines of class "
                      <> (quote claim.spec.machine_class
                          <> (", only " <> (sprint available <> " available"))))))
            now))
    pure (reply_after (pos (5 * minute)) e)

  stage_and_record : ClusterClaim → ℕ → List Device → Block W Reply Reply
  unfolding stage_machines tenant_from_namespace
  stage_and_record claim delta available = do
    ids ←
        stage_machines (tenant_from_namespace claim.meta.namespace) delta available
          claim.status.allocated_machine_ids
    e ← call (write_status r (with_machines claim ids))
    pure (reply_after (pos (5 * minute)) e)

  unfoldable pub scale_up : ClusterClaim → ℕ → Go W Reply
  unfolding scale_up_blocked stage_and_record
  scale_up claim delta = body do
    site ←
        call (get_site_config r.client (named claim.spec.site portal_system_namespace))
        >>= value_or failure
    available ←
        call (list_available_devices r.netbox site.spec.netbox.site_slug claim.spec.machine_class)
        >>= value_or retry
    if ltb (length available) delta
        then scale_up_blocked claim delta (length available)
        else stage_and_record claim delta available

  scale_down_blocked : ClusterClaim → Block W Reply Reply
  unfolding set_condition
  scale_down_blocked claim = do
    now ← call (time_now r.client)
    e ← call (
        write_status r (
          set_condition claim "ScaleDownBlocked" ConditionStatus.condition_true "RookCephPresent"
            "scale down is forbidden when rook-ceph is part of the addon profile" now))
    pure (reply e)

  release_machines : List ℕ → Block W Reply (Unit {0})
  release_machines [] = pure tt
  release_machines (id ∷ ids) = do
    call (set_device_status r.netbox id DeviceStatus.active "") >>= check retry
    release_machines ids

  release_and_record : ClusterClaim → ℕ → Block W Reply Reply
  unfolding release_machines
  release_and_record claim delta = do
    let ids = claim.status.allocated_machine_ids
    release_machines (drop (length ids - delta) ids)
    e ← call (write_status r (with_machines claim (take (length ids - delta) ids)))
    pure (reply_after (pos (5 * minute)) e)

  unfoldable pub scale_down : ClusterClaim → ℕ → Go W Reply
  unfolding scale_down_blocked release_and_record has_rook
  scale_down claim delta = body do
    ap ←
        call (get_addon_profile r.client (named claim.spec.addon_profile portal_system_namespace))
        >>= value_or failure
    if has_rook ap.spec.components then scale_down_blocked claim else release_and_record claim delta

  -- The switch on the desired and the actual number of machines.
  rescale : ClusterClaim → Block W Reply Reply
  unfolding scale_up scale_down
  rescale claim =
      let desired = claim.spec.machine_count in
      let actual = length claim.status.allocated_machine_ids in
      if ltb actual desired
      then call (scale_up claim (desired - actual))
      else (if ltb desired actual
          then call (scale_down claim (actual - desired))
          else pure (reply_after (pos (5 * minute)) none))

  -- The grace period: the deletion once the instant has passed, and a wait until then, of
  -- time.Until(t) + time.Second.
  await_deletion : ClusterClaim → ℤ → Block W Reply Reply
  unfolding ◌+ℤ◌ ◌-ℤ◌ saturate wrap_64
  await_deletion claim t = do
    now ← call (time_now r.client)
    if ltb_ℤ t now
        then call (delete r.client (Object.cluster_claim claim)) >>= (λ e. pure (reply e))
        else call (time_now r.client)
          >>= (λ later. pure (reply_after (wrap_64 (saturate (t -ℤ later) +ℤ pos second)) none))

  -- The instant of the annotation, if there is one that parses.
  unfoldable pub delete_at : ClusterClaim → Option ℤ
  unfolding annotation
  delete_at claim = elim (annotation annotation_delete_at claim.meta.annotations) [
    | none ↦ none
    | some text ↦ r.client.parse_time text
  ]

  unfoldable pub step_reconcile_ready : ClusterClaim → Go W Reply
  unfolding delete_at await_deletion rescale
  step_reconcile_ready claim =
      body (elim (delete_at claim) [ some t ↦ await_deletion claim t | none ↦ rescale claim ])
