-- ===== src/Controller/Cluster/Addons.antt =====
-- stepWatchAddons: a HelmRelease for each component of the profile, in order, until the required
-- ones are ready.
pub mod Order
pub mod Releases
pub mod Application
pub mod Attention
pub mod Phases
use smeltry_operator.Base.{
  ℕ, String, ◌<>◌, Bool, true, false, not, Option, none, some, List, [], ◌∷◌, ◌&&◌, ltb, ◌==◌,
  str_eq, if◌then◌else◌, pos, ◌*◌,
}
use smeltry_operator.Error.{Error, Result, ok, err}
use smeltry_operator.Api.{
  ClusterClaim, ClusterClaimPhase, AddonComponent, ConditionStatus, OsdDevices,
  condition_addons_ready, named, object_meta,
}
use smeltry_operator.Kube.{Value, Fields, GroupVersionKind}
use smeltry_operator.Effect.{
  Go, Block, ◌>>=◌, ◌>>◌, pure, return, call, value_or, check, return_if, body, time_now,
  get_addon_profile, get_unstructured,
}
use smeltry_operator.Controller.Reply.{Reply, failure, retry, reply_requeue, reply_after, second}
use smeltry_operator.Controller.Utility.{set_condition}
use smeltry_operator.Controller.Cluster.Defs.{
  ClusterClaimReconciler, portal_system_namespace, with_phase, write_status,
}
use smeltry_operator.Controller.Cluster.Capi.{apply_unstructured}

-- sort.Slice by Order. Go leaves the order of equal components open; up to twelve of them it sorts
-- by insertion, which keeps it.
insert_component : AddonComponent → List AddonComponent → List AddonComponent
insert_component c [] = c ∷ []
insert_component c (d ∷ ds) = if ltb d.order c.order then d ∷ insert_component c ds else c ∷ d ∷ ds

unfoldable pub sort_components : List AddonComponent → List AddonComponent
unfolding insert_component
sort_components [] = []
sort_components (c ∷ cs) = insert_component c (sort_components cs)

device_lines : List String → String
device_lines [] = ""
device_lines (d ∷ ds) = "      - name: " <> (d <> ("\n" <> device_lines ds))

node_lines : OsdDevices → String
unfolding device_lines
node_lines [] = ""
node_lines ((node, disks) ∷ rest) =
    "    - name: \"worker-"
    <> (node <> ("\"\n      devices:\n" <> (device_lines disks <> node_lines rest)))

-- buildRookValues, on the entries in the order of its range loop.
unfoldable pub build_rook_values : OsdDevices → String
unfolding node_lines
build_rook_values osds = "ceph:\n  storage:\n    nodes:\n" <> node_lines osds

abbrev pub helm_release_kind : GroupVersionKind
helm_release_kind = record {
  group = "addons.stackhpc.com";
  version = "v1alpha1";
  kind = "HelmRelease";
}

abbrev is_empty : OsdDevices → Bool
is_empty [] = true
is_empty (_ ∷ _) = false

module _ {W : Type 0} (r : ClusterClaimReconciler W) where
  unfoldable pub helm_values : ClusterClaim → AddonComponent → String
  unfolding build_rook_values
  helm_values claim comp =
      if str_eq comp.name "rook-ceph" && not (is_empty claim.status.osd_devices)
      then comp.helm_ref.values
        <> ("\n" <> build_rook_values (r.range_order claim.status.osd_devices))
      else comp.helm_ref.values

  nested : Value → List String → Fields → Block W (Option Error) Fields
  nested value path content = value_or some (r.client.set_nested_field content value path)

  unfoldable pub ensure_helm_release : ClusterClaim → AddonComponent → Go W (Option Error)
  unfolding helm_values nested apply_unstructured
  ensure_helm_release claim comp = body do
    meta ← value_or some (
        r.client.set_controller_reference claim.meta
          (object_meta (claim.meta.name <> ("-" <> comp.name)) claim.meta.namespace))
    c₁ ← nested (Value.text claim.meta.name) ("spec" ∷ "clusterName" ∷ []) Fields.end
    c₂ ← nested (Value.text comp.helm_ref.repo_url) ("spec" ∷ "chart" ∷ "repo" ∷ []) c₁
    c₃ ← nested (Value.text comp.helm_ref.chart_name) ("spec" ∷ "chart" ∷ "name" ∷ []) c₂
    c₄ ← nested (Value.text comp.helm_ref.chart_version) ("spec" ∷ "chart" ∷ "version" ∷ []) c₃
    c₅ ← nested (Value.text (helm_values claim comp)) ("spec" ∷ "values" ∷ []) c₄
    c₆ ← nested (Value.boolean (comp.order == 1)) ("spec" ∷ "bootstrap" ∷ []) c₅
    call (apply_unstructured r (record { gvk = helm_release_kind; meta = meta; content = c₆ }))

  unfoldable pub helm_release_ready : ClusterClaim → String → Go W (Result Bool)
  helm_release_ready claim name = body do
    found ← call (
        get_unstructured r.client helm_release_kind
          (named (claim.meta.name <> ("-" <> name)) claim.meta.namespace))
    elim found [
      | ok hr ↦ pure (ok (r.client.nested_bool hr.content ("status" ∷ "ready" ∷ [])))
      | err e ↦ elim (r.client.ignore_not_found e) [
        | none ↦ pure (ok false)
        | some e' ↦ pure (err e')
      ]
    ]

  -- The loop that applies every component.
  ensure_all : ClusterClaim → List AddonComponent → Block W Reply (Unit {0})
  unfolding ensure_helm_release
  ensure_all claim [] = pure tt
  ensure_all claim (comp ∷ comps) = do
    call (ensure_helm_release claim comp) >>= check retry
    ensure_all claim comps

  -- A required component, and the rest of the loop from its answer.
  require : ClusterClaim → String → (Bool → Block W Reply Bool) → Block W Reply Bool
  unfolding helm_release_ready
  require claim name rest = call (helm_release_ready claim name) >>= value_or retry >>= rest

  -- The loop over the required components, with allReady.
  all_ready : ClusterClaim → List AddonComponent → Bool → Block W Reply Bool
  unfolding require
  all_ready claim [] so_far = pure so_far
  all_ready claim (comp ∷ comps) so_far =
      let rest = all_ready claim comps so_far in
      let checked = require claim comp.name (λ ready. all_ready claim comps (so_far && ready)) in
      if comp.required then checked else rest

  unfoldable pub step_watch_addons : ClusterClaim → Go W Reply
  unfolding ensure_all all_ready sort_components set_condition
  step_watch_addons claim = body do
    ap ←
        call (get_addon_profile r.client (named claim.spec.addon_profile portal_system_namespace))
        >>= value_or failure
    let components = sort_components ap.spec.components
    ensure_all claim components
    ready ← all_ready claim components true
    return_if (not ready) (reply_after (pos (30 * second)) none)
    now ← call (time_now r.client)
    e ← call (
        write_status r (
          set_condition (with_phase claim ClusterClaimPhase.addons_ready) condition_addons_ready
            ConditionStatus.condition_true "AllAddonsReady" "all required HelmReleases are ready"
            now))
    pure (reply_requeue e)
