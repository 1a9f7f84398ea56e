-- ===== src/Controller/Cluster/Capi.antt =====
-- ensureCAPIObjects: the objects from which CAPI, Kamaji and CAPT build the cluster.
mod Values
pub mod Phases
pub mod Recorded
pub mod Calls
use smeltry_operator.Base.{
  ℤ, String, ◌<>◌, int32, true, false, Option, none, some, List, [], ◌∷◌, str_eq, quote,
  if◌then◌else◌,
}
use smeltry_operator.Error.{Error, ok, err}
use smeltry_operator.Api.{
  ObjectMeta, ClusterClaim, ClusterClaimPhase, SiteConfig, ConditionStatus, condition_capi_ready,
  named, object_meta,
}
use smeltry_operator.Kube.{Value, Fields, Object, Unstructured, Cluster, MachineDeployment, Service}
use smeltry_operator.Effect.{
  Go, Block, ◌>>=◌, ◌>>◌, pure, call, value_or, check, return_if, body, time_now, get_unstructured,
  get_cluster, create, upsert_cluster, upsert_machine_deployment, upsert_service,
}
use smeltry_operator.Controller.Utility.{set_condition, tenant_from_namespace}
use smeltry_operator.Controller.Cluster.Defs.{ClusterClaimReconciler, with_phase}
unfoldable pub use Values.*

module _ {W : Type 0} (r : ClusterClaimReconciler W) where
  -- The object is created if it is not there, and is left alone if it is.
  unfoldable pub apply_unstructured : Unstructured → Go W (Option Error)
  apply_unstructured obj = body do
    existing ← call (get_unstructured r.client obj.gvk (named obj.meta.name obj.meta.namespace))
    elim existing [
      | ok _ ↦ pure none
      | err e ↦
          if r.client.is_not_found e
          then call (create r.client (Object.unstructured obj))
          else pure (some e)
    ]

  -- ctrl.SetControllerReference(claim, obj, r.Scheme)
  owned : ClusterClaim → ObjectMeta → Block W Done ObjectMeta
  owned claim meta = value_or err (r.client.set_controller_reference claim.meta meta)

  -- unstructured.SetNestedField(obj.Object, value, path...)
  nested : Value → List String → Fields → Block W Done Fields
  nested value path content = value_or err (r.client.set_nested_field content value path)

  ensure_control_plane : ClusterClaim → SiteConfig → Block W Done (Unit {0})
  unfolding owned nested endpoint oidc_arguments apply_unstructured
  ensure_control_plane claim site = do
    meta ← owned claim (object_meta (tcp_name claim) claim.meta.namespace)
    content ←
        nested (Value.object (Fields.field "endpoint" (endpoint claim) Fields.end))
          ("spec" ∷ "controlPlane" ∷ []) Fields.end
    content' ← nested (oidc_arguments site) ("spec" ∷ "addons" ∷ "apiServerArguments" ∷ []) content
    call (apply_unstructured (record { gvk = tcp_kind; meta = meta; content = content' }))
        >>= check (wrap "TenantControlPlane")

  ensure_tinkerbell_cluster : ClusterClaim → Block W Done (Unit {0})
  unfolding owned nested endpoint apply_unstructured
  ensure_tinkerbell_cluster claim = do
    meta ← owned claim (object_meta (infra_name claim) claim.meta.namespace)
    content ← nested (endpoint claim) ("spec" ∷ "controlPlaneEndpoint" ∷ []) Fields.end
    call (
          apply_unstructured
            (record { gvk = tinkerbell_kind "TinkerbellCluster"; meta = meta; content = content }))
        >>= check (wrap "TinkerbellCluster")

  set_cluster_refs : ClusterClaim → Cluster → Cluster
  set_cluster_refs claim c = record c {
    infrastructure_ref = some (record {
      api_version = "infrastructure.cluster.x-k8s.io/v1beta1";
      kind = "TinkerbellCluster";
      name = infra_name claim;
      namespace = claim.meta.namespace;
    });
    control_plane_ref = some (record {
      api_version = "kamaji.clastix.io/v1alpha1";
      kind = "TenantControlPlane";
      name = tcp_name claim;
      namespace = claim.meta.namespace;
    });
  }

  ensure_cluster : ClusterClaim → Block W Done (Unit {0})
  unfolding owned set_cluster_refs tenant_from_namespace
  ensure_cluster claim = do
    meta ← owned claim (record (object_meta claim.meta.name claim.meta.namespace) {
      labels =
          ("portal.smeltry.io/tenant", tenant_from_namespace claim.meta.namespace)
          ∷ ("portal.smeltry.io/site", claim.spec.site)
          ∷ ("portal.smeltry.io/addon-profile", claim.spec.addon_profile)
          ∷ ("cluster-api.cattle.io/rancher-auto-import", "true")
          ∷ [];
    })
    call (
          upsert_cluster r.client
            (record {
              meta = meta;
              infrastructure_ref = none;
              control_plane_ref = none;
              control_plane_ready = false;
            })
            (set_cluster_refs claim))
        >>= check (wrap "Cluster")

  ensure_machine_template : ClusterClaim → Block W Done (Unit {0})
  unfolding owned nested apply_unstructured
  ensure_machine_template claim = do
    meta ← owned claim (object_meta (machine_template_name claim) claim.meta.namespace)
    content ← nested (Value.object Fields.end) ("spec" ∷ "template" ∷ "spec" ∷ []) Fields.end
    call (
          apply_unstructured (record {
            gvk = tinkerbell_kind "TinkerbellMachineTemplate";
            meta = meta;
            content = content;
          }))
        >>= check (wrap "TinkerbellMachineTemplate")

  set_deployment : ClusterClaim → MachineDeployment → MachineDeployment
  set_deployment claim md = record md {
    cluster_name = claim.meta.name;
    replicas = some (int32 claim.spec.machine_count);
    template_cluster_name = claim.meta.name;
    template_infrastructure_ref = some (record {
      api_version = "infrastructure.cluster.x-k8s.io/v1beta1";
      kind = "TinkerbellMachineTemplate";
      name = machine_template_name claim;
      namespace = claim.meta.namespace;
    });
  }

  ensure_machine_deployment : ClusterClaim → Block W Done (Unit {0})
  unfolding owned set_deployment int32
  ensure_machine_deployment claim = do
    meta ← owned claim (object_meta (claim.meta.name <> "-md") claim.meta.namespace)
    call (
          upsert_machine_deployment r.client
            (record {
              meta = meta;
              cluster_name = "";
              replicas = none;
              template_cluster_name = "";
              template_infrastructure_ref = none;
            })
            (set_deployment claim))
        >>= check (wrap "MachineDeployment")

  set_service : ClusterClaim → SiteConfig → Service → Service
  set_service claim site svc = record svc {
    meta = record (svc.meta) {
      annotations =
          ("io.cilium/lb-ipam-ips", claim.status.control_plane_ip)
          ∷ ("io.cilium/lb-ipam-pool", site.spec.cilium.l2_pool_name)
          ∷ [];
    };
    type = "LoadBalancer";
    selector = ("kamaji.clastix.io/name", tcp_name claim) ∷ [];
    ports = record { name = "apiserver"; port = 6443; protocol = "TCP" } ∷ [];
  }

  ensure_service : ClusterClaim → SiteConfig → Block W Done (Unit {0})
  unfolding owned set_service
  ensure_service claim site = do
    meta ← owned claim (object_meta (tcp_name claim <> "-lb") claim.meta.namespace)
    call (
          upsert_service r.client (record { meta = meta; type = ""; selector = []; ports = [] })
            (set_service claim site))
        >>= check (wrap "LoadBalancer Service")

  with_cluster_ref : ClusterClaim → ClusterClaim
  with_cluster_ref claim = record claim {
    status = record (claim.status) { cluster_ref = some claim.meta.name };
  }

  with_control_plane_ready : ClusterClaim → ℤ → ClusterClaim
  unfolding set_condition
  with_control_plane_ready claim now =
      set_condition (with_phase claim ClusterClaimPhase.cluster_ready) condition_capi_ready
        ConditionStatus.condition_true "ControlPlaneReady" "CAPI cluster control plane is ready" now

  -- Whether the control plane is ready, and the claim with its phase.
  observe_control_plane : ClusterClaim → Block W Done Done
  unfolding with_control_plane_ready
  observe_control_plane claim = do
    existing ←
        call (get_cluster r.client (named claim.meta.name claim.meta.namespace)) >>= value_or err
    if existing.control_plane_ready
        then call (time_now r.client)
          >>= (λ now. pure (ok (true, with_control_plane_ready claim now)))
        else pure (ok (false, claim))

  unfoldable pub ensure_capi_objects : ClusterClaim → SiteConfig → Go W Done
  unfolding ensure_control_plane ensure_tinkerbell_cluster ensure_cluster ensure_machine_template
      ensure_machine_deployment ensure_service with_cluster_ref observe_control_plane
  ensure_capi_objects claim site = body do
    return_if (str_eq site.spec.oidc.issuer_url "") (
        err (
          Error.message
            ("SiteConfig " <> (quote claim.spec.site <> " has empty OIDC configuration"))))
    ensure_control_plane claim site
    ensure_tinkerbell_cluster claim
    ensure_cluster claim
    ensure_machine_template claim
    ensure_machine_deployment claim
    ensure_service claim site
    observe_control_plane (with_cluster_ref claim)
