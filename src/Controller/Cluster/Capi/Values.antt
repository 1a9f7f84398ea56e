-- ===== src/Controller/Cluster/Capi/Values.antt =====
-- ensureCAPIObjects: its results, and the names and contents of the objects.
use smeltry_operator.Base.{String, ◌<>◌, Bool}
use smeltry_operator.Error.{Error, Result, err}
use smeltry_operator.Api.{ClusterClaim, SiteConfig}
use smeltry_operator.Kube.{Value, Items, Fields, GroupVersionKind}

-- (phaseChanged, err), with the claim as the function leaves it
abbrev pub Done : Type 0
Done = Result (Bool × ClusterClaim)

abbrev pub wrap : String → Error → Done
wrap what e = err (Error.wrapped what e)

abbrev pub tcp_name : ClusterClaim → String
tcp_name claim = claim.meta.name <> "-control-plane"

abbrev pub infra_name : ClusterClaim → String
infra_name claim = claim.meta.name <> "-infra"

abbrev pub machine_template_name : ClusterClaim → String
machine_template_name claim = claim.meta.name <> "-mt"

abbrev pub tcp_kind : GroupVersionKind
tcp_kind = record { group = "kamaji.clastix.io"; version = "v1alpha1"; kind = "TenantControlPlane" }

abbrev pub tinkerbell_kind : String → GroupVersionKind
tinkerbell_kind kind = record {
  group = "infrastructure.cluster.x-k8s.io";
  version = "v1beta1";
  kind = kind;
}

-- host and port of the API server
unfoldable pub endpoint : ClusterClaim → Value
endpoint claim = Value.object (
    Fields.field "host" (Value.text claim.status.control_plane_ip)
      (Fields.field "port" (Value.int64 6443) Fields.end))

argument : String → String → Items → Items
argument name value = Items.cons (
    Value.object
      (Fields.field "name" (Value.text name) (Fields.field "value" (Value.text value) Fields.end)))

unfoldable pub oidc_arguments : SiteConfig → Value
unfolding argument
oidc_arguments site = Value.slice (
    argument "--oidc-issuer-url" site.spec.oidc.issuer_url (
      argument "--oidc-client-id" site.spec.oidc.client_id (
        argument "--oidc-username-claim" site.spec.oidc.username_claim
          (argument "--oidc-groups-claim" site.spec.oidc.groups_claim Items.nil))))
