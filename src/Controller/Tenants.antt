-- ===== src/Controller/Tenants.antt =====
-- internal/controller/netboxtenant_controller.go: a namespace for each tenant of Netbox.
pub mod Sync
use smeltry_operator.Base.{
  ℕ, zero, suc, String, ◌<>◌, Bool, true, false, Option, none, some, List, [], ◌∷◌, sprint,
  if◌then◌else◌, ℤ, pos, negsuc, ltb_ℤ, ◌*◌,
}
use smeltry_operator.Error.{Error, Result, ok, err}
use smeltry_operator.Api.{named, object_meta}
use smeltry_operator.Netbox.{Tenant, ClientIface}
use smeltry_operator.Kube.{
  Kube, Object, Role, PolicyRule, RoleBinding, RoleRef, Namespace, ResourceQuota,
}
use smeltry_operator.Effect.{
  Go, Block, ◌>>=◌, ◌>>◌, pure, return, call, value_or, check, body, create, get_namespace,
  list_tenants, upsert_quota, upsert_role, upsert_role_binding,
}
use smeltry_operator.Controller.Reply.{Reply, retry, reply_after, second, minute}

pub record NetboxTenantReconciler (W : Type 0) : Type 0 where
  pub client : Kube W
  pub netbox : ClientIface W
  pub poll_interval : ℤ

unfoldable pub tenant_namespace : Tenant → String
tenant_namespace t = "tenant-" <> t.slug

unfoldable pub max_int : ℤ → ℤ → ℤ
max_int a b = if ltb_ℤ b a then a else b

-- fmt.Sprint of an int
sprint_int : ℤ → String
sprint_int (pos n) = sprint n
sprint_int (negsuc n) = "-" <> sprint (suc n)

-- The limits of the quota, as the texts that resource.MustParse is given.
unfoldable pub set_quota : Tenant → ResourceQuota → ResourceQuota
unfolding max_int sprint_int
set_quota t quota = record quota {
  hard =
      ("count/clusterclaims.portal.smeltry.io", sprint_int (max_int t.k8s_max_clusters (pos 1)))
      ∷ ("count/serverclaims.portal.smeltry.io", "10")
      ∷ [];
}

unfoldable pub set_tenant_role : Role → Role
set_tenant_role role = record role {
  rules =
      record {
        api_groups = "portal.smeltry.io" ∷ [];
        resources = "clusterclaims" ∷ "serverclaims" ∷ [];
        verbs = "get" ∷ "list" ∷ "create" ∷ "delete" ∷ [];
        resource_names = [];
      }
      ∷ record {
        api_groups = "" ∷ [];
        resources = "secrets" ∷ [];
        verbs = "get" ∷ [];
        resource_names = [];
      }
      ∷ record {
        api_groups = "portal.smeltry.io" ∷ [];
        resources = "addonprofiles" ∷ "siteconfigs" ∷ [];
        verbs = "get" ∷ "list" ∷ [];
        resource_names = [];
      }
      ∷ [];
}

set_tenant_binding : Tenant → RoleBinding → RoleBinding
set_tenant_binding t rb = record rb {
  subjects = record { kind = "Group"; name = t.slug; api_group = "rbac.authorization.k8s.io" } ∷ [];
  role_ref = record {
    api_group = "rbac.authorization.k8s.io";
    kind = "Role";
    name = "cluster-user";
  };
}

-- fmt.Errorf(what + " %s: %w", nsName, err)
abbrev about : String → String → Error → Option Error
about what ns e = some (Error.wrapped (what <> (" " <> ns)) e)

module _ {W : Type 0} (r : NetboxTenantReconciler W) where
  create_namespace : Tenant → Block W (Option Error) (Unit {0})
  create_namespace t =
      call (
        create r.client (
          Object.namespace (record {
            meta = record (object_meta (tenant_namespace t) "") {
              labels = ("portal.smeltry.io/tenant", t.slug) ∷ [];
            };
          })))
      >>= check (about "create namespace" (tenant_namespace t))

  -- The namespace, which is created if it is not there.
  namespace_or_create : Tenant → Result Namespace → Block W (Option Error) (Unit {0})
  unfolding create_namespace
  namespace_or_create t (ok ns) = pure tt
  namespace_or_create t (err e) =
      if r.client.is_not_found e then create_namespace t else return (some e)

  unfoldable pub reconcile_tenant : Tenant → Go W (Option Error)
  unfolding tenant_namespace namespace_or_create set_quota set_tenant_role set_tenant_binding
  reconcile_tenant t = body do
    found ← call (get_namespace r.client (named (tenant_namespace t) ""))
    namespace_or_create t found
    call (
          upsert_quota r.client
            (record { meta = object_meta "smeltry-quota" (tenant_namespace t); hard = [] })
            (set_quota t))
        >>= check (about "upsert quota in" (tenant_namespace t))
    call (
          upsert_role r.client
            (record { meta = object_meta "cluster-user" (tenant_namespace t); rules = [] })
            set_tenant_role)
        >>= check (about "upsert role in" (tenant_namespace t))
    call (
          upsert_role_binding r.client
            (record {
              meta = object_meta "cluster-user-binding" (tenant_namespace t);
              subjects = [];
              role_ref = record { api_group = ""; kind = ""; name = "" };
            })
            (set_tenant_binding t))
        >>= check (about "upsert rolebinding in" (tenant_namespace t))
    pure none

  -- The loop: the error of a tenant is logged and dropped.
  reconcile_all : List Tenant → Block W Reply (Unit {0})
  unfolding reconcile_tenant
  reconcile_all [] = pure tt
  reconcile_all (t ∷ ts) = call (reconcile_tenant t) >> reconcile_all ts

  unfoldable pub interval : ℤ
  interval = elim r.poll_interval [
    | pos n ↦ elim n [ zero ↦ pos (5 * minute) | suc m ↦ pos (suc m) ]
    | negsuc n ↦ negsuc n
  ]

  unfoldable pub reconcile_tenants : Go W Reply
  unfolding reconcile_all interval
  reconcile_tenants = body do
    tenants ← call (list_tenants r.netbox) >>= value_or retry
    reconcile_all tenants
    pure (reply_after interval none)
