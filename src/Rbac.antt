-- ===== src/Rbac.antt =====
-- internal/rbac/setup.go: the cluster roles and their bindings.
pub mod Order
use smeltry_operator.Base.{String, Option, none, some, List, [], ◌∷◌}
use smeltry_operator.Error.{Error}
use smeltry_operator.Api.{object_meta}
use smeltry_operator.Kube.{Kube, Role, RoleBinding, RoleRef}
use smeltry_operator.Effect.{
  Go, ◌>>=◌, ◌>>◌, pure, call, check, body, upsert_cluster_role, upsert_cluster_role_binding,
}

-- A new ClusterRole, and a new ClusterRoleBinding.
abbrev no_role : String → Role
no_role name = record { meta = object_meta name ""; rules = [] }

abbrev no_binding : String → RoleBinding
no_binding name = record {
  meta = object_meta name "";
  subjects = [];
  role_ref = record { api_group = ""; kind = ""; name = "" };
}

admin_rules : Role → Role
admin_rules role = record role {
  rules =
      record {
        api_groups = "portal.smeltry.io" ∷ [];
        resources = "*" ∷ [];
        verbs = "*" ∷ [];
        resource_names = [];
      }
      ∷ [];
}

reader_rules : Role → Role
reader_rules role = record role {
  rules =
      record {
        api_groups = "portal.smeltry.io" ∷ [];
        resources = "addonprofiles" ∷ "siteconfigs" ∷ [];
        verbs = "get" ∷ "list" ∷ "watch" ∷ [];
        resource_names = [];
      }
      ∷ [];
}

-- A binding of a ClusterRole to a group.
bind_group : String → String → RoleBinding → RoleBinding
bind_group role group binding = record binding {
  role_ref = record { api_group = "rbac.authorization.k8s.io"; kind = "ClusterRole"; name = role };
  subjects = record { api_group = "rbac.authorization.k8s.io"; kind = "Group"; name = group } ∷ [];
}

module _ {W : Type 0} (k : Kube W) where
  ensure_admin_role : Go W (Option Error)
  unfolding admin_rules
  ensure_admin_role = upsert_cluster_role k (no_role "smeltry-admin") admin_rules

  ensure_catalog_reader_role : Go W (Option Error)
  unfolding reader_rules
  ensure_catalog_reader_role = upsert_cluster_role k (no_role "smeltry-catalog-reader") reader_rules

  ensure_admin_binding : Go W (Option Error)
  unfolding bind_group
  ensure_admin_binding =
      upsert_cluster_role_binding k (no_binding "smeltry-admins")
        (bind_group "smeltry-admin" "smeltry-admins")

  ensure_catalog_reader_binding : Go W (Option Error)
  unfolding bind_group
  ensure_catalog_reader_binding =
      upsert_cluster_role_binding k (no_binding "smeltry-catalog-readers")
        (bind_group "smeltry-catalog-reader" "system:authenticated")

  unfoldable pub ensure_cluster_rbac : Go W (Option Error)
  unfolding ensure_admin_role ensure_catalog_reader_role ensure_admin_binding
      ensure_catalog_reader_binding
  ensure_cluster_rbac = body do
    call ensure_admin_role >>= check some
    call ensure_catalog_reader_role >>= check some
    call ensure_admin_binding >>= check some
    call ensure_catalog_reader_binding
