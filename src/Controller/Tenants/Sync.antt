-- ===== src/Controller/Tenants/Sync.antt =====
-- What a sync of the tenants reaches, and what it does to the Secrets that were granted.
use mathlib.Core.List.{append-nil}
use smeltry_operator.Base.{
  Bool, true, false, Option, some, none, ◌||◌, ◌&&◌, ◌≡◌, refl, String, List, [], ◌∷◌, ◌++◌, ap,
  arith, str_eq, if◌then◌else◌,
}
use smeltry_operator.Error.{Result, ok, err}
use smeltry_operator.Api.{named}
use smeltry_operator.Netbox.{Tenant}
use smeltry_operator.Kube.{Role, PolicyRule, Object, Namespace}
use smeltry_operator.Effect.{Event, body, next, ◌>>=◌}
use smeltry_operator.Controller.Utility.{
  tenant_from_namespace, contains_string, rules_covers_secrets,
}
use smeltry_operator.Controller.Utility.Strings.{tenant_from_namespace-slug}
use smeltry_operator.Controller.Cluster.Kubeconfig.{Grant, grant_secret}
use smeltry_operator.Controller.Cluster.Deletion.Revocation.{grant_secret-Reverts}
use smeltry_operator.Controller.Cluster.Deletion.{revoke_secret}
use smeltry_operator.Controller.Tenants.{
  NetboxTenantReconciler, tenant_namespace, set_tenant_role, set_quota, set_tenant_binding,
  reconcile_tenant, reconcile_all, reconcile_tenants,
}

-- What a sync makes for a tenant.
pub data Part : Type 0 where
  space_part quota_part role_part binding_part : Part

-- What a call makes, and in which namespace.
abbrev pub made : Event → Option (Part × String)
made (Event.create (Object.namespace ns) _) = some (Part.space_part, ns.meta.name)
made (Event.upsert (Object.resource_quota q) _) = some (Part.quota_part, q.meta.namespace)
made (Event.upsert (Object.role r) _) = some (Part.role_part, r.meta.namespace)
made (Event.upsert (Object.role_binding b) _) = some (Part.binding_part, b.meta.namespace)
made _ = none

abbrev pub failed : Event → Bool
failed (Event.create _ (some _)) = true
failed (Event.upsert _ (some _)) = true
failed _ = false

-- The calls make these parts in the namespace, in order, up to the first call that fails.
abbrev pub Makes : String → List Part → List Event → Type 0
Makes ns [] es = es ≡ []
Makes ns (part ∷ parts) [] = ⊥
Makes ns (part ∷ parts) (e ∷ es) =
    (made e ≡ some (part, ns)) × (if failed e then es ≡ [] else Makes ns parts es)

-- The namespace of a tenant gives its slug back.
pub tenant_from_namespace-tenant_namespace :
    (t : Tenant) → tenant_from_namespace (tenant_namespace t) ≡ t.slug
unfolding tenant_namespace
tenant_from_namespace-tenant_namespace t = tenant_from_namespace-slug t.slug

-- What Kubernetes documents of a rule: it holds for the verbs, the API groups and the resources that
-- it lists, or for all where it lists "*", and for the names that it lists, or for all names where
-- it lists none.
abbrev pub covers : List String → String → Bool
unfolding contains_string
covers listed x = contains_string listed x || contains_string listed "*"

abbrev pub covers_name : List String → String → Bool
unfolding contains_string
covers_name [] name = true
covers_name (n ∷ ns) name = contains_string (n ∷ ns) name

abbrev pub permits_get : PolicyRule → String → Bool
permits_get rule name =
    covers rule.verbs "get"
    && (covers rule.api_groups ""
        && (covers rule.resources "secrets" && covers_name rule.resource_names name))

-- Whether a Role with these rules lets its subjects read the Secret of this name.
abbrev pub readable : List PolicyRule → String → Bool
readable [] name = false
readable (rule ∷ rules) name = permits_get rule name || readable rules name

-- A grant of the name adds it to a rule and leaves that one Secret readable and no other, and when
-- the name is taken out again, every Secret is readable.
abbrev pub Narrows : String → Grant → Type 0
Narrows name Grant.no_rule = ⊥
Narrows name Grant.present = ⊥
Narrows name (Grant.added rules) =
    (other : String)
    → (readable rules other ≡ str_eq name other)
      × (readable (revoke_secret name rules) other ≡ true)

or_nothing : (b : Bool) → ((b || false) || false) ≡ b
or_nothing b = ground arith

-- With the rules that a sync writes into the Role of a tenant, whatever the Role was before, the
-- tenant may read every Secret of its namespace; the grant of a Secret by stepExposeKubeconfig
-- finds its rule in them, and with the rules it makes the tenant may read that Secret and no other;
-- when the finalizer has taken the name out of these, the tenant may read every Secret again.
pub set_tenant_role-contract :
    (name : String) (role : Role)
    → ((other : String) → readable (set_tenant_role role).rules other ≡ true)
      × Narrows name (grant_secret name (set_tenant_role role).rules)
unfolding set_tenant_role contains_string rules_covers_secrets grant_secret
set_tenant_role-contract name role =
    let rules = (set_tenant_role role).rules in
    let back : revoke_secret name _ ≡ rules = grant_secret-Reverts name rules (ground arith) in
    (λ other. refl, λ other. (or_nothing (str_eq name other), ap (λ l. readable l other) back))

module _ {W : Type 0} (r : NetboxTenantReconciler W) where
  abbrev pub namespace_of : Tenant → W → Result Namespace
  namespace_of t w = (r.client.get_namespace (named (tenant_namespace t) "") w).0

  -- The calls behind the lookup of a tenant's namespace, by its answer.
  abbrev pub Follows : Tenant → Result Namespace → List Event → Type 0
  Follows t (ok ns) es =
      Makes (tenant_namespace t) (Part.quota_part ∷ Part.role_part ∷ Part.binding_part ∷ []) es
  Follows t (err e) es =
      if r.client.is_not_found e
      then Makes (tenant_namespace t)
          (Part.space_part ∷ Part.quota_part ∷ Part.role_part ∷ Part.binding_part ∷ []) es
      else es ≡ []

  -- The calls of a tenant: the lookup, and what follows it.
  abbrev pub SyncOf : Tenant → W → List Event → Type 0
  SyncOf t w [] = ⊥
  SyncOf t w (e ∷ es) =
      (e ≡ Event.get "Namespace" (named (tenant_namespace t) "")) × Follows t (namespace_of t w) es

  -- The calls of the tenants one after another, each from the state that the one before has left.
  abbrev pub SyncsOf : List Tenant → W → List Event → Type 0
  SyncsOf [] w es = es ≡ []
  SyncsOf (t ∷ ts) w es =
      (own : List Event) × (others : List Event) × (es ≡ own ++ others)
      × SyncOf t w own
      × SyncsOf ts (reconcile_tenant r t w).2 others

  reconcile_tenant-SyncOf : (t : Tenant) (w : W) → SyncOf t w (reconcile_tenant r t w).1
  unfolding body reconcile_tenant set_quota set_tenant_role set_tenant_binding
  reconcile_tenant-SyncOf t w = ground arith

  reconcile_all-next : (ts : List Tenant) (w : W) → (reconcile_all r ts w).0 ≡ next tt
  unfolding body reconcile_all
  reconcile_all-next [] w = refl
  reconcile_all-next (t ∷ ts) w = reconcile_all-next ts _

  reconcile_all-SyncsOf : (ts : List Tenant) (w : W) → SyncsOf ts w (reconcile_all r ts w).1
  unfolding ◌>>=◌ reconcile_all
  reconcile_all-SyncsOf [] w = refl
  reconcile_all-SyncsOf (t ∷ ts) w =
      let (answer, own, w') = reconcile_tenant r t w in
      (
        own,
        (reconcile_all r ts w').1,
        refl,
        reconcile_tenant-SyncOf t w,
        reconcile_all-SyncsOf ts w',
      )

  -- When Netbox lists its tenants, a sync does the same for each of them, in order, whatever has
  -- failed for those before: it looks up the namespace, creates it if it is not there, and writes
  -- the quota, the Role and the RoleBinding in it, in this order, and it leaves a tenant early only
  -- where one of these calls returns an error.
  pub reconcile_tenants-reaches_all :
      (w : W) {tenants : List Tenant}
      → (r.netbox.list_tenants w).0 ≡ ok tenants
      → (rest : List Event) × ((reconcile_tenants r w).1 ≡ Event.list_tenants ∷ rest)
        × SyncsOf tenants (r.netbox.list_tenants w).1 rest
  unfolding ◌>>=◌ body reconcile_tenants
  reconcile_tenants-reaches_all w {tenants} e =
      let w' = (r.netbox.list_tenants w).1 in
      (
        (reconcile_all r tenants w').1,
        rw e (
            rw reconcile_all-next
              (ap (λ l. Event.list_tenants ∷ l) (append-nil (reconcile_all r tenants w').1))),
        reconcile_all-SyncsOf tenants w',
      )
