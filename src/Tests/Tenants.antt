-- ===== src/Tests/Tenants.antt =====
-- A sync of two tenants, of which the first has a limit that is no limit.
use smeltry_operator.Base.{◌≡◌, refl, List, String, true, [], ◌∷◌, pos, negsuc}
use smeltry_operator.Api.{ClusterClaimPhase}
use smeltry_operator.Netbox.{Tenant}
use smeltry_operator.Netbox.Fake
use smeltry_operator.Effect.{Event}
use smeltry_operator.Controller.Cluster.Kubeconfig.{grant_secret}
use smeltry_operator.Controller.Tenants.{NetboxTenantReconciler, set_tenant_role, reconcile_tenants}
use smeltry_operator.Controller.Tenants.Sync.{
  SyncsOf, readable, Narrows, set_tenant_role-contract, reconcile_tenants-reaches_all,
}
use smeltry_operator.Tests.World.{kube, claim_in, done_job, netbox, user_role}

abbrev acme : Tenant
acme = record {
  id = 1;
  name = "Acme";
  slug = "acme";
  k8s_max_clusters = negsuc 0;
  k8s_max_nodes = pos 3;
}

abbrev globex : Tenant
globex = record {
  id = 2;
  name = "Globex";
  slug = "globex";
  k8s_max_clusters = pos 4;
  k8s_max_nodes = pos 3;
}

abbrev two_tenants : Fake.Client
two_tenants = record netbox { tenants = acme ∷ globex ∷ [] }

abbrev syncer : NetboxTenantReconciler Fake.Client
syncer = record {
  client = kube (claim_in ClusterClaimPhase.ready) done_job;
  netbox = Fake.fake_client;
  poll_interval = pos 0;
}

set_tenant_role-contract_example :
    ((other : String) → readable (set_tenant_role user_role).rules other ≡ true)
    × Narrows "prod-kubeconfig" (grant_secret "prod-kubeconfig" (set_tenant_role user_role).rules)
set_tenant_role-contract_example = set_tenant_role-contract "prod-kubeconfig" user_role

reconcile_tenants-reaches_all_example :
    (rest : List Event) × ((reconcile_tenants syncer two_tenants).1 ≡ Event.list_tenants ∷ rest)
    × SyncsOf syncer (acme ∷ globex ∷ []) two_tenants rest
unfolding Fake.list_tenants
reconcile_tenants-reaches_all_example = reconcile_tenants-reaches_all syncer two_tenants refl
