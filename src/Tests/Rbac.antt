-- ===== src/Tests/Rbac.antt =====
-- The cluster roles at the small installation.
use smeltry_operator.Base.{[]}
use smeltry_operator.Api.{ClusterClaimPhase}
use smeltry_operator.Rbac.{ensure_cluster_rbac}
use smeltry_operator.Rbac.Order.{RolesFirst, StopsAtError, ensure_cluster_rbac-StopsAtError}
use smeltry_operator.Tests.World.{kube, claim_in, done_job, netbox}

ensure_cluster_rbac-StopsAtError_example :
    let (answer, events, _) =
      ensure_cluster_rbac (kube (claim_in ClusterClaimPhase.ready) done_job) netbox in
    StopsAtError 4 events answer × RolesFirst [] events
ensure_cluster_rbac-StopsAtError_example =
    ensure_cluster_rbac-StopsAtError (kube (claim_in ClusterClaimPhase.ready) done_job) netbox
