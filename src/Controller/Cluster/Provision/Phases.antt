-- ===== src/Controller/Cluster/Provision/Phases.antt =====
-- What stepProvision does behind the two addresses, and the lifecycle.
use smeltry_operator.Base.{ℕ, zero, suc, Option, List, [], ◌∷◌}
use smeltry_operator.Error.{Error}
use smeltry_operator.Api.{ClusterClaim, SiteConfig}
use smeltry_operator.Netbox.{Device}
use smeltry_operator.Kube.{Object}
use smeltry_operator.Controller.Audit.{emit_audit_event-Emits}
use smeltry_operator.Effect.{Event}
use smeltry_operator.Effect.Emits.{
  Any, Runs, Runs-bind, Runs-call, Runs-pure, Runs-checked, Runs-valued, Emits-logged, Runs-if,
}
use smeltry_operator.Controller.Reply.{failure, retry}
use smeltry_operator.Controller.Cluster.Defs.{ClusterClaimReconciler}
use smeltry_operator.Controller.Cluster.Lifecycle.{Follows, Lifecycle, Same}
use smeltry_operator.Controller.Cluster.Provision.{
  Allocation, allocate_machines, allocate_all, ensure_machines,
}

module _ {W : Type 0} (r : ClusterClaimReconciler W) (old : ClusterClaim) where
  abbrev P : Event → Type 0
  P = Follows old

  write :
      (claim : ClusterClaim)
      → Same old claim
      → (e : Option Error) → P (Event.update_status (Object.cluster_claim claim) e)
  write claim h e = (rw h.0 (Lifecycle.stay old.status.phase), h.1, h.2, h.3)

  allocate_machines-Runs :
      (claim : ClusterClaim) (wanted : ℕ) (machines : List Device) (a : Allocation)
      → Runs P Any Any (allocate_machines r claim wanted machines a)
  unfolding allocate_machines
  allocate_machines-Runs claim zero machines a = Runs-pure P Any Any a tt
  allocate_machines-Runs claim (suc wanted) [] a = Runs-pure P Any Any a tt
  allocate_machines-Runs claim (suc wanted) (m ∷ machines) a =
      Runs-bind P Any Any Any _ _ (Runs-checked P Any _ retry (Emits-logged P _ _ λ _. tt) λ _. tt)
        λ _ _.
          Runs-bind P Any Any Any _ _
            (Runs-call P Any Any _ (emit_audit_event-Emits P _ _ _ _ λ _ _. tt))
            λ _ _.
              Runs-bind P Any Any Any _ _
                (Runs-valued P Any _ retry (Emits-logged P _ _ λ _. tt) λ _. tt)
                λ disks _. allocate_machines-Runs claim wanted machines _

  allocate_all-Runs :
      (claim : ClusterClaim) (site : SiteConfig)
      → Same old claim
      → Runs P Any (Same old) (allocate_all r claim site)
  unfolding allocate_all
  allocate_all-Runs claim site h =
      Runs-bind P Any Any (Same old) _ _
        (Runs-valued P Any _ retry (Emits-logged P _ _ λ _. tt) λ _. tt)
        λ machines _.
          Runs-bind P Any Any (Same old) _ _ (allocate_machines-Runs claim _ machines _) λ a _.
            Runs-bind P Any Any (Same old) _ _
              (Runs-checked P Any _ failure (Emits-logged P _ _ λ e. write claim h e) λ _. tt)
              λ _ _. Runs-pure P Any (Same old) _ h

  pub ensure_machines-Runs :
      (claim : ClusterClaim) (site : SiteConfig)
      → Same old claim
      → Runs P Any (Same old) (ensure_machines r claim site)
  unfolding ensure_machines
  ensure_machines-Runs claim site h =
      Runs-if _ _ _ (allocate_all-Runs claim site h) (Runs-pure P Any (Same old) claim h)
