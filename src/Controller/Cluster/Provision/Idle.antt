-- ===== src/Controller/Cluster/Provision/Idle.antt =====
-- A claim that has everything takes nothing more.
use smeltry_operator.Base.{All, arith}
use smeltry_operator.Api.{ClusterClaim, SiteConfig}
use smeltry_operator.Effect.{Event, body}
use smeltry_operator.Effect.Emits.{
  Emits, Any, Emits-body, Runs, Runs-bind, Runs-valued, Runs-call, Runs-pure, Emits-logged,
  Emits-silent,
}
use smeltry_operator.Controller.Reply.{failure}
use smeltry_operator.Controller.Addresses.{TakesNothing}
use smeltry_operator.Controller.Cluster.Defs.{ClusterClaimReconciler}
use smeltry_operator.Controller.Cluster.Capi.Calls.{ensure_capi_objects-TakesNothing}
use smeltry_operator.Controller.Cluster.Provision.{
  ensure_control_plane_ip, ensure_webhook_ip, ensure_machines, ensure_job, finish_provision,
  step_provision,
}
use smeltry_operator.Controller.Cluster.Provision.Waiting.{IsAllocated}

module _ {W : Type 0} (r : ClusterClaimReconciler W) (claim : ClusterClaim) where
  ensure_job-TakesNothing :
      (site : SiteConfig) → Runs TakesNothing Any Any (ensure_job r claim site)
  unfolding body ensure_job
  ensure_job-TakesNothing site = record { at = λ w. ground arith }

  finish_provision-TakesNothing :
      (site : SiteConfig) → Runs TakesNothing Any Any (finish_provision r claim site)
  unfolding finish_provision
  finish_provision-TakesNothing site =
      let P = TakesNothing in
      Runs-bind P Any Any Any _ _
        (Runs-valued P Any _ failure (ensure_capi_objects-TakesNothing r claim site) λ _. tt)
        λ seen _. Runs-bind P Any Any Any _ _ (Runs-call P Any Any _ (Emits-silent P _)) λ now _.
          Runs-bind P Any Any Any _ _ (Runs-call P Any Any _ (Emits-logged P _ _ λ _. tt))
            λ e _. Runs-pure P Any Any _ tt

module _ {W : Type 0} (r : ClusterClaimReconciler W) where
  abbrev P : Event → Type 0
  P = TakesNothing

  ensure_control_plane_ip-Runs :
      (claim : ClusterClaim) (site : SiteConfig)
      → IsAllocated r claim
      → Runs P Any (IsAllocated r) (ensure_control_plane_ip r claim site)
  unfolding ensure_control_plane_ip
  ensure_control_plane_ip-Runs claim site h = rw (h.0) (Runs-pure P Any (IsAllocated r) claim h)

  ensure_webhook_ip-Runs :
      (claim : ClusterClaim) (site : SiteConfig)
      → IsAllocated r claim
      → Runs P Any (IsAllocated r) (ensure_webhook_ip r claim site)
  unfolding ensure_webhook_ip
  ensure_webhook_ip-Runs claim site h = rw (h.1) (Runs-pure P Any (IsAllocated r) claim h)

  ensure_machines-Runs :
      (claim : ClusterClaim) (site : SiteConfig)
      → IsAllocated r claim
      → Runs P Any (IsAllocated r) (ensure_machines r claim site)
  unfolding ensure_machines
  ensure_machines-Runs claim site h = rw (h.2) (Runs-pure P Any (IsAllocated r) claim h)

  step_provision-Runs :
      (claim : ClusterClaim) → IsAllocated r claim → Emits P Any (step_provision r claim)
  unfolding step_provision
  step_provision-Runs claim h =
      let Q = IsAllocated r in
      Emits-body P Any _ (
        Runs-bind P Any Any Any _ _
          (Runs-valued P Any _ failure (Emits-logged P _ _ λ _. tt) λ _. tt)
          λ site _. Runs-bind P Any Q Any _ _ (ensure_control_plane_ip-Runs claim site h) λ c₁ h₁.
            Runs-bind P Any Q Any _ _ (ensure_webhook_ip-Runs c₁ site h₁) λ c₂ h₂.
              Runs-bind P Any Q Any _ _ (ensure_machines-Runs c₂ site h₂) λ c₃ h₃.
                Runs-bind P Any Any Any _ _ (ensure_job-TakesNothing r c₃ site)
                  λ _ _. finish_provision-TakesNothing r c₃ site)

  -- A stepProvision of a claim whose status has both addresses and a machine allocates no address
  -- and sets no machine's status in Netbox, whatever the API server answers.
  pub step_provision-TakesNothing :
      (claim : ClusterClaim) (w : W)
      → IsAllocated r claim
      → All TakesNothing (step_provision r claim w).1
  step_provision-TakesNothing claim w h = ((step_provision-Runs claim h).at w).0
