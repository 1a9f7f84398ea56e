-- ===== src/Controller/Cluster/Provision/Attention.antt =====
-- stepProvision comes back to its claim.
use smeltry_operator.Base.{ℕ, zero, suc, refl, String, List, [], ◌∷◌, arith}
use smeltry_operator.Api.{ClusterClaim, SiteConfig}
use smeltry_operator.Netbox.{Device}
use smeltry_operator.Effect.{body}
use smeltry_operator.Controller.Reply.{failure, retry}
use smeltry_operator.Controller.Attention.{
  Back, Closes-body, Attends, Closes, Attends-bind, Closes-bind, Attends-pure, Attends-call,
  Attends-if, Attends-valued, Attends-checked, Closes-pure,
}
use smeltry_operator.Controller.Cluster.Attention.{watched}
use smeltry_operator.Controller.Cluster.Defs.{ClusterClaimReconciler, fail}
use smeltry_operator.Controller.Cluster.Provision.{
  Allocation, reserve_control_plane_ip, ensure_control_plane_ip, reserve_webhook_ip,
  ensure_webhook_ip, allocate_machines, allocate_all, ensure_machines, job_or_create, await_job,
  ensure_job, finish_provision, step_provision,
}

module _ {W : Type 0} (r : ClusterClaimReconciler W) where
  reserve_control_plane_ip-Attends :
      (claim : ClusterClaim) (site : SiteConfig) (dns : String)
      → Attends watched (reserve_control_plane_ip r claim site dns)
  unfolding reserve_control_plane_ip
  reserve_control_plane_ip-Attends claim site dns =
      Attends-bind watched _ _ (Attends-valued watched _ retry λ _. refl) λ ip.
        Attends-bind watched _ _ (Attends-checked watched _ failure λ _. refl)
          λ _. Attends-pure watched _

  ensure_control_plane_ip-Attends :
      (claim : ClusterClaim) (site : SiteConfig)
      → Attends watched (ensure_control_plane_ip r claim site)
  unfolding ensure_control_plane_ip
  ensure_control_plane_ip-Attends claim site =
      Attends-if watched _ _ _ (reserve_control_plane_ip-Attends claim site _)
        (Attends-pure watched _)

  reserve_webhook_ip-Attends :
      (claim : ClusterClaim) (site : SiteConfig) (dns : String)
      → Attends watched (reserve_webhook_ip r claim site dns)
  unfolding reserve_webhook_ip
  reserve_webhook_ip-Attends claim site dns =
      Attends-bind watched _ _ (Attends-valued watched _ retry λ _. refl) λ ip.
        Attends-bind watched _ _ (Attends-checked watched _ failure λ _. refl)
          λ _. Attends-pure watched _

  ensure_webhook_ip-Attends :
      (claim : ClusterClaim) (site : SiteConfig) → Attends watched (ensure_webhook_ip r claim site)
  unfolding ensure_webhook_ip
  ensure_webhook_ip-Attends claim site =
      Attends-if watched _ _ _ (reserve_webhook_ip-Attends claim site _) (Attends-pure watched _)

  allocate_machines-Attends :
      (claim : ClusterClaim) (wanted : ℕ) (machines : List Device) (a : Allocation)
      → Attends watched (allocate_machines r claim wanted machines a)
  unfolding allocate_machines
  allocate_machines-Attends claim zero machines a = Attends-pure watched a
  allocate_machines-Attends claim (suc wanted) [] a = Attends-pure watched a
  allocate_machines-Attends claim (suc wanted) (m ∷ machines) a =
      Attends-bind watched _ _ (Attends-checked watched _ retry λ _. refl) λ _.
        Attends-bind watched _ _ (Attends-call watched _) λ _.
          Attends-bind watched _ _ (Attends-valued watched _ retry λ _. refl)
            λ disks. allocate_machines-Attends claim wanted machines _

  ensure_machines-Attends :
      (claim : ClusterClaim) (site : SiteConfig) → Attends watched (ensure_machines r claim site)
  unfolding ensure_machines allocate_all
  ensure_machines-Attends claim site =
      Attends-if watched _ _ _
        (Attends-bind watched _ _ (Attends-valued watched _ retry λ _. refl) λ machines.
          Attends-bind watched _ _ (allocate_machines-Attends claim _ machines _) λ a.
            Attends-bind watched _ _ (Attends-checked watched _ failure λ _. refl)
              λ _. Attends-pure watched _)
        (Attends-pure watched _)

  ensure_job-Attends :
      (claim : ClusterClaim) (site : SiteConfig) → Attends watched (ensure_job r claim site)
  unfolding body ensure_job job_or_create await_job fail
  ensure_job-Attends claim site = record { at = λ w. ground arith }

  finish_provision-Closes :
      (claim : ClusterClaim) (site : SiteConfig) → Closes watched (finish_provision r claim site)
  unfolding finish_provision
  finish_provision-Closes claim site =
      Closes-bind watched _ _ (Attends-valued watched _ failure λ _. refl) λ found.
        Closes-bind watched _ _ (Attends-call watched _) λ now.
          Closes-bind watched _ _ (Attends-call watched _) λ e. Closes-pure watched _ (ground arith)

  pub step_provision-Back : (claim : ClusterClaim) → Back watched (step_provision r claim)
  unfolding step_provision
  step_provision-Back claim = Closes-body watched _ (
      Closes-bind watched _ _ (Attends-valued watched _ failure λ _. refl) λ site.
        Closes-bind watched _ _ (ensure_control_plane_ip-Attends claim site) λ first.
          Closes-bind watched _ _ (ensure_webhook_ip-Attends first site) λ second_claim.
            Closes-bind watched _ _ (ensure_machines-Attends second_claim site) λ claim₃.
              Closes-bind watched _ _ (ensure_job-Attends claim₃ site)
                λ _. finish_provision-Closes claim₃ site)
