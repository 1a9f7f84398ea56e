-- ===== src/Controller/Cluster/Provision/Staging.antt =====
-- The loop of stepProvision that stages machines, and what it records.
use mathlib.Core.List.{append-nil, append_assoc}
use smeltry_operator.Base.{ℕ, zero, suc, ◌≡◌, sym, ◌∙◌, List, [], ◌∷◌, ◌++◌, take, All, arith}
use smeltry_operator.Api.{ClusterClaim, ClusterClaimPhase, SiteConfig}
use smeltry_operator.Netbox.{Device}
use smeltry_operator.Kube.{Object}
use smeltry_operator.Effect.{Event, Block, ◌>>=◌, ◌>>◌, pure, call, check, continue}
use smeltry_operator.Effect.Emits.{
  Any, Runs, Runs-bind, Runs-call, Runs-pure, Runs-checked, Runs-valued, Runs-emits, Runs-continue,
  Emits-logged,
}
use smeltry_operator.Controller.Audit.{emit_audit_event-Emits}
use smeltry_operator.Controller.Reply.{Reply, failure, retry}
use smeltry_operator.Controller.Cluster.Defs.{ClusterClaimReconciler, write_status}
use smeltry_operator.Controller.Cluster.Lifecycle.{Quiet, Lifecycle}
use smeltry_operator.Controller.Cluster.Provision.Finish.{after_machines-Quiet}
use smeltry_operator.Controller.Cluster.Provision.{
  Allocation, allocate_machines, with_allocation, ensure_job, finish_provision,
}

abbrev pub ids_of : List Device → List ℕ
ids_of [] = []
ids_of (m ∷ ms) = m.id ∷ ids_of ms

-- A status of a claim records exactly these machines.
abbrev pub Records : List ℕ → Event → Type 0
Records ids (Event.update_status (Object.cluster_claim new) _) =
    new.status.allocated_machine_ids ≡ ids
Records ids _ = Unit

Quiet-Records :
    (claim : ClusterClaim) (ids : List ℕ) (e : Event)
    → claim.status.allocated_machine_ids ≡ ids
    → Quiet claim e
    → Records ids e
Quiet-Records claim ids (Event.update_status (Object.cluster_claim new) _) h q = q.4 ∙ h
Quiet-Records claim ids _ h q = ground arith

module _ {W : Type 0} (r : ClusterClaimReconciler W) (ids : List ℕ) where
  abbrev P : Event → Type 0
  P = Records ids

  abbrev Gathers : List ℕ → Allocation → Type 0
  Gathers all a = a.ids ≡ all

  -- The loop records the machines from the front of the list.
  allocate_machines-Runs :
      (claim : ClusterClaim) (wanted : ℕ) (machines : List Device) (a : Allocation) (all : List ℕ)
      → a.ids ++ ids_of (take wanted machines) ≡ all
      → Runs P Any (Gathers all) (allocate_machines r claim wanted machines a)
  unfolding allocate_machines
  allocate_machines-Runs claim zero machines a all h =
      Runs-pure P Any (Gathers all) a (sym (append-nil a.ids) ∙ h)
  allocate_machines-Runs claim (suc wanted) [] a all h =
      Runs-pure P Any (Gathers all) a (sym (append-nil a.ids) ∙ h)
  allocate_machines-Runs claim (suc wanted) (m ∷ machines) a all h =
      let Q = Gathers all in
      Runs-bind P Any Any Q _ _ (Runs-checked P Any _ retry (Emits-logged P _ _ λ _. tt) λ _. tt)
        λ _ _.
          Runs-bind P Any Any Q _ _
            (Runs-call P Any Any _ (emit_audit_event-Emits P _ _ _ _ λ _ _. tt))
            λ _ _.
              Runs-bind P Any Any Q _ _
                (Runs-valued P Any _ retry (Emits-logged P _ _ λ _. tt) λ _. tt)
                λ disks _.
                  allocate_machines-Runs claim wanted machines _ all
                    (append_assoc a.ids (m.id ∷ []) (ids_of (take wanted machines)) ∙ h)

  -- A claim in Provisioning with these machines.
  abbrev Has : ClusterClaim → Type 0
  Has claim =
      (claim.status.phase ≡ ClusterClaimPhase.provisioning)
      × (claim.status.allocated_machine_ids ≡ ids)

  -- What follows the listing.
  record_machines-Runs :
      (claim : ClusterClaim) (machines : List Device)
      → claim.status.phase ≡ ClusterClaimPhase.provisioning
      → ids_of (take claim.spec.machine_count machines) ≡ ids
      → Runs P Any Has (do
        a ←
            allocate_machines r claim claim.spec.machine_count machines
              (record { ids = []; osds = [] })
        call (write_status r (with_allocation claim a)) >>= check failure
        pure (with_allocation claim a))
  record_machines-Runs claim machines phase h =
      Runs-bind P Any (Gathers ids) Has _ _
        (allocate_machines-Runs claim claim.spec.machine_count machines _ ids h)
        λ a e.
          Runs-bind P Any Any Has _ _
            (Runs-checked P Any _ failure (Emits-logged P _ _ λ _. e) λ _. tt)
            λ _ _. Runs-pure P Any Has (with_allocation claim a) (phase, e)

  finish-Runs :
      (claim : ClusterClaim) (site : SiteConfig)
      → Has claim
      → Runs P Any Any (ensure_job r claim site >> finish_provision r claim site)
  finish-Runs claim site (phase, same) =
      Runs-emits (λ e. Quiet-Records claim ids e same)
        (after_machines-Quiet r claim site (rw phase Lifecycle.broken)
          (rw phase Lifecycle.control_plane_up))

  abbrev record_machines : ClusterClaim → List Device → Block W Reply ClusterClaim
  record_machines claim machines = do
    a ← allocate_machines r claim claim.spec.machine_count machines (record { ids = []; osds = [] })
    call (write_status r (with_allocation claim a)) >>= check failure
    pure (with_allocation claim a)

  -- The same behind the event of the listing.
  pub after_listing :
      (claim : ClusterClaim) (site : SiteConfig) (machines : List Device) (listed : Event) (w : W)
      → claim.status.phase ≡ ClusterClaimPhase.provisioning
      → ids_of (take claim.spec.machine_count machines) ≡ ids
      → P listed
      → let (o, es, w') = record_machines claim machines w in
        All P
          (continue o (listed ∷ es) (λ c. ensure_job r c site >> finish_provision r c site) w').1
  after_listing claim site machines listed w phase h p =
      let ran = (record_machines-Runs claim machines phase h).at w in
      let (o, es, w') = record_machines claim machines w in
      (Runs-continue P Any Has Any o (listed ∷ es) _ w' (p, ran.0) ran.1
        (λ c has. finish-Runs c site has)).0
