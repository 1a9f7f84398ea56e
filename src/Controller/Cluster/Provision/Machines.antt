-- ===== src/Controller/Cluster/Provision/Machines.antt =====
-- stepProvision accounts for every machine that it stages.
use mathlib.Core.Path.{subst}
use mathlib.Core.List.{append-nil}
use smeltry_operator.Base.{
  ℕ, zero, suc, String, ◌≡◌, refl, sym, ◌∙◌, ap, true, none, List, [], ◌∷◌, ◌++◌, length, ◌==◌,
  str_eq, arith,
}
use smeltry_operator.Api.{AuditEventSpec, ClusterClaim, ClusterClaimPhase, SiteConfig}
use smeltry_operator.Netbox.{Device, DeviceStatus, IpAddress}
use smeltry_operator.Kube.{Kube}
use smeltry_operator.Effect.{
  Event, Block, ◌>>=◌, ◌>>◌, pure, call, check, value_or, body, logged, allocate_ip,
}
use smeltry_operator.Effect.Emits.{Any}
use smeltry_operator.Controller.Reply.{Reply, failure, retry}
use smeltry_operator.Controller.Audit.{emit_audit_event}
use smeltry_operator.Controller.Cluster.Defs.{ClusterClaimReconciler, write_status}
use smeltry_operator.Controller.Cluster.Lifecycle.{Lifecycle}
use smeltry_operator.Controller.Cluster.Books.{
  Book, book, entry, opening, Balanced, Books, Sound, Keeps, Books-bind, Books-pure, Books-if,
  Books-checked, Books-after, Books-reads, Books-silent, Books-body,
}
use smeltry_operator.Controller.Cluster.Steady.Machines.{
  failure-IsFailing, retry-IsFailing, set-Books,
}
use smeltry_operator.Controller.Cluster.Provision.Finish.{after_machines-Quiet}
use smeltry_operator.Controller.Cluster.Provision.{
  Allocation, machine_allocated, reserve_control_plane_ip, reserve_webhook_ip, allocate_machines,
  allocate_all, with_allocation, ensure_control_plane_ip, ensure_webhook_ip, ensure_machines,
  step_provision,
}

length-eq-zero : (l : List ℕ) → (length l == 0) ≡ true → l ≡ []
length-eq-zero [] h = refl
length-eq-zero (x ∷ l) h = absurd (ground arith)

emit_audit_event-book :
    {W : Type 0} (b : Book) (k : Kube W) (namespace ttl : String) (spec : AuditEventSpec) (w : W)
    → book b (emit_audit_event k namespace ttl spec w).1 ≡ b
unfolding emit_audit_event body
emit_audit_event-book b k namespace ttl spec w = refl

module _ {W : Type 0} (r : ClusterClaimReconciler W) (old : ClusterClaim) where
  abbrev X : Book → Type 0
  X = Balanced old

  -- A claim that has its old machines, before any is staged.
  abbrev Fresh : ClusterClaim → Book → Type 0
  Fresh claim b =
      (claim.status.phase ≡ old.status.phase)
      × (claim.status.allocated_machine_ids ≡ old.status.allocated_machine_ids)
      × (b ≡ opening old)

  -- A claim whose machines are recorded.
  abbrev Stocked : ClusterClaim → Book → Type 0
  Stocked claim b =
      (claim.status.phase ≡ old.status.phase)
      × (claim.status.allocated_machine_ids ≡ b.recorded)
      × X b

  reserve-Books :
      (prefix dns : String) (tags : List String) (put : IpAddress → ClusterClaim)
      → ((ip : IpAddress) → Fresh (put ip) (opening old))
      → Books X (opening old) Fresh (do
        ip ← call (allocate_ip r.netbox prefix dns tags) >>= value_or retry
        call (write_status r (put ip)) >>= check failure
        pure (put ip))
  unfolding logged
  reserve-Books prefix dns tags put h =
      let start = opening old in
      Books-reads X start Fresh _ retry _ retry-IsFailing (λ w. refl)
        λ ip.
          Books-bind X start (λ _ b. b ≡ start) Fresh _ _
            (Books-checked X start _ _ failure failure-IsFailing
              (λ w done. rw done (ap (λ l. record start { recorded = l }) ((h ip).1))))
            λ _ b e. Books-pure X b Fresh (put ip) ((h ip).0, (h ip).1, e)

  at_opening :
      (S : ClusterClaim → Book → Type 0) (b : Book) (m : Block W Reply ClusterClaim)
      → b ≡ opening old
      → Books X (opening old) S m
      → Books X b S m
  at_opening S b m e h = subst (λ c. Books X c S m) (sym e) h

  ensure_control_plane_ip-Books :
      (claim : ClusterClaim) (site : SiteConfig) (b : Book)
      → Fresh claim b
      → Books X b Fresh (ensure_control_plane_ip r claim site)
  unfolding ensure_control_plane_ip reserve_control_plane_ip
  ensure_control_plane_ip-Books claim site b h =
      Books-if X b Fresh (str_eq claim.status.control_plane_ip "") _ _
        (λ _. at_opening Fresh b _ (h.2) (reserve-Books _ _ _ _ λ ip. (h.0, h.1, refl)))
        (λ _. Books-pure X b Fresh claim h)

  ensure_webhook_ip-Books :
      (claim : ClusterClaim) (site : SiteConfig) (b : Book)
      → Fresh claim b
      → Books X b Fresh (ensure_webhook_ip r claim site)
  unfolding ensure_webhook_ip reserve_webhook_ip
  ensure_webhook_ip-Books claim site b h =
      Books-if X b Fresh (str_eq claim.status.webhook_ip "") _ _
        (λ _. at_opening Fresh b _ (h.2) (reserve-Books _ _ _ _ λ ip. (h.0, h.1, refl)))
        (λ _. Books-pure X b Fresh claim h)

  -- What the loop has gathered is what it has staged.
  abbrev Gathered : Book → Allocation → Book → Type 0
  Gathered b a b' = (b'.staged ≡ a.ids) × (b'.recorded ≡ b.recorded) × (b'.freed ≡ b.freed)

  allocate_machines-Books :
      (claim : ClusterClaim) (wanted : ℕ) (machines : List Device) (a : Allocation) (b : Book)
      → b.staged ≡ a.ids
      → Books X b (Gathered b) (allocate_machines r claim wanted machines a)
  unfolding allocate_machines logged
  allocate_machines-Books claim zero machines a b h = Books-pure X b _ a (h, refl, refl)
  allocate_machines-Books claim (suc wanted) [] a b h = Books-pure X b _ a (h, refl, refl)
  allocate_machines-Books claim (suc wanted) (m ∷ machines) a b h =
      let b₁ = entry b (Event.set_device_status m.id DeviceStatus.staged "" none) in
      set-Books r X b (Gathered b) m.id DeviceStatus.staged _ _ (
        Books-after X b₁ (Gathered b) _ _
          (emit_audit_event-book b₁ r.client claim.meta.namespace r.default_audit_ttl
            (machine_allocated r claim m.id))
          λ _.
            Books-reads X b₁ (Gathered b) _ retry _ retry-IsFailing (λ w. refl)
              λ disks.
                allocate_machines-Books claim wanted machines _ b₁ (ap (λ l. l ++ (m.id ∷ [])) h))

  allocate_all-Books :
      (claim : ClusterClaim) (site : SiteConfig)
      → claim.status.phase ≡ old.status.phase
      → old.status.allocated_machine_ids ≡ []
      → Books X (opening old) Stocked (allocate_all r claim site)
  unfolding allocate_all logged
  allocate_all-Books claim site same none_yet =
      let start = opening old in
      Books-reads X start Stocked _ retry _ retry-IsFailing (λ w. refl)
        λ machines.
          Books-bind X start (Gathered start) Stocked _ _
            (allocate_machines-Books claim claim.spec.machine_count machines
              (record { ids = []; osds = [] }) start refl)
            λ a b (gathered, _, none_freed).
              Books-bind X b (λ _ c. c ≡ record b { recorded = a.ids }) Stocked _ _
                (Books-checked X b _ _ failure failure-IsFailing (λ w done. rw done refl))
                λ _ c e. Books-pure X c Stocked (with_allocation claim a) (
                  same,
                  ap (λ (d : Book). d.recorded) (sym e),
                  subst X (sym e) (rw (none_freed, append-nil, none_yet) (sym gathered)),
                )

  ensure_machines-Books :
      (claim : ClusterClaim) (site : SiteConfig) (b : Book)
      → Fresh claim b
      → Books X b Stocked (ensure_machines r claim site)
  unfolding ensure_machines
  ensure_machines-Books claim site b h =
      Books-if X b Stocked (length claim.status.allocated_machine_ids == 0) _ _
        (λ empty.
          at_opening Stocked b _ (h.2)
            (allocate_all-Books claim site (h.0) (sym (h.1) ∙ length-eq-zero _ empty)))
        (λ _.
          Books-pure X b Stocked claim
            (h.0, h.1 ∙ ap (λ (d : Book). d.recorded) (sym (h.2)), subst X (sym (h.2)) refl))

module _ {W : Type 0} (r : ClusterClaimReconciler W) (claim : ClusterClaim) where
  pub step_provision-Keeps :
      Lifecycle claim.status.phase ClusterClaimPhase.failed
      → Lifecycle claim.status.phase ClusterClaimPhase.cluster_ready
      → Keeps (Balanced claim) (opening claim) (step_provision r claim)
  unfolding step_provision logged
  step_provision-Keeps fails up =
      let X = Balanced claim in
      let start = opening claim in
      Books-body X start _ (
        Books-reads X start (Sound X) _ failure _ failure-IsFailing (λ w. refl)
          λ site.
            Books-bind X start (Fresh r claim) (Sound X) _ _
              (ensure_control_plane_ip-Books r claim claim site start (refl, refl, refl))
              λ c₁ b₁ h₁.
                Books-bind X b₁ (Fresh r claim) (Sound X) _ _
                  (ensure_webhook_ip-Books r claim c₁ site b₁ h₁)
                  λ c₂ b₂ h₂.
                    Books-bind X b₂ (Stocked r claim) (Sound X) _ _
                      (ensure_machines-Books r claim c₂ site b₂ h₂)
                      λ c₃ b₃ h₃.
                        Books-silent X b₃ Any (Sound X) c₃ (h₃.1) _ (λ _ _ _. h₃.2) (h₃.2)
                          (after_machines-Quiet r c₃ site
                            (subst (λ p. Lifecycle p ClusterClaimPhase.failed) (sym (h₃.0)) fails)
                            (subst (λ p. Lifecycle p ClusterClaimPhase.cluster_ready) (sym (h₃.0))
                              up)))
