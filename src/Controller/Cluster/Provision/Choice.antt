-- ===== src/Controller/Cluster/Provision/Choice.antt =====
-- Which machines stepProvision takes.
use mathlib.Core.Path.{subst}
use mathlib.Core.List.{append_assoc}
use smeltry_operator.Base.{
  String, ◌≡◌, refl, sym, ◌∙◌, ap, true, List, [], ◌∷◌, ◌++◌, take, length, ◌==◌, All, All-append,
  arith,
}
use smeltry_operator.Error.{Result, ok}
use smeltry_operator.Api.{ClusterClaim, ClusterClaimPhase, SiteConfig, named}
use smeltry_operator.Netbox.{Device}
use smeltry_operator.Effect.{Go, Flow, Event, next, returned, Block, ◌>>=◌, ◌>>◌, body, continue}
use smeltry_operator.Effect.Emits.{Ends, Any, Runs}
use smeltry_operator.Controller.Reply.{Reply}
use smeltry_operator.Controller.Cluster.Defs.{ClusterClaimReconciler, portal_system_namespace}
use smeltry_operator.Controller.Cluster.Provision.{
  allocate_all, ensure_control_plane_ip, ensure_webhook_ip, ensure_machines, ensure_job,
  finish_provision, step_provision,
}
use smeltry_operator.Controller.Cluster.Provision.Staging.{ids_of, Records, after_listing}

-- The calls begin with the listing of the machines.
abbrev pub StartsListing : List Event → Type 0
StartsListing [] = ⊥
StartsListing (Event.list_available_devices _ _ ∷ es) = Unit
StartsListing (_ ∷ es) = ⊥

continue-StartsListing :
    {W A : Type 0} (o : Flow Reply A) (site model : String) (es : List Event)
    (f : A → Block W Reply Reply) (w : W)
    → StartsListing (continue o (Event.list_available_devices site model ∷ es) f w).1
continue-StartsListing (next a) site model es f w = tt
continue-StartsListing (returned rep) site model es f w = tt

-- A claim that has come through the first part of a pass: it is in Provisioning, still has no
-- machine, and has the spec of the old one.
abbrev Bare : ClusterClaim → ClusterClaim → Type 0
Bare old claim =
    (claim.status.phase ≡ ClusterClaimPhase.provisioning)
    × (claim.status.allocated_machine_ids ≡ [])
    × (claim.spec ≡ old.spec)

module _ {W : Type 0} (r : ClusterClaimReconciler W) where
  control_plane_ip-Runs :
      (old claim : ClusterClaim) (site : SiteConfig)
      → Bare old claim
      → Runs (Records []) Any (Bare old) (ensure_control_plane_ip r claim site)
  unfolding body ensure_control_plane_ip
  control_plane_ip-Runs old claim site h = record { at = λ w. ground arith }

  webhook_ip-Runs :
      (old claim : ClusterClaim) (site : SiteConfig)
      → Bare old claim
      → Runs (Records []) Any (Bare old) (ensure_webhook_ip r claim site)
  unfolding body ensure_webhook_ip
  webhook_ip-Runs old claim site h = record { at = λ w. ground arith }

  -- stepProvision behind the addresses.
  abbrev behind : ClusterClaim → SiteConfig → Block W Reply Reply
  behind claim site =
      ensure_machines r claim site >>= λ c. ensure_job r c site >> finish_provision r c site

  -- The machines that Netbox lists for a claim.
  abbrev pub listing : ClusterClaim → SiteConfig → W → Result (List Device)
  listing claim site w =
      (r.netbox.list_available_devices site.spec.netbox.site_slug claim.spec.machine_class w).0

  behind-Records :
      (claim : ClusterClaim) (site : SiteConfig) (machines : List Device) (w : W)
      → claim.status.phase ≡ ClusterClaimPhase.provisioning
      → claim.status.allocated_machine_ids ≡ []
      → listing claim site w ≡ ok machines
      → All (Records (ids_of (take claim.spec.machine_count machines))) (behind claim site w).1
  unfolding ensure_machines allocate_all body
  behind-Records claim site machines w phase bare listed =
      let empty : (length claim.status.allocated_machine_ids == 0) ≡ true =
        ap (λ l. length l == 0) bare in
      let listed_at =
        r.netbox.list_available_devices site.spec.netbox.site_slug claim.spec.machine_class w in
      rw (empty, listed)
        (after_listing r (ids_of (take claim.spec.machine_count machines)) claim site machines _
          listed_at.1 phase refl tt)

  behind-StartsListing :
      (claim : ClusterClaim) (site : SiteConfig) (machines : List Device) (w : W)
      → claim.status.allocated_machine_ids ≡ []
      → listing claim site w ≡ ok machines
      → StartsListing (behind claim site w).1
  unfolding ensure_machines allocate_all body
  behind-StartsListing claim site machines w bare listed =
      let empty : (length claim.status.allocated_machine_ids == 0) ≡ true =
        ap (λ l. length l == 0) bare in
      rw (empty, listed) (continue-StartsListing _ _ _ _ _ _)

  -- The first calls of a pass over the claim: of the site, and for each address.
  abbrev pub site_of : ClusterClaim → W → Result SiteConfig × W
  site_of claim w = r.client.get_site_config (named claim.spec.site portal_system_namespace) w

  abbrev pub control_plane_of : ClusterClaim → SiteConfig → Go W (Flow Reply ClusterClaim)
  control_plane_of claim site w = ensure_control_plane_ip r claim site (site_of claim w).1

  abbrev pub webhook_of : ClusterClaim → ClusterClaim → SiteConfig → Go W (Flow Reply ClusterClaim)
  webhook_of claim claim₁ site w = ensure_webhook_ip r claim₁ site (control_plane_of claim site w).2

  reached :
      (old claim : ClusterClaim) (o : Flow Reply ClusterClaim)
      → o ≡ next claim
      → Ends Any (Bare old) o
      → Bare old claim
  reached old claim o e h = subst (Ends Any (Bare old)) e h

  -- A pass of stepProvision over a claim in Provisioning that has no machine, whose site is there,
  -- that has its addresses or reserves them without an error, and for which Netbox then lists
  -- machines: up to this listing the statuses that are written record no machine, and from it on
  -- each records exactly the first machineCount of the listed machines, in order (all of them,
  -- where they are fewer), whatever has become of them since, and whatever else is answered.
  pub step_provision-first :
      (claim : ClusterClaim) (w : W) {site : SiteConfig} {claim₁ claim₂ : ClusterClaim}
      {machines : List Device}
      → claim.status.phase ≡ ClusterClaimPhase.provisioning
      → claim.status.allocated_machine_ids ≡ []
      → (site_of claim w).0 ≡ ok site
      → (control_plane_of claim site w).0 ≡ next claim₁
      → (webhook_of claim claim₁ site w).0 ≡ next claim₂
      → listing claim site (webhook_of claim claim₁ site w).2 ≡ ok machines
      → (before : List Event) × (rest : List Event) × ((step_provision r claim w).1
          ≡ before ++ rest)
        × All (Records []) before
        × StartsListing rest
        × All (Records (ids_of (take claim.spec.machine_count machines))) rest
  unfolding step_provision body
  step_provision-first claim w {site} {claim₁} {claim₂} {machines} phase bare got h₁ h₂ listed =
      let ran₁ =
        (control_plane_ip-Runs claim claim site (phase, bare, refl)).at (site_of claim w).1 in
      let bare₁ = reached claim claim₁ _ h₁ ran₁.1 in
      let ran₂ = (webhook_ip-Runs claim claim₁ site bare₁).at (control_plane_of claim site w).2 in
      let (phase₂, bare₂, same) = reached claim claim₂ _ h₂ ran₂.1 in
      let w₃ = (webhook_of claim claim₁ site w).2 in
      let es₁ = (control_plane_of claim site w).1 in
      let es₂ = (webhook_of claim claim₁ site w).1 in
      let listed₂ : listing claim₂ site w₃ ≡ ok machines =
        ap
          (λ spec.
            (r.netbox.list_available_devices site.spec.netbox.site_slug spec.machine_class w₃).0)
          same
        ∙ listed in
      let got_site = Event.get "SiteConfig" (named claim.spec.site portal_system_namespace) in
      (
        got_site ∷ (es₁ ++ es₂),
        (behind claim₂ site w₃).1,
        rw (got, h₁, h₂)
            (ap (λ l. got_site ∷ l) (sym (append_assoc es₁ es₂ (behind claim₂ site w₃).1))),
        (tt, All-append (Records []) es₁ es₂ ran₁.0 ran₂.0),
        behind-StartsListing claim₂ site machines w₃ bare₂ listed₂,
        subst
            (λ spec.
              All (Records (ids_of (take spec.machine_count machines))) (behind claim₂ site w₃).1)
            same (behind-Records claim₂ site machines w₃ phase₂ bare₂ listed₂),
      )
