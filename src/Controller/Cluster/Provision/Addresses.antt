-- ===== src/Controller/Cluster/Provision/Addresses.antt =====
-- stepProvision, the lifecycle and the addresses that the claim records.
use smeltry_operator.Base.{ℕ, sym, String, str_eq, ap, refl, Option, List, [], ◌∷◌, arith}
use smeltry_operator.Error.{Error}
use smeltry_operator.Api.{ClusterClaim, ClusterClaimPhase, SiteConfig}
use smeltry_operator.Kube.{Object}
use smeltry_operator.Effect.{Event, body, value_or}
use smeltry_operator.Effect.Emits.{Any, Runs, Runs-bind, Runs-valued, Emits-logged}
use smeltry_operator.Controller.Reply.{failure, retry}
use smeltry_operator.Controller.Cluster.Defs.{ClusterClaimReconciler}
use smeltry_operator.Controller.Cluster.Lifecycle.{Follows, FollowsLifecycle, Lifecycle, Same}
use smeltry_operator.Controller.Cluster.Provision.Phases.{ensure_machines-Runs}
use smeltry_operator.Controller.Cluster.Lifecycle.{Quiet-Follows}
use smeltry_operator.Effect.Emits.{Runs-emits}
use smeltry_operator.Controller.Cluster.Provision.Finish.{after_machines-Quiet}
use smeltry_operator.Controller.Cluster.Accounts.{
  Accounts, Accounts-bind, Accounts-quiet, Accounts-pure, Accounts-if, Accounts-body, Settles,
  Records,
}
use mathlib.Core.Path.{subst}
use smeltry_operator.Effect.{◌>>=◌, ◌>>◌, call, check, pure, allocate_ip}
use smeltry_operator.Netbox.{IpAddress}
use smeltry_operator.Controller.Cluster.Defs.{write_status}
use smeltry_operator.Error.{Result-cases}
use smeltry_operator.Base.{◌++◌, inl, inr, none, some, Option-cases}
use smeltry_operator.Controller.Cluster.Provision.{
  reserve_control_plane_ip, reserve_webhook_ip, ensure_control_plane_ip, ensure_webhook_ip,
  ensure_machines, ensure_job, finish_provision, step_provision,
}

module _ {W : Type 0} (r : ClusterClaimReconciler W) (old : ClusterClaim) (ids : List ℕ) where
  recorded-FollowsLifecycle :
      (claim : ClusterClaim) (now : List ℕ)
      → Records old claim now
      → (e : Option Error)
      → FollowsLifecycle old (Event.update_status (Object.cluster_claim claim) e)
  recorded-FollowsLifecycle claim now h e = (rw h.0 (Lifecycle.stay old.status.phase), h.1, h.2)

  -- An address is allocated, then the status with it is written.
  reserve-Accounts :
      (prefix dns : String) (tags : List String) (put : IpAddress → ClusterClaim)
      → ((ip : IpAddress) → Records old (put ip) (ids ++ (ip.id ∷ [])))
      → Accounts old ids (Records old) (do
        ip ← call (allocate_ip r.netbox prefix dns tags) >>= value_or retry
        call (write_status r (put ip)) >>= check failure
        pure (put ip))
  unfolding body
  reserve-Accounts prefix dns tags put h = record {
    at = λ w.
        let (answer, w') = r.netbox.allocate_ip prefix dns tags w in
        elim (Result-cases answer) [
          | inr (x, e) ↦ rw e ((tt, tt), ([], refl, omega arith))
          | inl (ip, e) ↦
              let now = ids ++ (ip.id ∷ []) in
              let write = recorded-FollowsLifecycle (put ip) now (h ip) in
              elim (Option-cases (r.client.update_status (Object.cluster_claim (put ip)) w').0) [
                | inl e' ↦ rw (e, e') ((tt, (write none, tt)), ((h ip).3, h ip))
                | inr (x, e') ↦
                    rw (e, e') ((tt, (write (some x), tt)), (ip.id ∷ [], refl, omega arith))
              ]
        ];
  }

  ensure_control_plane_ip-Accounts :
      (claim : ClusterClaim) (site : SiteConfig)
      → Records old claim ids
      → Accounts old ids (Records old) (ensure_control_plane_ip r claim site)
  unfolding ensure_control_plane_ip reserve_control_plane_ip
  ensure_control_plane_ip-Accounts claim site h =
      Accounts-if old ids (Records old) (str_eq claim.status.control_plane_ip "") _ _
        (reserve-Accounts _ _ _ _ λ ip. (h.0, h.1, h.2, ap (λ l. l ++ (ip.id ∷ [])) h.3))
        (Accounts-pure old ids (Records old) claim h)

  ensure_webhook_ip-Accounts :
      (claim : ClusterClaim) (site : SiteConfig)
      → Records old claim ids
      → Accounts old ids (Records old) (ensure_webhook_ip r claim site)
  unfolding ensure_webhook_ip reserve_webhook_ip
  ensure_webhook_ip-Accounts claim site h =
      Accounts-if old ids (Records old) (str_eq claim.status.webhook_ip "") _ _
        (reserve-Accounts _ _ _ _ λ ip. (h.0, h.1, h.2, ap (λ l. l ++ (ip.id ∷ [])) h.3))
        (Accounts-pure old ids (Records old) claim h)

module _ {W : Type 0} (r : ClusterClaimReconciler W) (claim : ClusterClaim) (site : SiteConfig)
    (fails : Lifecycle claim.status.phase ClusterClaimPhase.failed)
    (up : Lifecycle claim.status.phase ClusterClaimPhase.cluster_ready) where
  -- What follows the two addresses.
  rest-Runs : Runs (Follows claim) Any Any (do
    claim₃ ← ensure_machines r claim site
    ensure_job r claim₃ site
    finish_provision r claim₃ site)
  rest-Runs =
      let P = Follows claim in
      Runs-bind P Any (Same claim) Any _ _
        (ensure_machines-Runs r claim claim site (refl, refl, refl, refl))
        λ c₃ h₃.
          Runs-emits (λ e. Quiet-Follows claim c₃ e h₃)
            (after_machines-Quiet r c₃ site
              (subst (λ p. Lifecycle p ClusterClaimPhase.failed) (sym (h₃.0)) fails)
              (subst (λ p. Lifecycle p ClusterClaimPhase.cluster_ready) (sym (h₃.0)) up))

module _ {W : Type 0} (r : ClusterClaimReconciler W) (claim : ClusterClaim) where
  abbrev Done : {A : Type 0} → A → List ℕ → Type 0
  Done _ _ = Unit

  rest-Accounts :
      (now : List ℕ) (site : SiteConfig) (c₂ : ClusterClaim)
      → Lifecycle claim.status.phase ClusterClaimPhase.failed
      → Lifecycle claim.status.phase ClusterClaimPhase.cluster_ready
      → Records claim c₂ now
      → Accounts claim now Done
          (do c₃ ← ensure_machines r c₂ site; ensure_job r c₃ site; finish_provision r c₃ site)
  rest-Accounts now site c₂ fails up h =
      Accounts-quiet claim c₂ now Any Done _ h (λ _ _. tt)
        (rest-Runs r c₂ site (subst (λ p. Lifecycle p ClusterClaimPhase.failed) (sym (h.0)) fails)
          (subst (λ p. Lifecycle p ClusterClaimPhase.cluster_ready) (sym (h.0)) up))

  -- What stepProvision writes follows the lifecycle and settles the addresses.
  pub step_provision-Settles :
      Lifecycle claim.status.phase ClusterClaimPhase.failed
      → Lifecycle claim.status.phase ClusterClaimPhase.cluster_ready
      → (w : W) → Settles claim (step_provision r claim w).1
  unfolding step_provision
  step_provision-Settles fails up =
      let ids = claim.status.netbox_ipam_ids in
      let Q = Records claim in
      Accounts-body claim Done _ (
        Accounts-bind claim ids (λ _ now. Q claim now) Done _ _
          (Accounts-quiet claim claim ids Any (λ _ now. Q claim now) _ (refl, refl, refl, refl)
            (λ _ _. (refl, refl, refl, refl))
            (Runs-valued (Follows claim) Any _ failure (Emits-logged _ _ _ λ _. tt) λ _. tt))
          λ site ids₀ h₀.
            Accounts-bind claim ids₀ Q Done _ _
              (ensure_control_plane_ip-Accounts r claim ids₀ claim site h₀)
              λ c₁ ids₁ h₁.
                Accounts-bind claim ids₁ Q Done _ _
                  (ensure_webhook_ip-Accounts r claim ids₁ c₁ site h₁)
                  λ c₂ ids₂ h₂. rest-Accounts ids₂ site c₂ fails up h₂)
