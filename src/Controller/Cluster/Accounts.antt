-- ===== src/Controller/Cluster/Accounts.antt =====
-- A Hoare rule for the blocks that allocate addresses: what the claim records before and after.
use mathlib.Core.Path.{subst}
use mathlib.Core.List.{append-nil, append_assoc}
use smeltry_operator.Base.{
  ℕ, ◌≡◌, refl, sym, ◌∙◌, ap, List, ◌++◌, All, All-append, Bool, true, false, if◌then◌else◌,
}
use smeltry_operator.Api.{ClusterClaim}
use smeltry_operator.Effect.{Event, Flow, next, returned, Block, ◌>>=◌, continue, pure, body}
use smeltry_operator.Effect.Emits.{Runs, Any, Ends, All-weaken}
use smeltry_operator.Controller.Cluster.Lifecycle.{
  FollowsLifecycle, Follows, Follows-FollowsLifecycle,
}
use smeltry_operator.Controller.Cluster.Ledger.{
  allocated, Closed, Settled, Closed-Settled, Closed-append, Settled-append, Follows-Closed,
  Follows-allocated, allocated-append,
}

-- The claim that a block works on is still the claim that was read, but for what the block and
-- those before it have recorded, and records exactly `ids`.
abbrev pub Records : ClusterClaim → ClusterClaim → List ℕ → Type 0
Records old claim ids =
    (claim.status.phase ≡ old.status.phase)
    × (claim.meta ≡ old.meta)
    × (claim.spec ≡ old.spec)
    × (claim.status.netbox_ipam_ids ≡ ids)

module _ {R A : Type 0} (ids : List ℕ) (Q : A → List ℕ → Type 0) where
  abbrev pub Balance : Flow R A → List Event → Type 0
  Balance (next a) es = Closed ids es × Q a (ids ++ allocated es)
  Balance (returned r) es = Settled ids es

module _ {W R A : Type 0} (old : ClusterClaim) (ids : List ℕ) (Q : A → List ℕ → Type 0)
    (m : Block W R A) where
  pub record Accounts : Type 0 where
    pub at : (w : W) → All (FollowsLifecycle old) (m w).1 × Balance ids Q (m w).0 (m w).1

module _ {R B : Type 0} (ids : List ℕ) (S : B → List ℕ → Type 0) where
  Balance-append :
      (o : Flow R B) (xs ys : List Event)
      → Closed ids xs
      → Balance (ids ++ allocated xs) S o ys
      → Balance ids S o (xs ++ ys)
  Balance-append (next b) xs ys h k = (
    Closed-append ids xs ys h k.0,
    subst (S b)
        (append_assoc ids (allocated xs) (allocated ys)
          ∙ sym (ap (λ l. ids ++ l) (allocated-append xs ys)))
        k.1,
  )
  Balance-append (returned r) xs ys h k = Settled-append ids xs ys h k

module _ {W R A B : Type 0} (old : ClusterClaim) (ids : List ℕ) (Q : A → List ℕ → Type 0)
    (S : B → List ℕ → Type 0) where
  Accounts-continue :
      (o : Flow R A) (before : List Event) (f : A → Block W R B) (w : W)
      → All (FollowsLifecycle old) before
      → Balance ids Q o before
      → ((a : A) (now : List ℕ) → Q a now → Accounts old now S (f a))
      → All (FollowsLifecycle old) (continue o before f w).1
        × Balance ids S (continue o before f w).0 (continue o before f w).1
  Accounts-continue (next a) before f w hb ho hf =
      let rest = (hf a (ids ++ allocated before) ho.1).at w in
      (
        All-append (FollowsLifecycle old) before _ hb rest.0,
        Balance-append ids S (f a w).0 before (f a w).1 ho.0 rest.1,
      )
  Accounts-continue (returned r) before f w hb ho hf = (hb, ho)

  pub Accounts-bind :
      (m : Block W R A) (f : A → Block W R B)
      → Accounts old ids Q m
      → ((a : A) (now : List ℕ) → Q a now → Accounts old now S (f a))
      → Accounts old ids S (m >>= f)
  unfolding ◌>>=◌
  Accounts-bind m f hm hf = record {
    at = λ w. Accounts-continue (m w).0 (m w).1 f (m w).2 (hm.at w).0 (hm.at w).1 hf;
  }

module _ {R A : Type 0} (claim : ClusterClaim) (ids : List ℕ) (Q : A → Type 0)
    (S : A → List ℕ → Type 0) where
  Runs-Balance :
      (o : Flow R A) (es : List Event)
      → claim.status.netbox_ipam_ids ≡ ids
      → ((a : A) → Q a → S a ids)
      → All (Follows claim) es
      → Ends Any Q o
      → Balance ids S o es
  Runs-Balance (next a) es e f h q = (
    subst (λ l. Closed l es) e (Follows-Closed claim es h),
    rw (Follows-allocated claim es h, append-nil) (f a q),
  )
  Runs-Balance (returned r) es e f h q =
      subst (λ l. Settled l es) e
        (Closed-Settled claim.status.netbox_ipam_ids es (Follows-Closed claim es h))

module _ {W R A : Type 0} (old claim : ClusterClaim) (ids : List ℕ) (Q : A → Type 0)
    (S : A → List ℕ → Type 0) where
  -- A block that allocates nothing leaves the addresses as they are.
  pub Accounts-quiet :
      (m : Block W R A)
      → Records old claim ids
      → ((a : A) → Q a → S a ids)
      → Runs (Follows claim) Any Q m
      → Accounts old ids S m
  Accounts-quiet m h f q = record {
    at = λ w. (
      All-weaken (m w).1 (λ e. Follows-FollowsLifecycle old claim e (h.0, h.1, h.2)) (q.at w).0,
      Runs-Balance claim ids Q S (m w).0 (m w).1 h.3 f (q.at w).0 (q.at w).1,
    );
  }

module _ {W R A : Type 0} (old : ClusterClaim) (ids : List ℕ) (Q : A → List ℕ → Type 0) where
  pub Accounts-pure : (a : A) → Q a ids → Accounts {W = W} {R = R} old ids Q (pure a)
  unfolding pure
  Accounts-pure a h = record {
    at = λ w. (tt, (sym (append-nil ids), subst (Q a) (sym (append-nil ids)) h));
  }

  pub Accounts-if :
      (b : Bool) (m n : Block W R A)
      → Accounts old ids Q m
      → Accounts old ids Q n
      → Accounts old ids Q (if b then m else n)
  Accounts-if true m n hm hn = hm
  Accounts-if false m n hm hn = hn

-- A function's calls follow the lifecycle, and settle the addresses.
abbrev pub Settles : ClusterClaim → List Event → Type 0
Settles claim es = All (FollowsLifecycle claim) es × Settled claim.status.netbox_ipam_ids es

pub Follows-Settles :
    (claim : ClusterClaim) (es : List Event) → All (Follows claim) es → Settles claim es
Follows-Settles claim es h = (
  All-weaken es (λ e. Follows-FollowsLifecycle claim claim e (refl, refl, refl)) h,
  Closed-Settled claim.status.netbox_ipam_ids es (Follows-Closed claim es h),
)

Balance-Settled :
    {R A : Type 0} (ids : List ℕ) (Q : A → List ℕ → Type 0) (o : Flow R A) (es : List Event)
    → Balance ids Q o es
    → Settled ids es
Balance-Settled ids Q (next a) es h = Closed-Settled ids es h.0
Balance-Settled ids Q (returned r) es h = h

pub Accounts-body :
    {W R : Type 0} (claim : ClusterClaim) (Q : R → List ℕ → Type 0) (m : Block W R R)
    → Accounts claim claim.status.netbox_ipam_ids Q m
    → (w : W) → Settles claim (body m w).1
unfolding body
Accounts-body claim Q m h w =
    ((h.at w).0, Balance-Settled claim.status.netbox_ipam_ids Q (m w).0 (m w).1 (h.at w).1)
