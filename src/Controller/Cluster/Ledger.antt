-- ===== src/Controller/Cluster/Ledger.antt =====
-- The addresses of a claim, along the calls of its reconciler.
use smeltry_operator.Base.{
  ℕ, suc, ◌+◌, ◌≤◌, ◌≡◌, refl, ◌∙◌, ap, sym, none, some, List, [], ◌∷◌, ◌++◌, length, All, arith,
}
use mathlib.Core.List.{append_assoc, append-nil}
use smeltry_operator.Error.{ok, err}
use smeltry_operator.Api.{ClusterClaim}
use smeltry_operator.Kube.{Object}
use smeltry_operator.Effect.{Event}
use smeltry_operator.Controller.Cluster.Lifecycle.{Follows}

-- The IDs of the addresses that AllocateIP has given, in order.
abbrev pub allocated : List Event → List ℕ
allocated [] = []
allocated (Event.allocate_ip _ _ _ (ok ip) ∷ es) = ip.id ∷ allocated es
allocated (_ ∷ es) = allocated es

-- The claim as the API server stores it after the calls: it takes the status from a status update,
-- and all else from an update.
abbrev pub stored : ClusterClaim → List Event → ClusterClaim
stored claim [] = claim
stored claim (Event.update_status (Object.cluster_claim new) none ∷ es) =
    stored (record claim { status = new.status }) es
stored claim (Event.update (Object.cluster_claim new) none ∷ es) =
    stored (record new { status = claim.status }) es
stored claim (_ ∷ es) = stored claim es

-- The status updates of a claim that the API server has refused.
abbrev pub refusals : List Event → ℕ
refusals [] = 0
refusals (Event.update_status (Object.cluster_claim _) (some _) ∷ es) = suc (refusals es)
refusals (_ ∷ es) = refusals es

-- The recorded addresses alone.
abbrev pub recorded : List ℕ → List Event → List ℕ
recorded ids [] = ids
recorded ids (Event.update_status (Object.cluster_claim new) none ∷ es) =
    recorded new.status.netbox_ipam_ids es
recorded ids (_ ∷ es) = recorded ids es

pub allocated-append : (xs ys : List Event) → allocated (xs ++ ys) ≡ allocated xs ++ allocated ys
allocated-append [] ys = refl
allocated-append (Event.allocate_ip _ _ _ (ok ip) ∷ xs) ys =
    ap (λ l. ip.id ∷ l) (allocated-append xs ys)
allocated-append (Event.allocate_ip _ _ _ (err _) ∷ xs) ys = allocated-append xs ys
allocated-append (_ ∷ xs) ys = allocated-append xs ys

pub recorded-append :
    (ids : List ℕ) (xs ys : List Event) → recorded ids (xs ++ ys) ≡ recorded (recorded ids xs) ys
recorded-append ids [] ys = refl
recorded-append ids (Event.update_status (Object.cluster_claim new) none ∷ xs) ys =
    recorded-append new.status.netbox_ipam_ids xs ys
recorded-append ids (Event.update_status (Object.cluster_claim new) (some _) ∷ xs) ys =
    recorded-append ids xs ys
recorded-append ids (_ ∷ xs) ys = recorded-append ids xs ys

pub refusals-append : (xs ys : List Event) → refusals (xs ++ ys) ≡ refusals xs + refusals ys
refusals-append [] ys = omega arith
refusals-append (Event.update_status (Object.cluster_claim _) none ∷ xs) ys = refusals-append xs ys
refusals-append (Event.update_status (Object.cluster_claim _) (some _) ∷ xs) ys =
    omega (arith, refusals-append xs ys)
refusals-append (_ ∷ xs) ys = refusals-append xs ys

-- The recorded addresses are those of the start and then the allocated ones.
abbrev pub Closed : List ℕ → List Event → Type 0
Closed ids es = recorded ids es ≡ ids ++ allocated es

-- Up to some addresses at the end, one for a refused update at most.
abbrev pub Settled : List ℕ → List Event → Type 0
Settled ids es =
    (lost : List ℕ) × (recorded ids es ++ lost ≡ ids ++ allocated es) × (length lost ≤ refusals es)

pub Closed-Settled : (ids : List ℕ) (es : List Event) → Closed ids es → Settled ids es
Closed-Settled ids es h = ([], append-nil (recorded ids es) ∙ h, omega arith)

pub Closed-append :
    (ids : List ℕ) (xs ys : List Event)
    → Closed ids xs
    → Closed (ids ++ allocated xs) ys
    → Closed ids (xs ++ ys)
Closed-append ids xs ys h k =
    rw (recorded-append ids xs ys, h, k, allocated-append xs ys)
      (append_assoc ids (allocated xs) (allocated ys))

pub Settled-append :
    (ids : List ℕ) (xs ys : List Event)
    → Closed ids xs
    → Settled (ids ++ allocated xs) ys
    → Settled ids (xs ++ ys)
Settled-append ids xs ys h (lost, e, few) = (
  lost,
  rw (recorded-append ids xs ys, h, e, allocated-append xs ys)
      (append_assoc ids (allocated xs) (allocated ys)),
  omega (arith, refusals-append xs ys),
)

-- A call that allocates nothing leaves the ledger as it is.
pub Follows-allocated :
    (claim : ClusterClaim) (es : List Event) → All (Follows claim) es → allocated es ≡ []
Follows-allocated claim [] h = refl
Follows-allocated claim (Event.allocate_ip _ _ _ (ok ip) ∷ es) h = absurd h.0
Follows-allocated claim (Event.allocate_ip _ _ _ (err _) ∷ es) h = absurd h.0
Follows-allocated claim (_ ∷ es) h = Follows-allocated claim es h.1

pub Follows-recorded :
    (claim : ClusterClaim) (es : List Event)
    → All (Follows claim) es
    → recorded claim.status.netbox_ipam_ids es ≡ claim.status.netbox_ipam_ids
Follows-recorded claim [] h = refl
Follows-recorded claim (Event.update_status (Object.cluster_claim new) none ∷ es) h =
    rw (h.0.3) (Follows-recorded claim es h.1)
Follows-recorded claim (_ ∷ es) h = Follows-recorded claim es h.1

pub Follows-Closed :
    (claim : ClusterClaim) (es : List Event)
    → All (Follows claim) es
    → Closed claim.status.netbox_ipam_ids es
Follows-Closed claim es h =
    Follows-recorded claim es h
    ∙ sym (
        ap (λ l. claim.status.netbox_ipam_ids ++ l) (Follows-allocated claim es h)
        ∙ append-nil claim.status.netbox_ipam_ids)

pub stored-recorded :
    (claim : ClusterClaim) (es : List Event)
    → (stored claim es).status.netbox_ipam_ids ≡ recorded claim.status.netbox_ipam_ids es
stored-recorded claim [] = refl
stored-recorded claim (Event.update_status (Object.cluster_claim new) none ∷ es) =
    stored-recorded (record claim { status = new.status }) es
stored-recorded claim (Event.update_status (Object.cluster_claim new) (some _) ∷ es) =
    stored-recorded claim es
stored-recorded claim (Event.update (Object.cluster_claim new) none ∷ es) =
    stored-recorded (record new { status = claim.status }) es
stored-recorded claim (Event.update (Object.cluster_claim new) (some _) ∷ es) =
    stored-recorded claim es
stored-recorded claim (_ ∷ es) = stored-recorded claim es
