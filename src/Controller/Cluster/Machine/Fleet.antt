-- ===== src/Controller/Cluster/Machine/Fleet.antt =====
-- The machines of a claim from its creation to its deletion.
use mathlib.Core.Path.{subst}
use mathlib.Core.List.{Perm, append_assoc, perm_append_comm, perm_middle}
use mathlib.Core.List.Perm
use smeltry_operator.Base.{
  ℕ, ◌≡◌, refl, sym, none, some, List, [], ◌∷◌, ◌++◌, Bool, true, false, str_eq, if◌then◌else◌,
}
use smeltry_operator.Netbox.{DeviceStatus}
use smeltry_operator.Effect.{Event}
use smeltry_operator.Error.{ok}
use smeltry_operator.Api.{Key, ClusterClaim}
use smeltry_operator.Controller.Cluster.Defs.{ClusterClaimReconciler}
use smeltry_operator.Controller.Cluster.Ledger.{stored}
use smeltry_operator.Controller.Cluster.Books.{opening}
use smeltry_operator.Controller.Cluster.Deletion.{reconcile_delete}
use smeltry_operator.Controller.Cluster.Deletion.Releases.{freed, reconcile_delete-releases_all}
use smeltry_operator.Controller.Cluster.Machine.{reconcile}
use smeltry_operator.Controller.Cluster.Machine.Balance.{stored-book, closing, reconcile-Balanced}

regroup : (a b c : List ℕ) → Perm (a ++ (b ++ c)) ((a ++ c) ++ b)
regroup a b c =
    subst (λ l. Perm (a ++ (b ++ c)) l) (sym (append_assoc a c b))
      (Perm.append_left a (perm_append_comm b c))

-- One more pass, in which what is recorded and set active is what was recorded and is staged.
Perm-pass :
    (now old given_back taken freed_now staged_now : List ℕ)
    → now ++ freed_now ≡ old ++ staged_now
    → Perm (old ++ given_back) taken
    → Perm (now ++ (given_back ++ freed_now)) (taken ++ staged_now)
Perm-pass now old given_back taken freed_now staged_now e p =
    Perm.trans
      (subst (λ l. Perm (now ++ (given_back ++ freed_now)) (l ++ given_back)) e
        (regroup now given_back freed_now))
      (Perm.trans
        (subst (λ l. Perm l ((old ++ given_back) ++ staged_now))
          (sym (append_assoc old staged_now given_back)) (regroup old staged_now given_back))
        (Perm.append_right staged_now p))

-- The machines that Netbox has set active with no tenant.
abbrev pub set_free : List Event → List ℕ
set_free [] = []
set_free (Event.set_device_status id DeviceStatus.active slug none ∷ es) =
    if str_eq slug "" then id ∷ set_free es else set_free es
set_free (_ ∷ es) = set_free es

-- The machines for which Netbox has answered this with an error.
abbrev pub left_staged : List Event → List ℕ
left_staged [] = []
left_staged (Event.set_device_status id DeviceStatus.active slug (some _) ∷ es) =
    if str_eq slug "" then id ∷ left_staged es else left_staged es
left_staged (_ ∷ es) = left_staged es

accepted_first :
    (b : Bool) (id : ℕ) (free left all : List ℕ)
    → Perm (free ++ left) all
    → Perm ((if b then id ∷ free else free) ++ left) (if b then id ∷ all else all)
accepted_first true id free left all p = Perm.cons id p
accepted_first false id free left all p = p

refused_first :
    (b : Bool) (id : ℕ) (free left all : List ℕ)
    → Perm (free ++ left) all
    → Perm (free ++ (if b then id ∷ left else left)) (if b then id ∷ all else all)
refused_first true id free left all p = Perm.trans (perm_middle free left) (Perm.cons id p)
refused_first false id free left all p = p

-- Each request to set a device active is answered in one of two ways.
freed-answers : (es : List Event) → Perm (set_free es ++ left_staged es) (freed es)
freed-answers [] = Perm.nil
freed-answers (Event.set_device_status id DeviceStatus.active slug none ∷ es) =
    accepted_first (str_eq slug "") id _ _ _ (freed-answers es)
freed-answers (Event.set_device_status id DeviceStatus.active slug (some _) ∷ es) =
    refused_first (str_eq slug "") id _ _ _ (freed-answers es)
freed-answers (_ ∷ es) = freed-answers es

module _ {W : Type 0} (r : ClusterClaimReconciler W) where
  -- The claim as it is stored, the machines that were staged for it, and those that were set active
  -- again, by passes that return no error, before its deletion. Others change the metadata and the
  -- spec.
  pub data Fleet : ClusterClaim → List ℕ → List ℕ → Type 0 where
    filed : (claim : ClusterClaim) → claim.status.allocated_machine_ids ≡ [] → Fleet claim [] []
    edited :
        {old : ClusterClaim} {staged given_back : List ℕ} (new : ClusterClaim)
        → Fleet old staged given_back
        → new.status ≡ old.status
        → Fleet new staged given_back
    passed :
        {old : ClusterClaim} {staged given_back : List ℕ} (key : Key) (w : W)
        → Fleet old staged given_back
        → (r.client.get_cluster_claim key w).0 ≡ ok old
        → old.meta.deletion_timestamp ≡ none
        → (reconcile r key w).0.error ≡ none
        → Fleet
            (stored old (reconcile r key w).1)
            (staged ++ (closing r key w old).staged)
            (given_back ++ (closing r key w old).freed)

  Fleet-Perm :
      {claim : ClusterClaim} {staged given_back : List ℕ}
      → Fleet claim staged given_back
      → Perm (claim.status.allocated_machine_ids ++ given_back) staged
  Fleet-Perm (filed claim e) = rw e (Perm.refl [])
  Fleet-Perm (edited {old} {staged} {given_back} new h same) =
      subst (λ s. Perm (s.allocated_machine_ids ++ given_back) staged) (sym same) (Fleet-Perm h)
  Fleet-Perm (passed {old} {staged} {given_back} key w h got alive fine) =
      rw (stored-book old (opening old) (reconcile r key w).1 refl) (
        Perm-pass _ old.status.allocated_machine_ids given_back staged _ _
          (reconcile-Balanced r key w got alive fine) (Fleet-Perm h))

  Fleet-asks :
      {claim : ClusterClaim} {staged given_back : List ℕ} (w : W)
      → Fleet claim staged given_back
      → Perm (freed (reconcile_delete r claim w).1 ++ given_back) staged
  Fleet-asks {claim} {staged} {given_back} w h =
      subst (λ l. Perm (l ++ given_back) staged) (sym ((reconcile_delete-releases_all r claim w).1))
        (Fleet-Perm h)

  -- Where every pass of a claim before its deletion has returned no error, the machines that were
  -- ever staged for the claim are, each as often and however it has lived, those that were set
  -- active with no tenant before the deletion, those that the finalizer has set active with no
  -- tenant, and those for which it has asked Netbox for that and has got an error, which it drops.
  pub Fleet-returns :
      {claim : ClusterClaim} {staged given_back : List ℕ} (w : W)
      → Fleet claim staged given_back
      → let events = (reconcile_delete r claim w).1 in
        Perm ((set_free events ++ left_staged events) ++ given_back) staged
  Fleet-returns {claim} {staged} {given_back} w h =
      Perm.trans (Perm.append_right given_back (freed-answers (reconcile_delete r claim w).1))
        (Fleet-asks w h)
