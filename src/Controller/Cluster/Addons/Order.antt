-- ===== src/Controller/Cluster/Addons/Order.antt =====
-- The order in which the HelmReleases are applied.
use mathlib.Core.List.{Perm}
use mathlib.Core.List.Perm
use smeltry_operator.Base.{ℕ, ◌≤◌, List, [], ◌∷◌, Bool-cases, inl, inr, ltb, arith, All, All-mono}
use smeltry_operator.Api.{AddonComponent}
use smeltry_operator.Controller.Cluster.Addons.{insert_component, sort_components}

-- No component of the list has an order below `n`.
abbrev pub NoneBelow : ℕ → List AddonComponent → Type 0
NoneBelow n cs = All (λ c. n ≤ c.order) cs

-- No component has an order below that of one before it.
abbrev pub Sorted : List AddonComponent → Type 0
Sorted [] = Unit
Sorted (c ∷ cs) = NoneBelow c.order cs × Sorted cs

insert_component-NoneBelow :
    (n : ℕ) (c : AddonComponent) (cs : List AddonComponent)
    → n ≤ c.order
    → NoneBelow n cs
    → NoneBelow n (insert_component c cs)
unfolding insert_component
insert_component-NoneBelow n c [] h hs = (h, tt)
insert_component-NoneBelow n c (d ∷ ds) h hs =
    ground (arith, insert_component-NoneBelow n c ds h hs.1)

insert_component-Sorted :
    (c : AddonComponent) (cs : List AddonComponent) → Sorted cs → Sorted (insert_component c cs)
unfolding insert_component
insert_component-Sorted c [] h = (tt, tt)
insert_component-Sorted c (d ∷ ds) h = elim (Bool-cases (ltb d.order c.order)) [
  | inl below ↦
      rw below (
        insert_component-NoneBelow d.order c ds (ground arith) h.0,
        insert_component-Sorted c ds h.1,
      )
  | inr above ↦ rw above ((ground arith, All-mono _ _ (λ e le. ground arith) ds h.0), h)
]

insert_component_perm :
    (c : AddonComponent) (cs : List AddonComponent) → Perm (insert_component c cs) (c ∷ cs)
unfolding insert_component
insert_component_perm c [] = Perm.refl (c ∷ [])
insert_component_perm c (d ∷ ds) = elim (Bool-cases (ltb d.order c.order)) [
  | inl below ↦ rw below (Perm.trans (Perm.cons d (insert_component_perm c ds)) (Perm.swap c d ds))
  | inr above ↦ rw above (Perm.refl (c ∷ d ∷ ds))
]

sort_components_perm : (cs : List AddonComponent) → Perm (sort_components cs) cs
unfolding sort_components
sort_components_perm [] = Perm.nil
sort_components_perm (c ∷ cs) =
    Perm.trans (insert_component_perm c (sort_components cs))
      (Perm.cons c (sort_components_perm cs))

sort_components-Sorted : (cs : List AddonComponent) → Sorted (sort_components cs)
unfolding sort_components
sort_components-Sorted [] = tt
sort_components-Sorted (c ∷ cs) =
    insert_component-Sorted c (sort_components cs) (sort_components-Sorted cs)

-- The components that stepWatchAddons goes through are those of the profile, each as often as
-- there, and none comes before one of a lower order.
pub sort_components_lem :
    (cs : List AddonComponent) → Perm (sort_components cs) cs × Sorted (sort_components cs)
sort_components_lem cs = (sort_components_perm cs, sort_components-Sorted cs)
