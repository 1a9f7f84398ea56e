-- ===== src/Controller/History.antt =====
-- The objects that are stored under one name, one after another, and the changes of their phase.
use mathlib.Core.Path.{subst}
use smeltry_operator.Base.{ℕ, suc, ◌+◌, ◌≤◌, ◌≡◌, ◌≢◌, ◌⊎◌, inl, inr, List, [], ◌∷◌, All, ap, arith}
use smeltry_operator.Effect.{Event}

abbrev pub Occurs : Event → List Event → Type 0
Occurs e [] = ⊥
Occurs e (x ∷ xs) = (x ≡ e) ⊎ Occurs e xs

pub All-Occurs : (P : Event → Type 0) (es : List Event) {e : Event} → All P es → Occurs e es → P e
All-Occurs P [] h o = absurd o
All-Occurs P (x ∷ xs) h (inl p) = subst P p h.0
All-Occurs P (x ∷ xs) h (inr o) = All-Occurs P xs h.1 o

module _ {S P : Type 0} (phase : S → P) (Wrote : S → S → Type 0) where
  -- From a first object on, with the number of times that the phase has changed: others edit the
  -- object and leave its phase, reconciles write its status. The API server takes a status only
  -- from a pass that has read the object as it is stored.
  pub data History (first : S) : ℕ → S → Type 0 where
    filed : History first 0 first
    edited :
        {n : ℕ} {old : S} (new : S)
        → History first n old
        → phase new ≡ phase old
        → History first n new
    kept :
        {n : ℕ} {old : S} (new : S)
        → History first n old
        → Wrote old new
        → phase new ≡ phase old
        → History first n new
    moved :
        {n : ℕ} {old : S} (new : S)
        → History first n old
        → Wrote old new
        → phase new ≢ phase old
        → History first (suc n) new

  module _ (rank : P → ℕ)
      (falls : (old new : S)
        → Wrote old new
        → phase new ≢ phase old
        → suc (rank (phase new)) ≤ rank (phase old)) where
    pub History-rank :
        {first : S} {n : ℕ} {last : S}
        → History first n last
        → n + rank (phase last) ≤ rank (phase first)
    History-rank filed = omega arith
    History-rank (edited new h same) = omega (arith, History-rank h, ap rank same)
    History-rank (kept new h wrote same) = omega (arith, History-rank h, ap rank same)
    History-rank (moved {n} {old} new h wrote other) =
        omega (arith, History-rank h, falls old new wrote other)
