-- ===== src/Effect/Emits.antt =====
-- A Hoare rule for each way to build a function: `P` holds of every call that is made, `Q` of the
-- value that a block goes on with, and `X` of the value that the function returns.
use smeltry_operator.Base.{
  ◌≡◌, refl, Bool, true, false, Option, none, some, List, [], ◌∷◌, All, All-append, if◌then◌else◌,
}
use smeltry_operator.Error.{Error, Result, ok, err}
use smeltry_operator.Effect.Events.{Event}
use smeltry_operator.Effect.Blocks.{
  Go, Flow, next, returned, Block, ◌>>=◌, pure, return, call, value_or, check, return_if, body,
  continue, finish, logged, silent,
}

module _ {R A : Type 0} (X : R → Type 0) (Q : A → Type 0) where
  abbrev pub Ends : Flow R A → Type 0
  Ends (next a) = Q a
  Ends (returned r) = X r

Ends-finish : {R : Type 0} (X : R → Type 0) (o : Flow R R) → Ends X X o → X (finish o)
Ends-finish X (next r) h = h
Ends-finish X (returned r) h = h

module _ {W A : Type 0} (P : Event → Type 0) (Q : A → Type 0) (m : Go W A) where
  pub record Emits : Type 0 where
    pub at : (w : W) → All P (m w).1 × Q (m w).0

module _ {W R A : Type 0} (P : Event → Type 0) (X : R → Type 0) (Q : A → Type 0)
    (m : Block W R A) where
  pub record Runs : Type 0 where
    pub at : (w : W) → All P (m w).1 × Ends X Q (m w).0

-- No condition on a value.
abbrev pub Any : {A : Type 0} → A → Type 0
Any _ = Unit

module _ {W R A B : Type 0} (P : Event → Type 0) (X : R → Type 0) (Q : A → Type 0)
    (S : B → Type 0) where
  pub Runs-continue :
      (o : Flow R A) (before : List Event) (f : A → Block W R B) (w : W)
      → All P before
      → Ends X Q o
      → ((a : A) → Q a → Runs P X S (f a))
      → All P (continue o before f w).1 × Ends X S (continue o before f w).0
  Runs-continue (next a) before f w hb ho hf =
      (All-append P before _ hb ((hf a ho).at w).0, ((hf a ho).at w).1)
  Runs-continue (returned r) before f w hb ho hf = (hb, ho)

  pub Runs-bind :
      (m : Block W R A) (f : A → Block W R B)
      → Runs P X Q m
      → ((a : A) → Q a → Runs P X S (f a))
      → Runs P X S (m >>= f)
  unfolding ◌>>=◌
  Runs-bind m f hm hf = record {
    at = λ w. Runs-continue (m w).0 (m w).1 f (m w).2 (hm.at w).0 (hm.at w).1 hf;
  }

module _ {R A : Type 0} (X : R → Type 0) (Q S : A → Type 0) where
  Ends-weaken : (o : Flow R A) → ((a : A) → Q a → S a) → Ends X Q o → Ends X S o
  Ends-weaken (next a) f h = f a h
  Ends-weaken (returned r) f h = h

module _ {W R A : Type 0} (P : Event → Type 0) (X : R → Type 0) (Q S : A → Type 0) where
  pub Runs-weaken : (m : Block W R A) → ((a : A) → Q a → S a) → Runs P X Q m → Runs P X S m
  Runs-weaken m f h = record { at = λ w. ((h.at w).0, Ends-weaken X Q S (m w).0 f (h.at w).1) }

module _ {W R : Type 0} (P : Event → Type 0) (X : R → Type 0) where
  pub Runs-pure : {A : Type 0} (Q : A → Type 0) (a : A) → Q a → Runs {W = W} P X Q (pure a)
  unfolding pure return
  Runs-pure Q a h = record { at = λ w. (tt, h) }

  pub Runs-return : {A : Type 0} (Q : A → Type 0) (r : R) → X r → Runs {W = W} P X Q (return r)
  unfolding pure return
  Runs-return Q r h = record { at = λ w. (tt, h) }

  pub Runs-check :
      (f : Error → R) (e : Option Error)
      → ((x : Error) → X (f x))
      → Runs {W = W} P X (λ _. e ≡ none) (check f e)
  unfolding check
  Runs-check f none h = record { at = λ w. (tt, refl) }
  Runs-check f (some e) h = record { at = λ w. (tt, h e) }

  pub Runs-return_if :
      (b : Bool) (r : R) → (b ≡ true → X r) → Runs {W = W} P X (λ _. b ≡ false) (return_if b r)
  unfolding return_if
  Runs-return_if true r h = record { at = λ w. (tt, h refl) }
  Runs-return_if false r h = record { at = λ w. (tt, refl) }

  pub Runs-value_or :
      {A : Type 0} (f : Error → R) (v : Result A)
      → ((e : Error) → X (f e))
      → Runs {W = W} P X (λ a. v ≡ ok a) (value_or f v)
  unfolding value_or
  Runs-value_or f (ok a) h = record { at = λ w. (tt, refl) }
  Runs-value_or f (err e) h = record { at = λ w. (tt, h e) }

  pub Runs-call : {A : Type 0} (Q : A → Type 0) (m : Go W A) → Emits P Q m → Runs P X Q (call m)
  unfolding call
  Runs-call Q m h = record { at = λ w. h.at w }

  -- A call whose error ends the function.
  pub Runs-checked :
      (m : Go W (Option Error)) (f : Error → R)
      → Emits P Any m
      → ((e : Error) → X (f e))
      → Runs P X Any (call m >>= check f)
  Runs-checked m f hm hf =
      Runs-bind P X Any Any _ _ (Runs-call Any m hm)
        λ e _. Runs-weaken P X (λ _. e ≡ none) Any (check f e) (λ _ _. tt) (Runs-check f e hf)

  pub Runs-valued :
      {A : Type 0} (m : Go W (Result A)) (f : Error → R)
      → Emits P Any m
      → ((e : Error) → X (f e))
      → Runs P X Any (call m >>= value_or f)
  Runs-valued m f hm hf =
      Runs-bind P X Any Any _ _ (Runs-call Any m hm)
        λ v _. Runs-weaken P X (λ a. v ≡ ok a) Any (value_or f v) (λ _ _. tt) (Runs-value_or f v hf)

  pub Emits-body : (m : Block W R R) → Runs P X X m → Emits P X (body m)
  unfolding body
  Emits-body m h = record { at = λ w. ((h.at w).0, Ends-finish X (m w).0 (h.at w).1) }

module _ {W R A : Type 0} {P : Event → Type 0} {X : R → Type 0} {Q : A → Type 0} where
  pub Runs-if :
      (b : Bool) (m n : Block W R A) → Runs P X Q m → Runs P X Q n → Runs P X Q (if b then m else n)
  Runs-if true m n hm hn = hm
  Runs-if false m n hm hn = hn

module _ {W A : Type 0} (P : Event → Type 0) where
  pub Emits-logged :
      (event : A → Event) (m : W → A × W) → ((a : A) → P (event a)) → Emits P Any (logged event m)
  unfolding logged
  Emits-logged event m h = record { at = λ w. ((h (m w).0, tt), tt) }

  pub Emits-silent : (m : W → A × W) → Emits P Any (silent m)
  unfolding silent
  Emits-silent m = record { at = λ w. (tt, tt) }

module _ {W R A : Type 0} {P : Event → Type 0} {X : R → Type 0} {Q : A → Type 0} where
  -- The same, where a branch may use its test.
  pub Runs-if_of :
      (b : Bool) (m n : Block W R A)
      → (b ≡ true → Runs P X Q m)
      → (b ≡ false → Runs P X Q n)
      → Runs P X Q (if b then m else n)
  Runs-if_of true m n hm hn = hm refl
  Runs-if_of false m n hm hn = hn refl

pub All-weaken :
    {P S : Event → Type 0} (es : List Event) → ((e : Event) → P e → S e) → All P es → All S es
All-weaken [] f h = tt
All-weaken (e ∷ es) f h = (f e h.0, All-weaken es f h.1)

module _ {W R A : Type 0} {P S : Event → Type 0} {X : R → Type 0} {Q : A → Type 0}
    {m : Block W R A} where
  -- The same block, of whose calls less is said.
  pub Runs-emits : ((e : Event) → P e → S e) → Runs P X Q m → Runs S X Q m
  Runs-emits f h = record { at = λ w. (All-weaken (m w).1 f (h.at w).0, (h.at w).1) }

module _ {W A : Type 0} {P S : Event → Type 0} {Q : A → Type 0} {m : Go W A} where
  pub Emits-emits : ((e : Event) → P e → S e) → Emits P Q m → Emits S Q m
  Emits-emits f h = record { at = λ w. (All-weaken (m w).1 f (h.at w).0, (h.at w).1) }
