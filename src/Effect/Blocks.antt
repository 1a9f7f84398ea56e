-- ===== src/Effect/Blocks.antt =====
-- `Go W A` is a function that returns an `A`. `Block W R A` is a part of the body of a function
-- that returns an `R`: it goes on with an `A`, or the function has returned.
use smeltry_operator.Base.{Bool, true, false, Option, none, some, List, [], ◌∷◌, ◌++◌}
use smeltry_operator.Error.{Error, Result, ok, err}
use smeltry_operator.Effect.Events.{Event}

abbrev pub Go : Type 0 → Type 0 → Type 0
Go W A = W → A × List Event × W

pub data Flow (R A : Type 0) : Type 0 where
  next : A → Flow R A
  returned : R → Flow R A

abbrev pub Block : Type 0 → Type 0 → Type 0 → Type 0
Block W R A = W → Flow R A × List Event × W

module _ {W A : Type 0} where
  -- A call to the outside, with its event, and one that leaves none.
  unfoldable pub logged : (A → Event) → (W → A × W) → Go W A
  logged event m w = let (a, w') = m w in (a, event a ∷ [], w')

  unfoldable pub silent : (W → A × W) → Go W A
  silent m w = let (a, w') = m w in (a, [], w')

module _ {W R A : Type 0} where
  unfoldable pub pure : A → Block W R A
  pure a w = (next a, [], w)

  -- return r
  unfoldable pub return : R → Block W R A
  return r w = (returned r, [], w)

  -- A call of another function.
  unfoldable pub call : Go W A → Block W R A
  call m w = let (a, events, w') = m w in (next a, events, w')

  -- `if err != nil { return f(err) }` after a call that gives a value and an error.
  unfoldable pub value_or : (Error → R) → Result A → Block W R A
  unfolding pure return
  value_or f (ok a) = pure a
  value_or f (err e) = return (f e)

module _ {W R : Type 0} where
  -- `if err != nil { return f(err) }` after a call that gives an error.
  unfoldable pub check : (Error → R) → Option Error → Block W R (Unit {0})
  unfolding pure return
  check f none = pure tt
  check f (some e) = return (f e)

  unfoldable pub return_if : Bool → R → Block W R (Unit {0})
  unfolding pure return
  return_if true r = return r
  return_if false r = pure tt

module _ {W R A B : Type 0} where
  abbrev pub continue : Flow R A → List Event → (A → Block W R B) → Block W R B
  continue (next a) before f w = let (o, after, w') = f a w in (o, before ++ after, w')
  continue (returned r) before f w = (returned r, before, w)

  -- Opening this opens the blocks above too.
  infixl 5 ◌>>=◌ ◌>>◌
  unfoldable pub ◌>>=◌ : Block W R A → (A → Block W R B) → Block W R B
  unfolding pure return call value_or check return_if logged silent
  ◌>>=◌ m f w = let (o, before, w') = m w in continue o before f w'

  abbrev pub ◌>>◌ : Block W R A → Block W R B → Block W R B
  m >> n = m >>= λ _. n

abbrev pub finish : {R : Type 0} → Flow R R → R
finish (next r) = r
finish (returned r) = r

-- A function's body: its last value, or what it has returned before. Opening this opens all
-- blocks.
unfoldable pub body : {W R : Type 0} → Block W R R → Go W R
unfolding ◌>>=◌
body m w = let (o, events, w') = m w in (finish o, events, w')
