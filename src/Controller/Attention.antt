-- ===== src/Controller/Attention.antt =====
-- Whether a reconciler comes back to its object: controller-runtime calls it again after an error,
-- after a reply that asks for it, and after a change of the object, which it watches.
use smeltry_operator.Base.{
  ◌≡◌, Bool, true, false, Option, none, some, List, [], ◌∷◌, ◌++◌, ◌||◌, ℤ, ltb_ℤ, pos, arith,
  if◌then◌else◌,
}
use smeltry_operator.Error.{Error, Result, ok, err}
use smeltry_operator.Kube.{Object}
use smeltry_operator.Effect.{
  Event, Go, Flow, next, returned, Block, ◌>>=◌, pure, return, call, value_or, check, return_if,
  body, continue, finish,
}
use smeltry_operator.Controller.Reply.{Reply}

abbrev pub has_error : Option Error → Bool
has_error none = false
has_error (some _) = true

abbrev pub is_set : Option ℤ → Bool
is_set none = false
is_set (some _) = true

-- The reply alone leads to another call.
abbrev pub asks : Reply → Bool
asks rep = has_error rep.error || (rep.result.requeue || ltb_ℤ (pos 0) rep.result.requeue_after)

module _ (watched : Object → Bool) where
  -- A write of a watched object that the API server has accepted. Only a write that changes the
  -- object is an event for the watch.
  abbrev pub is_accepted : Event → Bool
  is_accepted (Event.update o none) = watched o
  is_accepted (Event.update_status o none) = watched o
  is_accepted (Event.delete o none) = watched o
  is_accepted _ = false

  abbrev pub written : List Event → Bool
  written [] = false
  written (e ∷ es) = is_accepted e || written es

  -- The reply of a pass leads to another, or the pass had a write of its object accepted.
  abbrev pub ComesBack : Reply → List Event → Type 0
  ComesBack rep es = (asks rep || written es) ≡ true

  or_true : (a b c : Bool) → (a || c) ≡ true → (a || (b || c)) ≡ true
  or_true a b c h = ground arith

  or_left : (a b : Bool) → a ≡ true → (a || b) ≡ true
  or_left a b h = ground arith

  ComesBack-append :
      (rep : Reply) (xs ys : List Event) → ComesBack rep ys → ComesBack rep (xs ++ ys)
  ComesBack-append rep [] ys h = h
  ComesBack-append rep (x ∷ xs) ys h =
      or_true (asks rep) (is_accepted x) (written (xs ++ ys)) (ComesBack-append rep xs ys h)

  abbrev pub Leaves : {A : Type 0} → Flow Reply A → List Event → Type 0
  Leaves (next a) es = Unit
  Leaves (returned rep) es = ComesBack rep es

  Leaves-append :
      {A : Type 0} (o : Flow Reply A) (xs ys : List Event) → Leaves o ys → Leaves o (xs ++ ys)
  Leaves-append (next a) xs ys h = tt
  Leaves-append (returned rep) xs ys h = ComesBack-append rep xs ys h

  module _ {W A : Type 0} (m : Block W Reply A) where
    -- The same of a function that a block ends.
    pub record Attends : Type 0 where
      pub at : (w : W) → Leaves (m w).0 (m w).1

  module _ {W : Type 0} (m : Block W Reply Reply) where
    -- The same of a block that is the rest of a function.
    pub record Closes : Type 0 where
      pub at : (w : W) → ComesBack (finish (m w).0) (m w).1

  module _ {W A B : Type 0} where
    Attends-continue :
        (o : Flow Reply A) (before : List Event) (f : A → Block W Reply B) (w : W)
        → Leaves o before
        → ((a : A) → Attends (f a))
        → Leaves (continue o before f w).0 (continue o before f w).1
    Attends-continue (next a) before f w h hf =
        Leaves-append (f a w).0 before (f a w).1 ((hf a).at w)
    Attends-continue (returned rep) before f w h hf = h

    pub Attends-bind :
        (m : Block W Reply A) (f : A → Block W Reply B)
        → Attends m
        → ((a : A) → Attends (f a))
        → Attends (m >>= f)
    unfolding ◌>>=◌
    Attends-bind m f hm hf = record {
      at = λ w. Attends-continue (m w).0 (m w).1 f (m w).2 (hm.at w) hf;
    }

  module _ {W A : Type 0} where
    Closes-continue :
        (o : Flow Reply A) (before : List Event) (f : A → Block W Reply Reply) (w : W)
        → Leaves o before
        → ((a : A) → Closes (f a))
        → ComesBack (finish (continue o before f w).0) (continue o before f w).1
    Closes-continue (next a) before f w h hf =
        ComesBack-append (finish (f a w).0) before (f a w).1 ((hf a).at w)
    Closes-continue (returned rep) before f w h hf = h

    pub Closes-bind :
        (m : Block W Reply A) (f : A → Block W Reply Reply)
        → Attends m
        → ((a : A) → Closes (f a))
        → Closes (m >>= f)
    unfolding ◌>>=◌
    Closes-bind m f hm hf = record {
      at = λ w. Closes-continue (m w).0 (m w).1 f (m w).2 (hm.at w) hf;
    }

  module _ {W A : Type 0} where
    pub Attends-pure : (a : A) → Attends {W = W} (pure a)
    unfolding pure
    Attends-pure a = record { at = λ w. tt }

    pub Attends-call : (m : Go W A) → Attends (call m)
    unfolding call
    Attends-call m = record { at = λ w. tt }

    pub Attends-return : (rep : Reply) → asks rep ≡ true → Attends {W = W} {A = A} (return rep)
    unfolding return
    Attends-return rep h = record { at = λ w. or_left (asks rep) false h }

    pub Attends-if :
        (b : Bool) (m n : Block W Reply A) → Attends m → Attends n → Attends (if b then m else n)
    Attends-if true m n hm hn = hm
    Attends-if false m n hm hn = hn

    Attends-value_or :
        (f : Error → Reply) (v : Result A)
        → ((e : Error) → asks (f e) ≡ true)
        → Attends {W = W} (value_or f v)
    unfolding value_or
    Attends-value_or f (ok a) h = record { at = λ w. tt }
    Attends-value_or f (err e) h = record { at = λ w. or_left (asks (f e)) false (h e) }

  module _ {W A : Type 0} where
    -- A call whose error ends the function.
    pub Attends-valued :
        (m : Go W (Result A)) (f : Error → Reply)
        → ((e : Error) → asks (f e) ≡ true)
        → Attends (call m >>= value_or f)
    Attends-valued m f h =
        Attends-bind (call m) (value_or f) (Attends-call m) λ v. Attends-value_or f v h

  module _ {W : Type 0} where
    Attends-check :
        (f : Error → Reply) (e : Option Error)
        → ((x : Error) → asks (f x) ≡ true)
        → Attends {W = W} (check f e)
    unfolding check
    Attends-check f none h = record { at = λ w. tt }
    Attends-check f (some e) h = record { at = λ w. or_left (asks (f e)) false (h e) }

    pub Attends-checked :
        (m : Go W (Option Error)) (f : Error → Reply)
        → ((e : Error) → asks (f e) ≡ true)
        → Attends (call m >>= check f)
    Attends-checked m f h =
        Attends-bind (call m) (check f) (Attends-call m) λ e. Attends-check f e h

    pub Attends-return_if :
        (b : Bool) (rep : Reply) → asks rep ≡ true → Attends {W = W} (return_if b rep)
    unfolding return_if
    Attends-return_if true rep h = record { at = λ w. or_left (asks rep) false h }
    Attends-return_if false rep h = record { at = λ w. tt }

    pub Closes-pure : (rep : Reply) → asks rep ≡ true → Closes {W = W} (pure rep)
    unfolding pure
    Closes-pure rep h = record { at = λ w. or_left (asks rep) false h }

    pub Closes-if :
        (b : Bool) (m n : Block W Reply Reply) → Closes m → Closes n → Closes (if b then m else n)
    Closes-if true m n hm hn = hm
    Closes-if false m n hm hn = hn

  module _ {W : Type 0} (m : Go W Reply) where
    -- The same of a whole function.
    abbrev pub Back : Type 0
    Back = (w : W) → ComesBack (m w).0 (m w).1

  module _ {W : Type 0} where
    pub Closes-body : (m : Block W Reply Reply) → Closes m → Back (body m)
    unfolding body
    Closes-body m h w = h.at w

    pub Closes-call : (m : Go W Reply) → Back m → Closes (call m)
    unfolding call
    Closes-call m h = record { at = h }
