-- ===== src/Effect/Traces.antt =====
-- A property of whole traces that joining two traces keeps, along the code.
use smeltry_operator.Base.{List, ◌++◌}
use smeltry_operator.Effect.Events.{Event}
use smeltry_operator.Effect.Blocks.{Flow, next, returned, Block, ◌>>=◌, continue, body}

module _ {W R A : Type 0} (T : List Event → Type 0) (m : Block W R A) where
  pub record Traced : Type 0 where
    pub trace : (w : W) → T (m w).1

module _ {W R A B : Type 0} (T : List Event → Type 0)
    (append : (xs ys : List Event) → T xs → T ys → T (xs ++ ys)) where
  Traced-continue :
      (o : Flow R A) (before : List Event) (f : A → Block W R B) (w : W)
      → T before
      → ((a : A) → Traced T (f a))
      → T (continue o before f w).1
  Traced-continue (next a) before f w h hf = append before _ h ((hf a).trace w)
  Traced-continue (returned r) before f w h hf = h

  pub Traced-bind :
      (m : Block W R A) (f : A → Block W R B)
      → Traced T m
      → ((a : A) → Traced T (f a))
      → Traced T (m >>= f)
  unfolding ◌>>=◌
  Traced-bind m f hm hf = record {
    trace = λ w. Traced-continue (m w).0 (m w).1 f (m w).2 (hm.trace w) hf;
  }

pub Traced-body :
    {W R : Type 0} (T : List Event → Type 0) (m : Block W R R)
    → Traced T m
    → (w : W) → T (body m w).1
unfolding body
Traced-body T m h = h.trace
