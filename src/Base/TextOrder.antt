-- ===== src/Base/TextOrder.antt =====
-- The order of strings is a strict total order.
use Prim.Native.Nat.{compare as compare_ℕ, Ordering}
use Prim.Native.Char.{Char, code}
use Prim.Native.String.compare as Compare
use Prim.Native.String.{String, compare, then}
use mathlib.Core.Path.{◌≡◌}
use mathlib.Core.Bool.{true, false}
use native.Mathlib.Omega.{arith}
use smeltry_operator.Base.Text.{str_ltb, str_eq}

-- The clauses of `compare`, as equations.
compare-nil-nil : compare String.[] String.[] ≡ Ordering.eq
compare-nil-nil i = Compare.nil-nil i

compare-nil-cons : (d : Char) (t : String) → compare String.[] (String.◌∷◌ d t) ≡ Ordering.lt
compare-nil-cons d t i = Compare.nil-cons d t i

compare-cons-nil : (c : Char) (s : String) → compare (String.◌∷◌ c s) String.[] ≡ Ordering.gt
compare-cons-nil c s i = Compare.cons-nil c s i

compare-cons-cons :
    (c d : Char) (s t : String)
    → compare (String.◌∷◌ c s) (String.◌∷◌ d t) ≡ then (compare_ℕ (code c) (code d)) (compare s t)
compare-cons-cons c d s t i = Compare.cons-cons c d s t i

pub str_ltb_trans : (s t u : String) → str_ltb s t ≡ true → str_ltb t u ≡ true → str_ltb s u ≡ true
str_ltb_trans String.[] String.[] u h k = k
str_ltb_trans String.[] (String.◌∷◌ d t) String.[] h k = ground (arith, compare-cons-nil d t)
str_ltb_trans String.[] (String.◌∷◌ d t) (String.◌∷◌ c u) h k = ground (arith, compare-nil-cons c u)
str_ltb_trans (String.◌∷◌ c s) String.[] u h k = ground (arith, compare-cons-nil c s)
str_ltb_trans (String.◌∷◌ c s) (String.◌∷◌ d t) String.[] h k = ground (arith, compare-cons-nil d t)
str_ltb_trans (String.◌∷◌ c s) (String.◌∷◌ d t) (String.◌∷◌ e u) h k = ground (
  arith,
  compare-cons-cons c d s t,
  compare-cons-cons d e t u,
  compare-cons-cons c e s u,
  str_ltb_trans s t u,
)

pub str_ltb_total : (s t : String) → str_ltb s t ≡ false → str_eq s t ≡ false → str_ltb t s ≡ true
str_ltb_total String.[] String.[] h k = ground (arith, compare-nil-nil)
str_ltb_total String.[] (String.◌∷◌ d t) h k = ground (arith, compare-nil-cons d t)
str_ltb_total (String.◌∷◌ c s) String.[] h k = ground (arith, compare-nil-cons c s)
str_ltb_total (String.◌∷◌ c s) (String.◌∷◌ d t) h k =
    ground (arith, compare-cons-cons c d s t, compare-cons-cons d c t s, str_ltb_total s t)
