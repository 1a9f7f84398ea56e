-- ===== src/Http/Bytes.antt =====
-- The bytes of a Go string, which is UTF-8.
use Prim.Native.Char.{code, char, IsScalar}
use smeltry_operator.Base.{
  ℕ, ◌+◌, ◌/◌, ◌%◌, ◌<◌, String, List, [], ◌∷◌, ◌++◌, ltb, if◌then◌else◌, All, All-append, arith,
}

abbrev pub Bytes : Type 0
Bytes = List ℕ

abbrev pub IsByte : ℕ → Type 0
IsByte b = b < 256

-- One code point, in one to four bytes.
utf8_point : ℕ → Bytes
utf8_point n =
    if ltb n 128
    then n ∷ []
    else if ltb n 2048
    then (192 + n / 64) ∷ (128 + n % 64) ∷ []
    else if ltb n 65536
    then (224 + n / 4096) ∷ (128 + n / 64 % 64) ∷ (128 + n % 64) ∷ []
    else (240 + n / 262144) ∷ (128 + n / 4096 % 64) ∷ (128 + n / 64 % 64) ∷ (128 + n % 64) ∷ []

unfoldable pub utf8 : String → Bytes
unfolding utf8_point
utf8 String.[] = []
utf8 (String.◌∷◌ c s) = utf8_point (code c) ++ utf8 s

scalar_bound : (n : ℕ) → IsScalar n → n < 1114112
scalar_bound n h = ground arith

utf8_point-IsByte : (n : ℕ) → n < 1114112 → All IsByte (utf8_point n)
unfolding utf8_point
utf8_point-IsByte n h = ground arith

pub utf8-IsByte : (s : String) → All IsByte (utf8 s)
unfolding utf8
utf8-IsByte String.[] = tt
utf8-IsByte (String.◌∷◌ (char n h) s) =
    All-append IsByte _ (utf8 s) (utf8_point-IsByte n (scalar_bound n h)) (utf8-IsByte s)
