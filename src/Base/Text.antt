-- ===== src/Base/Text.antt =====
-- Go's strings: equality, the functions of package strings that the operator calls, and the
-- verbs %d and %q of package fmt.
use Prim.Native.Nat.{ℕ, zero, suc, ◌-◌, ◌/◌, ◌%◌}
use Prim.Native.Char.{Char, code}
use Prim.Native.String.{String, ◌++◌, len, slice, char_at, compare}
use mathlib.Core.Path.{◌≡◌}
use mathlib.Core.Bool.{Bool, ◌&&◌, ◌||◌}
use mathlib.Core.Option.{none, some}
use text.Mathlib.Text.{◌==◌, starts_with, find?, is_lt}
use text.Mathlib.TextPositions.{starts_with-append, len-append, slice-append_right}
use smeltry_operator.Base.Tests.{ltb, ◌==◌ as nat_eq, if◌then◌else◌}

abbrev pub str_eq : String → String → Bool
str_eq s t = s == t

-- The order of strings, by bytes.
abbrev pub str_ltb : String → String → Bool
str_ltb s t = is_lt (compare s t)

-- strings.TrimPrefix
unfoldable pub trim_prefix : String → String → String
trim_prefix s prefix = if starts_with s prefix then slice s (len prefix) (len s) else s

-- s[:i] at the first occurrence of a text, or s where there is none.
unfoldable pub before_first : String → String → String
before_first s mark = elim (find? s mark) [ none ↦ s | some i ↦ slice s 0 i ]

-- The verb %d at a number that is not negative. Ten to the power of the fuel bounds the number.
abbrev digit : ℕ → String
digit d =
    if nat_eq d 0
    then "0"
    else if nat_eq d 1
    then "1"
    else if nat_eq d 2
    then "2"
    else if nat_eq d 3
    then "3"
    else if nat_eq d 4
    then "4"
    else if nat_eq d 5
    then "5"
    else if nat_eq d 6
    then "6"
    else if nat_eq d 7
    then "7"
    else if nat_eq d 8
    then "8"
    else "9"

decimal : ℕ → ℕ → String
decimal zero n = ""
decimal (suc fuel) n =
    let front = decimal fuel (n / 10) in if ltb n 10 then digit n else front ++ digit (n % 10)

unfoldable pub sprint : ℕ → String
unfolding decimal
sprint n = decimal (suc n) n

-- The verb %q at a text of printable characters: a quote and a backslash are escaped.
abbrev escape : Char → String → String
escape c s =
    if nat_eq (code c) 34 || nat_eq (code c) 92 then "\\" ++ (String.◌∷◌ c s) else String.◌∷◌ c s

escaped : String → String
escaped String.[] = ""
escaped (String.◌∷◌ c s) = escape c (escaped s)

unfoldable pub quote : String → String
unfolding escaped
quote s = "\"" ++ (escaped s ++ "\"")

-- strings.ToLower at the ASCII letters; a letter beyond ASCII is left as it is.
abbrev lower : Char → Char
lower c =
    if ltb 64 (code c) && ltb (code c) 91
    then char_at "abcdefghijklmnopqrstuvwxyz" (code c - 65)
    else c

unfoldable pub to_lower : String → String
to_lower String.[] = ""
to_lower (String.◌∷◌ c s) = String.◌∷◌ (lower c) (to_lower s)

pub trim_prefix-append : (p s : String) → trim_prefix (p ++ s) p ≡ s
unfolding trim_prefix
trim_prefix-append p s = rw (starts_with-append p s) (rw (len-append p s) (slice-append_right p s))
