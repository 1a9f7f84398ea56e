-- ===== src/Http/Query/Roundtrip.antt =====
-- A query that is read again gives the values that it was built from.
use smeltry_operator.Base.{
  ℕ, ◌+◌, ◌*◌, ◌-◌, ◌/◌, ◌%◌, ◌<◌, ◌≡◌, refl, ◌∙◌, ◌≢◌, String, Option, none, some, List, [], ◌∷◌,
  ◌++◌, leb, ◌==◌, ◌&&◌, if◌then◌else◌, All, All-append, arith, ap,
}
use smeltry_operator.Http.Bytes.{Bytes, IsByte, utf8, utf8-IsByte}
use smeltry_operator.Http.Query.{
  Values, is_plain, hex_digit, escape_byte, query_escape, sort_values, encode_pair, join_pairs,
  encode,
}

-- How a server reads an escaped text: what a byte means depends on the two before it.
pub data Mode : Type 0 where
  plain percent : Mode
  high : ℕ → Mode

pub hex_value : ℕ → Option ℕ
hex_value c =
    if leb b'0' c && leb c b'9'
    then some (c - b'0')
    else if leb b'A' c && leb c b'F'
    then some (c - b'A' + 10)
    else none

abbrev cons_to : ℕ → Option Bytes → Option Bytes
cons_to b none = none
cons_to b (some bs) = some (b ∷ bs)

abbrev then_do : {A B : Type 0} → Option A → (A → Option B) → Option B
then_do none f = none
then_do (some a) f = f a

pub read_from : Mode → Bytes → Option Bytes
unfolding hex_value
read_from plain [] = some []
read_from percent [] = none
read_from (high n) [] = none
read_from plain (c ∷ cs) =
    let escape = read_from percent cs in
    let rest = read_from plain cs in
    if c == b'%' then escape else if c == b'+' then cons_to b' ' rest else cons_to c rest
read_from percent (c ∷ cs) = then_do (hex_value c) λ n. read_from (high n) cs
read_from (high n) (c ∷ cs) = then_do (hex_value c) λ m. cons_to (16 * n + m) (read_from plain cs)

hex_value-hex_digit : (n : ℕ) → n < 16 → hex_value (hex_digit n) ≡ some n
unfolding hex_value hex_digit
hex_value-hex_digit n h = ground arith

read_from-escape_byte :
    (b : ℕ) (rest : Bytes)
    → IsByte b
    → read_from plain (escape_byte b ++ rest) ≡ cons_to b (read_from plain rest)
unfolding read_from escape_byte is_plain
read_from-escape_byte b rest h =
    ground (arith, hex_value-hex_digit (b / 16), hex_value-hex_digit (b % 16))

read_from-query_escape : (bs : Bytes) → All IsByte bs → read_from plain (query_escape bs) ≡ some bs
unfolding query_escape read_from
read_from-query_escape [] h = refl
read_from-query_escape (b ∷ bs) h =
    read_from-escape_byte b (query_escape bs) h.0 ∙ ap (cons_to b) (read_from-query_escape bs h.1)

-- The rest of a text behind the first of a byte, and what is before it.
abbrev Cut : Type 0
Cut = Bytes × Option Bytes

abbrev cut_cons : ℕ → Cut → Cut
cut_cons c (before, after) = (c ∷ before, after)

pub cut_at : ℕ → Bytes → Cut
cut_at sep [] = ([], none)
cut_at sep (c ∷ cs) =
    let rest = cut_at sep cs in if c == sep then ([], some cs) else cut_cons c rest

abbrev pub Lacks : ℕ → Bytes → Type 0
Lacks sep = All (λ c. c ≢ sep)

cut_at-append :
    (sep : ℕ) (xs ys : Bytes) → Lacks sep xs → cut_at sep (xs ++ (sep ∷ ys)) ≡ (xs, some ys)
unfolding cut_at
cut_at-append sep [] ys h = ground arith
cut_at-append sep (x ∷ xs) ys h = ground (arith, cut_at-append sep xs ys h.1)

-- The texts between the separators.
abbrev push_head : ℕ → List Bytes → List Bytes
push_head c [] = (c ∷ []) ∷ []
push_head c (part ∷ parts) = (c ∷ part) ∷ parts

pub split_at : ℕ → Bytes → List Bytes
split_at sep [] = [] ∷ []
split_at sep (c ∷ cs) =
    let rest = split_at sep cs in if c == sep then [] ∷ rest else push_head c rest

split_at-alone : (sep : ℕ) (xs : Bytes) → Lacks sep xs → split_at sep xs ≡ xs ∷ []
unfolding split_at
split_at-alone sep [] h = refl
split_at-alone sep (x ∷ xs) h = ground (arith, split_at-alone sep xs h.1)

split_at-append :
    (sep : ℕ) (xs ys : Bytes)
    → Lacks sep xs
    → split_at sep (xs ++ (sep ∷ ys)) ≡ xs ∷ split_at sep ys
unfolding split_at
split_at-append sep [] ys h = ground arith
split_at-append sep (x ∷ xs) ys h = ground (arith, split_at-append sep xs ys h.1)

-- One name and its value.
abbrev read_cut : Cut → Option (Bytes × Bytes)
read_cut (name, none) = none
read_cut (name, some value) =
    then_do (read_from plain name) λ k. then_do (read_from plain value) λ v. some (k, v)

read_pair : Bytes → Option (Bytes × Bytes)
unfolding cut_at
read_pair part = read_cut (cut_at b'=' part)

read_pairs : List Bytes → Option (List (Bytes × Bytes))
unfolding read_pair
read_pairs [] = some []
read_pairs (part ∷ parts) =
    then_do (read_pair part) λ p. then_do (read_pairs parts) λ ps. some (p ∷ ps)

-- How a server reads a query that is not empty: names and values between & and =, each escaped.
pub read_query : Bytes → Option (List (Bytes × Bytes))
unfolding split_at read_pairs
read_query [] = some []
read_query (c ∷ cs) = read_pairs (split_at b'&' (c ∷ cs))

-- The names and values as their bytes.
abbrev pub wire : Values → List (Bytes × Bytes)
wire [] = []
wire ((k, v) ∷ rest) = (utf8 k, utf8 v) ∷ wire rest

escape_byte-Lacks : (b : ℕ) → Lacks b'&' (escape_byte b) × Lacks b'=' (escape_byte b)
unfolding escape_byte is_plain hex_digit
escape_byte-Lacks b = ground arith

query_escape-Lacks : (bs : Bytes) → Lacks b'&' (query_escape bs) × Lacks b'=' (query_escape bs)
unfolding query_escape
query_escape-Lacks [] = (tt, tt)
query_escape-Lacks (b ∷ bs) =
    let (first, first') = escape_byte-Lacks b in
    let (rest, rest') = query_escape-Lacks bs in
    (
      All-append _ (escape_byte b) (query_escape bs) first rest,
      All-append _ (escape_byte b) (query_escape bs) first' rest',
    )

encode_pair-Lacks : (k v : String) → Lacks b'&' (encode_pair (k, v))
unfolding encode_pair
encode_pair-Lacks k v =
    All-append _ (query_escape (utf8 k)) _ (query_escape-Lacks (utf8 k)).0
      (ground arith, (query_escape-Lacks (utf8 v)).0)

read_pair-encode_pair : (k v : String) → read_pair (encode_pair (k, v)) ≡ some (utf8 k, utf8 v)
unfolding read_pair encode_pair
read_pair-encode_pair k v =
    ap read_cut (
      cut_at-append b'=' (query_escape (utf8 k)) (query_escape (utf8 v))
        (query_escape-Lacks (utf8 k)).1)
    ∙ ap
        (λ n. then_do n λ k'. then_do (read_from plain (query_escape (utf8 v))) λ v'. some (k', v'))
        (read_from-query_escape (utf8 k) (utf8-IsByte k))
    ∙ ap (λ n. then_do n λ v'. some (utf8 k, v')) (read_from-query_escape (utf8 v) (utf8-IsByte v))

read_pairs-join_pairs :
    (k v : String) (ps : Values)
    → read_pairs (split_at b'&' (join_pairs ((k, v) ∷ ps))) ≡ some (wire ((k, v) ∷ ps))
unfolding read_pairs join_pairs
read_pairs-join_pairs k v [] =
    rw (split_at-alone b'&' (encode_pair (k, v)) (encode_pair-Lacks k v))
      (rw (read_pair-encode_pair k v) refl)
read_pairs-join_pairs k v ((k', v') ∷ ps) =
    rw
      (split_at-append b'&' (encode_pair (k, v)) (join_pairs ((k', v') ∷ ps))
        (encode_pair-Lacks k v))
      (rw (read_pair-encode_pair k v) (rw (read_pairs-join_pairs k' v' ps) refl))

-- A text that is not empty.
abbrev Filled : Bytes → Type 0
Filled bs = (c : ℕ) × (cs : Bytes) × (bs ≡ c ∷ cs)

append-Filled : (xs : Bytes) (c : ℕ) (ys : Bytes) → Filled (xs ++ (c ∷ ys))
append-Filled [] c ys = (c, ys, refl)
append-Filled (x ∷ xs) c ys = (x, xs ++ (c ∷ ys), refl)

join_pairs-Filled : (k v : String) (ps : Values) → Filled (join_pairs ((k, v) ∷ ps))
unfolding join_pairs encode_pair
join_pairs-Filled k v [] = append-Filled (query_escape (utf8 k)) b'=' _
join_pairs-Filled k v (p ∷ ps) = append-Filled (encode_pair (k, v)) b'&' _

read_query-Filled : (bs : Bytes) → Filled bs → read_query bs ≡ read_pairs (split_at b'&' bs)
unfolding read_query
read_query-Filled [] (c, cs, e) = cc
read_query-Filled (b ∷ bs) h = refl

read_query-join_pairs : (ps : Values) → read_query (join_pairs ps) ≡ some (wire ps)
unfolding read_query join_pairs
read_query-join_pairs [] = refl
read_query-join_pairs ((k, v) ∷ ps) =
    read_query-Filled (join_pairs ((k, v) ∷ ps)) (join_pairs-Filled k v ps)
    ∙ read_pairs-join_pairs k v ps

-- Whatever texts the values hold, a server that reads the encoded query gets these values, in the
-- order of their names, and nothing else: no value can end its own and begin another.
pub read_query-encode :
    (values : Values) → read_query (encode values) ≡ some (wire (sort_values values))
unfolding encode
read_query-encode values = read_query-join_pairs (sort_values values)
