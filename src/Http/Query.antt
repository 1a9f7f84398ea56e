-- ===== src/Http/Query.antt =====
-- net/url, as far as the client uses it: Values, which a query is built in, and its Encode.
pub mod Roundtrip
use smeltry_operator.Base.{
  ℕ, ◌+◌, ◌-◌, ◌/◌, ◌%◌, String, Bool, List, [], ◌∷◌, ◌++◌, ltb, leb, ◌==◌, ◌&&◌, ◌||◌, str_eq,
  str_ltb, if◌then◌else◌,
}
use smeltry_operator.Http.Bytes.{Bytes, utf8}

-- url.Values, where each key has one value: Set is the only call that puts one in.
abbrev pub Values : Type 0
Values = List (String × String)

unfoldable pub set_value : String → String → Values → Values
set_value key value [] = (key, value) ∷ []
set_value key value ((k, v) ∷ rest) =
    if str_eq k key then (k, value) ∷ rest else (k, v) ∷ set_value key value rest

-- The bytes that stand for themselves: letters, digits and - _ . ~
is_plain : ℕ → Bool
is_plain b =
    (leb b'a' b && leb b b'z')
    || (leb b'A' b && leb b b'Z')
    || (leb b'0' b && leb b b'9')
    || b == b'-'
    || b == b'_'
    || b == b'.'
    || b == b'~'

hex_digit : ℕ → ℕ
hex_digit n = if ltb n 10 then b'0' + n else b'A' + (n - 10)

escape_byte : ℕ → Bytes
unfolding is_plain hex_digit
escape_byte b =
    if is_plain b
    then b ∷ []
    else if b == b' '
    then b'+' ∷ []
    else b'%' ∷ hex_digit (b / 16) ∷ hex_digit (b % 16) ∷ []

-- url.QueryEscape
unfoldable pub query_escape : Bytes → Bytes
unfolding escape_byte
query_escape [] = []
query_escape (b ∷ bs) = escape_byte b ++ query_escape bs

insert_value : String → String → Values → Values
insert_value key value [] = (key, value) ∷ []
insert_value key value ((k, v) ∷ rest) =
    if str_ltb k key then (k, v) ∷ insert_value key value rest else (key, value) ∷ (k, v) ∷ rest

unfoldable pub sort_values : Values → Values
unfolding insert_value
sort_values [] = []
sort_values ((k, v) ∷ rest) = insert_value k v (sort_values rest)

encode_pair : String × String → Bytes
unfolding query_escape
encode_pair (key, value) = query_escape (utf8 key) ++ (b'=' ∷ query_escape (utf8 value))

unfoldable pub join_pairs : Values → Bytes
unfolding encode_pair
join_pairs [] = []
join_pairs (p ∷ []) = encode_pair p
join_pairs (p ∷ q ∷ rest) = encode_pair p ++ (b'&' ∷ join_pairs (q ∷ rest))

-- Values.Encode: by key, joined by &.
unfoldable pub encode : Values → Bytes
unfolding sort_values join_pairs
encode values = join_pairs (sort_values values)
