-- ===== src/Controller/Sites/Sorting.antt =====
-- sort.Strings, at texts of which no two are the same.
use smeltry_operator.Base.{
  ◌≡◌, String, true, false, List, [], ◌∷◌, All, All-mono, Bool-cases, inl, inr, str_eq, str_ltb,
  eq_iff, arith,
}
use smeltry_operator.Base.TextOrder.{str_ltb_trans, str_ltb_total}
use smeltry_operator.Controller.Sites.{add_tag, add_tags, insert_text, sort_strings}

-- Each text comes before all that follow it.
abbrev pub Ascending : List String → Type 0
Ascending [] = Unit
Ascending (s ∷ ss) = All (λ t. str_ltb s t ≡ true) ss × Ascending ss

abbrev pub Lacks : String → List String → Type 0
Lacks s ts = All (λ t. str_eq s t ≡ false) ts

abbrev pub Distinct : List String → Type 0
Distinct [] = Unit
Distinct (s ∷ ss) = Lacks s ss × Distinct ss

add_tag-Lacks :
    (s slug : String) (ts : List String)
    → Lacks s ts
    → str_eq s slug ≡ false
    → Lacks s (add_tag slug ts)
unfolding add_tag
add_tag-Lacks s slug [] h ne = (ne, tt)
add_tag-Lacks s slug (t ∷ ts) h ne = ground (arith, add_tag-Lacks s slug ts h.1 ne)

add_tag-Distinct : (slug : String) (ts : List String) → Distinct ts → Distinct (add_tag slug ts)
unfolding add_tag
add_tag-Distinct slug [] h = (tt, tt)
add_tag-Distinct slug (t ∷ ts) h = elim (Bool-cases (str_eq t slug)) [
  | inl same ↦ rw (same) h
  | inr other ↦ rw (other) (add_tag-Lacks t slug ts h.0 other, add_tag-Distinct slug ts h.1)
]

pub add_tags-Distinct : (slugs ts : List String) → Distinct ts → Distinct (add_tags slugs ts)
unfolding add_tags
add_tags-Distinct [] ts h = h
add_tags-Distinct (slug ∷ slugs) ts h =
    add_tags-Distinct slugs (add_tag slug ts) (add_tag-Distinct slug ts h)

insert_text-All :
    (P : String → Type 0) (s : String) (ts : List String)
    → P s
    → All P ts
    → All P (insert_text s ts)
unfolding insert_text
insert_text-All P s [] h hs = (h, tt)
insert_text-All P s (t ∷ ts) h hs = elim (Bool-cases (str_ltb t s)) [
  | inl before ↦ rw (before) (hs.0, insert_text-All P s ts h hs.1)
  | inr behind ↦ rw (behind) (h, hs)
]

ltb_flipped : (s t : String) → str_ltb t s ≡ false → str_eq s t ≡ false → str_ltb s t ≡ true
ltb_flipped s t h ne = str_ltb_total t s h (ground (arith, eq_iff s t, eq_iff t s))

insert_text-Ascending :
    (s : String) (ts : List String) → Lacks s ts → Ascending ts → Ascending (insert_text s ts)
unfolding insert_text
insert_text-Ascending s [] new h = (tt, tt)
insert_text-Ascending s (t ∷ ts) new h = elim (Bool-cases (str_ltb t s)) [
  | inl before ↦
      rw (before) (insert_text-All _ s ts before h.0, insert_text-Ascending s ts new.1 h.1)
  | inr behind ↦
      let first = ltb_flipped s t behind new.0 in
      rw (behind) ((first, All-mono _ _ (λ u less. str_ltb_trans s t u first less) ts h.0), h)
]

sort_strings-All : (P : String → Type 0) (ts : List String) → All P ts → All P (sort_strings ts)
unfolding sort_strings
sort_strings-All P [] h = h
sort_strings-All P (t ∷ ts) h =
    insert_text-All P t (sort_strings ts) h.0 (sort_strings-All P ts h.1)

pub sort_strings-Ascending : (ts : List String) → Distinct ts → Ascending (sort_strings ts)
unfolding sort_strings
sort_strings-Ascending [] h = tt
sort_strings-Ascending (t ∷ ts) h =
    insert_text-Ascending t (sort_strings ts) (sort_strings-All _ ts h.0)
      (sort_strings-Ascending ts h.1)
