-- ===== src/Controller/Utility/Strings.antt =====
-- The helpers on strings and lists of strings.
use mathlib.Core.List.{append-nil, append_assoc}
use smeltry_operator.Base.{
  ℕ, suc, ◌+◌, ◌≡◌, refl, ◌∙◌, String, ◌<>◌, false, some, List, [], ◌∷◌, ◌++◌, length,
  length-append, take, get_elem?, set, str_eq, eq_iff, if◌then◌else◌, trim_prefix-append, ap, sym,
  arith, Bool-cases, inl, inr,
}
use smeltry_operator.Controller.Utility.{
  remove_loop, remove_string, contains_string, tenant_from_namespace,
}

-- The elements that differ from a text, in order.
pub without : String → List String → List String
without s [] = []
without s (v ∷ vs) = if str_eq v s then without s vs else v ∷ without s vs

-- The namespace of a tenant gives its slug back.
pub tenant_from_namespace-slug : (slug : String) → tenant_from_namespace ("tenant-" <> slug) ≡ slug
unfolding tenant_from_namespace
tenant_from_namespace-slug slug = trim_prefix-append "tenant-" slug

get_elem?-append :
    (xs : List String) (v : String) (vs : List String)
    → get_elem? (xs ++ (v ∷ vs)) (length xs) ≡ some v
get_elem?-append [] v vs = refl
get_elem?-append (x ∷ xs) v vs = get_elem?-append xs v vs

take-length : (xs ys : List String) → take (length xs) (xs ++ ys) ≡ xs
take-length [] ys = refl
take-length (x ∷ xs) ys = ap (λ l. x ∷ l) (take-length xs ys)

-- A write at the end of the kept part, over the first of the stale elements.
set-append :
    (kept : List String) (x v : String) (ys : List String)
    → set (kept ++ (x ∷ ys)) (length kept) v ≡ kept ++ (v ∷ ys)
set-append [] x v ys = refl
set-append (k ∷ kept) x v ys = ap (λ l. k ∷ l) (set-append kept x v ys)

-- The element that the loop reads, behind the kept and the stale ones.
read-next :
    (kept stale : List String) (v : String) (rest : List String)
    → get_elem? (kept ++ (stale ++ (v ∷ rest))) (length kept + length stale) ≡ some v
read-next kept stale v rest =
    rw (sym (append_assoc kept stale (v ∷ rest)))
      (rw (sym (length-append kept stale)) (get_elem?-append (kept ++ stale) v rest))

length-snoc : (xs : List String) (v : String) → length (xs ++ (v ∷ [])) ≡ suc (length xs)
length-snoc xs v = omega (arith, length-append xs (v ∷ []))

-- The array after a write, with nothing or something stale before the element read.
rearranged :
    (kept stale : List String) (v : String) (rest : List String)
    → (stale' : List String) × (set (kept ++ (stale ++ (v ∷ rest))) (length kept) v
        ≡ (kept ++ (v ∷ [])) ++ (stale' ++ rest))
      × (length stale' ≡ length stale)
rearranged kept [] v rest =
    ([], set-append kept v v rest ∙ sym (append_assoc kept (v ∷ []) rest), refl)
rearranged kept (x ∷ stale) v rest = (
  stale ++ (v ∷ []),
  set-append kept x v (stale ++ (v ∷ rest))
      ∙ sym (append_assoc kept (v ∷ []) (stale ++ (v ∷ rest)))
      ∙ ap (λ l. (kept ++ (v ∷ [])) ++ l) (sym (append_assoc stale (v ∷ []) rest)),
  length-snoc stale v,
)

-- The loop, with the array split into the kept elements, stale ones and those still to be read.
remove_loop-without :
    (s : String) (rest kept stale : List String) (i w : ℕ) (array : List String)
    → i ≡ length kept + length stale
    → w ≡ length kept
    → array ≡ kept ++ (stale ++ rest)
    → remove_loop (length rest) s i w array ≡ kept ++ without s rest
unfolding remove_loop without
remove_loop-without s [] kept stale i w array hi hw ha =
    rw ha (rw hw (take-length kept (stale ++ []) ∙ sym (append-nil kept)))
remove_loop-without s (v ∷ rest) kept stale i w array hi hw ha =
    let e =
      ap (λ a. get_elem? a i) ha
      ∙ ap (λ n. get_elem? (kept ++ (stale ++ (v ∷ rest))) n) hi
      ∙ read-next kept stale v rest in
    rw (e, remove_loop)
      (elim (Bool-cases (str_eq v s)) [
        | inl same ↦ rw same (
            remove_loop-without s rest kept (stale ++ (v ∷ [])) (suc i) w array
              (omega (arith, length-snoc stale v)) hw
              (ha ∙ ap (λ l. kept ++ l) (sym (append_assoc stale (v ∷ []) rest))))
        | inr other ↦
            let (stale', moved, n) = rearranged kept stale v rest in
            rw other (
              remove_loop-without s rest (kept ++ (v ∷ [])) stale' (suc i) (suc w) (set array w v)
                (omega (arith, length-snoc kept v)) (omega (arith, length-snoc kept v))
                (ap (λ a. set a w v) ha
                  ∙ ap (λ k. set (kept ++ (stale ++ (v ∷ rest))) k v) hw
                  ∙ moved)
              ∙ append_assoc kept (v ∷ []) (without s rest))
      ])

-- removeString, which filters within the array of its argument, gives the elements that differ
-- from the text, in order.
pub remove_string-without :
    (slice : List String) (s : String) → remove_string slice s ≡ without s slice
unfolding remove_string
remove_string-without slice s = remove_loop-without s slice [] [] 0 0 slice refl refl refl

pub contains_string-without :
    (s : String) (vs : List String) → contains_string (without s vs) s ≡ false
unfolding contains_string without
contains_string-without s [] = refl
contains_string-without s (v ∷ vs) = ground (arith, contains_string-without s vs)

pub without-absent :
    (s : String) (vs : List String) → contains_string vs s ≡ false → without s vs ≡ vs
unfolding contains_string without
without-absent s [] h = refl
without-absent s (v ∷ vs) h = ground (arith, without-absent s vs)

pub without-snoc :
    (s : String) (vs : List String) → contains_string vs s ≡ false → without s (vs ++ (s ∷ [])) ≡ vs
unfolding contains_string without
without-snoc s [] h = ground (arith, eq_iff s s)
without-snoc s (v ∷ vs) h = ground (arith, without-snoc s vs)
