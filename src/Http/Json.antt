-- ===== src/Http/Json.antt =====
-- encoding/json: a value, as it is sent and as it is received.
use smeltry_operator.Base.{String, Bool, List, [], ◌∷◌, ℤ, str_eq, if◌then◌else◌}

-- `other_number` is a number with a fraction or an exponent.
mutual
  pub data Json : Type 0 where
    null : Json
    boolean : Bool → Json
    int : ℤ → Json
    other_number : String → Json
    text : String → Json
    array : Elements → Json
    object : Members → Json

  pub data Elements : Type 0 where
    nil : Elements
    cons : Json → Elements → Elements

  pub data Members : Type 0 where
    end : Members
    member : String → Json → Members → Members

-- The value of a name. A name that is not there leaves a field of a struct as null does.
unfoldable pub get : String → Members → Json
get name end = null
get name (member n value rest) = if str_eq n name then value else get name rest

-- {"slug": slug}
abbrev pub slug_object : String → Json
slug_object slug = object (member "slug" (text slug) end)

unfoldable pub slug_objects : List String → Elements
slug_objects [] = nil
slug_objects (slug ∷ slugs) = cons (slug_object slug) (slug_objects slugs)
