-- ===== src/Controller/Cluster/Addons/Application.antt =====
-- The order in which stepWatchAddons applies the components.
use smeltry_operator.Base.{
  ◌≡◌, ◌⊎◌, String, Option, none, some, List, [], ◌∷◌, ◌++◌, str_eq, if◌then◌else◌,
}
use smeltry_operator.Error.{Error}
use smeltry_operator.Effect.{Event, Flow, next, returned}
use smeltry_operator.Controller.Reply.{Reply, retry}

-- The names of the HelmReleases that are looked up, in order.
abbrev pub looked_up : List Event → List String
looked_up [] = []
looked_up (Event.get kind key ∷ es) =
    if str_eq kind "HelmRelease" then key.name ∷ looked_up es else looked_up es
looked_up (_ ∷ es) = looked_up es

-- A component was applied, or the application has ended with an error.
abbrev Applies : String → Option Error → List String → Type 0
Applies name none names = names ≡ name ∷ []
Applies name (some _) names = (names ≡ []) ⊎ (names ≡ name ∷ [])

-- A block has looked up these names, or an error has ended the function at the front of them.
abbrev Covers : {A : Type 0} → List String → Flow Reply A → List Event → Type 0
Covers names (next a) es = looked_up es ≡ names
Covers names (returned rep) es =
    (e : Error) × (rest : List String) × (rep ≡ retry e) × (looked_up es ++ rest ≡ names)

-- All these names are looked up first, in order; or the answer is an error with a wait, and the names
-- that are looked up are at the front of these.
abbrev pub InOrder : List String → Reply → List Event → Type 0
InOrder names answer es =
    ((later : List String) × (looked_up es ≡ names ++ later))
    ⊎ ((e : Error) × (missed : List String) × (answer ≡ retry e) × (looked_up es ++ missed ≡ names))
