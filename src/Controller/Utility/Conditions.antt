-- ===== src/Controller/Utility/Conditions.antt =====
-- setCondition as an update of a map from types to conditions.
use smeltry_operator.Base.{
  ◌≡◌, refl, String, Bool, true, false, Option, none, some, List, [], ◌∷◌, str_eq, eq_iff,
  if◌then◌else◌, ℤ, arith,
}
use smeltry_operator.Api.{Condition, ConditionStatus, ClusterClaim}
use smeltry_operator.Controller.Utility.{upsert_condition, set_condition}

-- The first condition of a type.
pub find_condition : String → List Condition → Option Condition
find_condition type [] = none
find_condition type (c ∷ cs) = if str_eq c.type type then some c else find_condition type cs

abbrev pub types : List Condition → List String
types [] = []
types (c ∷ cs) = c.type ∷ types cs

abbrev pub listed : String → List String → Bool
listed type [] = false
listed type (t ∷ ts) = if str_eq t type then true else listed type ts

-- No type stands twice.
abbrev pub UniqueTypes : List String → Type 0
UniqueTypes [] = Unit
UniqueTypes (t ∷ ts) = (listed t ts ≡ false) × UniqueTypes ts

abbrev pub condition : String → ConditionStatus → String → String → ℤ → Condition
condition type status reason msg now = record {
  type = type;
  status = status;
  reason = reason;
  message = msg;
  last_transition_time = now;
}

module _ (type : String) (status : ConditionStatus) (reason msg : String) (now : ℤ) where
  find_condition-upsert_condition :
      (other : String) (cs : List Condition)
      → find_condition other (upsert_condition cs type status reason msg now) ≡ (
          if str_eq type other
          then some (condition type status reason msg now)
          else find_condition other cs)
  unfolding find_condition upsert_condition
  find_condition-upsert_condition other [] = refl
  find_condition-upsert_condition other (c ∷ cs) = ground (
    arith,
    eq_iff c.type type,
    eq_iff type other,
    eq_iff c.type other,
    find_condition-upsert_condition other cs,
  )

  listed-upsert_condition :
      (other : String) (cs : List Condition)
      → listed other (types (upsert_condition cs type status reason msg now))
        ≡ (if str_eq type other then true else listed other (types cs))
  unfolding upsert_condition
  listed-upsert_condition other [] = refl
  listed-upsert_condition other (c ∷ cs) = ground (
    arith,
    eq_iff c.type type,
    eq_iff type other,
    eq_iff c.type other,
    listed-upsert_condition other cs,
  )

  upsert_condition-UniqueTypes :
      (cs : List Condition)
      → UniqueTypes (types cs)
      → UniqueTypes (types (upsert_condition cs type status reason msg now))
  unfolding upsert_condition
  upsert_condition-UniqueTypes [] u = (refl, tt)
  upsert_condition-UniqueTypes (c ∷ cs) u = ground (
    arith,
    eq_iff c.type type,
    eq_iff type c.type,
    upsert_condition-UniqueTypes cs u.1,
    listed-upsert_condition c.type cs,
  )

-- At a claim where no two conditions have one type, setCondition makes the condition of its type
-- the given one, leaves the conditions of all other types alone, and keeps the types free of
-- duplicates; of the claim it changes nothing else.
pub set_condition_lem :
    (claim : ClusterClaim) (type : String) (status : ConditionStatus) (reason msg : String)
    (now : ℤ)
    → UniqueTypes (types claim.status.conditions)
    → let new = set_condition claim type status reason msg now in
      ((other : String)
        → find_condition other new.status.conditions ≡ (
            if str_eq type other
            then some (condition type status reason msg now)
            else find_condition other claim.status.conditions))
      × UniqueTypes (types new.status.conditions)
      × (record new { status = record (new.status) { conditions = claim.status.conditions } }
          ≡ claim)
unfolding set_condition
set_condition_lem claim type status reason msg now u = (
  λ other. find_condition-upsert_condition type status reason msg now other claim.status.conditions,
  upsert_condition-UniqueTypes type status reason msg now claim.status.conditions u,
  refl,
)
