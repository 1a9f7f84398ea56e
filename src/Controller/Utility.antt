-- ===== src/Controller/Utility.antt =====
-- internal/controller/clusterclaim_controller.go: the condition helper and the utility functions.
pub mod Conditions
pub mod Strings
use smeltry_operator.Base.{
  ℕ, zero, suc, ◌+◌, String, Bool, true, false, none, some, List, [], ◌∷◌, ◌++◌, ◌||◌, length, take,
  get_elem?, set, str_eq, trim_prefix, before_first, if◌then◌else◌, ℤ,
}
use smeltry_operator.Api.{Condition, ConditionStatus, ClusterClaim}
use smeltry_operator.Netbox.{Device}
use smeltry_operator.Kube.{PolicyRule}

-- The loop of setCondition: the first condition of the type is overwritten in place.
pub upsert_condition :
    List Condition → String → ConditionStatus → String → String → ℤ → List Condition
upsert_condition [] type status reason msg now =
    record {
      type = type;
      status = status;
      reason = reason;
      message = msg;
      last_transition_time = now;
    }
    ∷ []
upsert_condition (c ∷ cs) type status reason msg now =
    if str_eq c.type type
    then record c { status = status; reason = reason; message = msg; last_transition_time = now }
      ∷ cs
    else c ∷ upsert_condition cs type status reason msg now

-- setCondition, at the time that metav1.Now gave.
unfoldable pub set_condition :
    ClusterClaim → String → ConditionStatus → String → String → ℤ → ClusterClaim
unfolding upsert_condition
set_condition claim type status reason msg now = record claim {
  status = record (claim.status) {
    conditions = upsert_condition claim.status.conditions type status reason msg now;
  };
}

unfoldable pub tenant_from_namespace : String → String
tenant_from_namespace ns = trim_prefix ns "tenant-"

unfoldable pub strip_prefix : String → String
strip_prefix cidr = before_first cidr "/"

-- The two nested loops of machinesHaveTag, inner first.
has_tag : List String → String → Bool
has_tag [] tag = false
has_tag (t ∷ ts) tag = str_eq t tag || has_tag ts tag

unfoldable pub machines_have_tag : List Device → String → Bool
unfolding has_tag
machines_have_tag [] tag = false
machines_have_tag (m ∷ ms) tag = has_tag m.tags tag || machines_have_tag ms tag

unfoldable pub contains_string : List String → String → Bool
contains_string [] s = false
contains_string (v ∷ vs) s = str_eq v s || contains_string vs s

unfoldable pub rules_covers_secrets : PolicyRule → Bool
unfolding contains_string
rules_covers_secrets rule = contains_string rule.resources "secrets"

-- The loop of removeString. `out` shares the array of `slice`, so the loop reads at `i` and writes
-- at `w` in one array; `n` elements are left to read.
remove_loop : ℕ → String → ℕ → ℕ → List String → List String
remove_loop zero s i w array = take w array
remove_loop (suc n) s i w array = elim (get_elem? array i) [
  | none ↦ take w array
  | some v ↦
      if str_eq v s
      then remove_loop n s (suc i) w array
      else remove_loop n s (suc i) (suc w) (set array w v)
]

unfoldable pub remove_string : List String → String → List String
unfolding remove_loop
remove_string slice s = remove_loop (length slice) s 0 0 slice
