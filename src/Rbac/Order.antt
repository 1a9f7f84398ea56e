-- ===== src/Rbac/Order.antt =====
-- The order of the calls of EnsureClusterRBAC.
use smeltry_operator.Base.{
  ◌≡◌, ℕ, suc, String, Bool, true, false, Option, none, some, List, [], ◌∷◌, str_eq, if◌then◌else◌,
  arith,
}
use smeltry_operator.Error.{Error}
use smeltry_operator.Kube.{Kube, Object}
use smeltry_operator.Effect.{Event, body}
use smeltry_operator.Rbac.{ensure_cluster_rbac}

abbrev pub is_among : String → List String → Bool
is_among name [] = false
is_among name (n ∷ ns) = if str_eq n name then true else is_among name ns

-- Every binding is of a role that is among the given ones, or that was made without an error
-- before it.
abbrev pub RolesFirst : List String → List Event → Type 0
RolesFirst made [] = Unit
RolesFirst made (Event.upsert (Object.cluster_role role) none ∷ es) =
    RolesFirst (role.meta.name ∷ made) es
RolesFirst made (Event.upsert (Object.cluster_role_binding binding) _ ∷ es) =
    (is_among binding.role_ref.name made ≡ true) × RolesFirst made es
RolesFirst made (_ ∷ es) = RolesFirst made es

-- There are `n` calls, of which none fails, and the answer is no error; or the answer is the error
-- of the first call that fails, after which there is no other call.
abbrev pub StopsAtError : ℕ → List Event → Option Error → Type 0
StopsAtError n [] answer = (n ≡ 0) × (answer ≡ none)
StopsAtError (suc n) (Event.upsert _ none ∷ es) answer = StopsAtError n es answer
StopsAtError (suc n) (Event.upsert _ (some e) ∷ es) answer = (es ≡ []) × (answer ≡ some e)
StopsAtError _ (_ ∷ es) answer = ⊥

-- Whatever the API server answers, EnsureClusterRBAC makes four calls and returns no error, or
-- stops at the first call that fails and returns its error; and it binds no cluster role that it
-- has not made before.
pub ensure_cluster_rbac-StopsAtError :
    {W : Type 0} (k : Kube W) (w : W)
    → let (answer, events, _) = ensure_cluster_rbac k w in
      StopsAtError 4 events answer × RolesFirst [] events
unfolding body ensure_cluster_rbac
ensure_cluster_rbac-StopsAtError k w = ground arith
