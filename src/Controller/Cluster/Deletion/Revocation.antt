-- ===== src/Controller/Cluster/Deletion/Revocation.antt =====
-- The Role between stepExposeKubeconfig, which adds the Secret's name to it, and the finalizer,
-- which takes the name out.
use smeltry_operator.Base.{
  ◌&&◌, ◌≡◌, refl, String, true, false, List, [], ◌∷◌, ◌++◌, All, if◌then◌else◌, ap, arith,
  Bool-cases, inl, inr, ◌∙◌,
}
use smeltry_operator.Kube.{PolicyRule}
use smeltry_operator.Controller.Utility.{contains_string, rules_covers_secrets, remove_string}
use smeltry_operator.Controller.Utility.Strings.{
  remove_string-without, contains_string-without, without-absent, without-snoc,
}
use smeltry_operator.Controller.Cluster.Kubeconfig.{Grant, behind, grant_secret}
use smeltry_operator.Controller.Cluster.Deletion.{revoke_secret}

-- The rule is not on Secrets, or does not list the name. (To Kubernetes, a rule that lists no name
-- holds for all of them.)
abbrev pub Hides : String → PolicyRule → Type 0
Hides name rule = (rules_covers_secrets rule && contains_string rule.resource_names name) ≡ false

unlisted :
    (name : String) (rule : PolicyRule)
    → Hides name rule
    → rules_covers_secrets rule ≡ true
    → contains_string rule.resource_names name ≡ false
unlisted name rule h covers = ground arith

revoke_rule : String → PolicyRule → PolicyRule
unfolding remove_string
revoke_rule name rule =
    if rules_covers_secrets rule
    then record rule { resource_names = remove_string rule.resource_names name }
    else rule

revoke_rule-idle :
    (name : String) (rule : PolicyRule) → Hides name rule → revoke_rule name rule ≡ rule
unfolding revoke_rule
revoke_rule-idle name rule h = elim (Bool-cases (rules_covers_secrets rule)) [
  | inl covers ↦ rw covers (
      ap (λ names. record rule { resource_names = names })
        (remove_string-without rule.resource_names name
          ∙ without-absent name rule.resource_names (unlisted name rule h covers)))
  | inr other ↦ rw other refl
]

revoke_secret-idle :
    (name : String) (rules : List PolicyRule)
    → All (Hides name) rules
    → revoke_secret name rules ≡ rules
unfolding revoke_secret revoke_rule
revoke_secret-idle name [] h = refl
revoke_secret-idle name (rule ∷ rules) h =
    ap (λ a. a ∷ revoke_secret name rules) (revoke_rule-idle name rule h.0)
    ∙ ap (λ l. rule ∷ l) (revoke_secret-idle name rules h.1)

-- A rule on Secrets that was given the name, after it has been taken out again.
revoke_rule-granted :
    (name : String) (rule : PolicyRule)
    → rules_covers_secrets rule ≡ true
    → contains_string rule.resource_names name ≡ false
    → revoke_rule name (record rule { resource_names = rule.resource_names ++ (name ∷ []) }) ≡ rule
unfolding revoke_rule rules_covers_secrets
revoke_rule-granted name rule covers h = rw covers (
    ap (λ names. record rule { resource_names = names })
      (remove_string-without (rule.resource_names ++ (name ∷ [])) name
        ∙ without-snoc name rule.resource_names h))

-- After the finalizer has taken a name out of a Role, no rule on Secrets lists it.
pub revoke_secret-Hides :
    (name : String) (rules : List PolicyRule) → All (Hides name) (revoke_secret name rules)
unfolding revoke_secret rules_covers_secrets
revoke_secret-Hides name [] = tt
revoke_secret-Hides name (rule ∷ rules) = (
  elim (Bool-cases (rules_covers_secrets rule)) [
    | inl covers ↦ rw covers (
        rw remove_string-without
          (ground (arith, covers, contains_string-without name rule.resource_names)))
    | inr other ↦ rw other (ground (arith, other))
  ],
  revoke_secret-Hides name rules,
)

-- What taking the name out of the rules that a grant leads to gives.
abbrev pub Reverts : String → List PolicyRule → Grant → Type 0
Reverts name rules Grant.no_rule = All (λ rule. rules_covers_secrets rule ≡ false) rules
Reverts name rules Grant.present = ⊥
Reverts name rules (Grant.added rules') = revoke_secret name rules' ≡ rules

behind-Reverts :
    (name : String) (rule : PolicyRule) (rules : List PolicyRule) (g : Grant)
    → rules_covers_secrets rule ≡ false
    → Reverts name rules g
    → Reverts name (rule ∷ rules) (behind rule g)
unfolding revoke_secret
behind-Reverts name rule rules Grant.no_rule other h = (other, h)
behind-Reverts name rule rules Grant.present other h = h
behind-Reverts name rule rules (Grant.added rules') other h = rw other (ap (λ l. rule ∷ l) h)

-- In a Role where no rule on Secrets lists the name, stepExposeKubeconfig finds no rule on Secrets
-- or adds the name to the rules, and then the finalizer restores exactly the old rules.
pub grant_secret-Reverts :
    (name : String) (rules : List PolicyRule)
    → All (Hides name) rules
    → Reverts name rules (grant_secret name rules)
unfolding revoke_secret grant_secret revoke_rule
grant_secret-Reverts name [] h = tt
grant_secret-Reverts name (rule ∷ rules) h = elim (Bool-cases (rules_covers_secrets rule)) [
  | inl covers ↦ rw covers (
      rw (unlisted name rule h.0 covers) (
        ap (λ a. a ∷ revoke_secret name rules)
          (revoke_rule-granted name rule covers (unlisted name rule h.0 covers))
        ∙ ap (λ l. rule ∷ l) (revoke_secret-idle name rules h.1)))
  | inr other ↦ rw other (
      behind-Reverts name rule rules (grant_secret name rules) other
        (grant_secret-Reverts name rules h.1))
]
