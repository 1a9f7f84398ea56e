-- ===== src/Controller/Cluster/Kubeconfig.antt =====
-- stepExposeKubeconfig: the tenant's Role may read the Secret with the kubeconfig.
pub mod Phases
pub mod Attention
use smeltry_operator.Base.{
  String, ◌<>◌, Bool, true, false, Option, none, some, List, [], ◌∷◌, ◌++◌, if◌then◌else◌, pos, ◌*◌,
}
use smeltry_operator.Error.{Error, Result, ok, err}
use smeltry_operator.Api.{ClusterClaim, ClusterClaimPhase, named}
use smeltry_operator.Kube.{Role, PolicyRule, Object}
use smeltry_operator.Effect.{
  Go, Block, ◌>>=◌, ◌>>◌, pure, return, call, check, body, get_role, update,
}
use smeltry_operator.Controller.Reply.{Reply, failure, reply, reply_after, second}
use smeltry_operator.Controller.Utility.{contains_string, rules_covers_secrets}
use smeltry_operator.Controller.Cluster.Defs.{ClusterClaimReconciler, write_status}

-- What the loop over the rules finds at the first rule that covers secrets.
pub data Grant : Type 0 where
  no_rule present : Grant
  added : List PolicyRule → Grant

abbrev pub behind : PolicyRule → Grant → Grant
behind rule no_rule = no_rule
behind rule present = present
behind rule (added rules) = added (rule ∷ rules)

unfoldable pub grant_secret : String → List PolicyRule → Grant
unfolding contains_string rules_covers_secrets
grant_secret name [] = no_rule
grant_secret name (rule ∷ rules) =
    let later = behind rule (grant_secret name rules) in
    if rules_covers_secrets rule
    then (if contains_string rule.resource_names name
        then present
        else added (record rule { resource_names = rule.resource_names ++ (name ∷ []) } ∷ rules))
    else later

abbrev pub secret_name : ClusterClaim → String
secret_name claim = claim.meta.name <> "-kubeconfig"

module _ {W : Type 0} (r : ClusterClaimReconciler W) where
  role_or_wait : Result Role → Block W Reply Role
  role_or_wait (ok role) = pure role
  role_or_wait (err e) = return (reply_after (pos (10 * second)) (r.client.ignore_not_found e))

  apply_grant : Role → Grant → Block W Reply (Unit {0})
  apply_grant role no_rule = return (reply_after (pos (10 * second)) none)
  apply_grant role present = pure tt
  apply_grant role (added rules) =
      call (update r.client (Object.role (record role { rules = rules }))) >>= check failure

  unfoldable pub step_expose_kubeconfig : ClusterClaim → Go W Reply
  unfolding role_or_wait apply_grant grant_secret
  step_expose_kubeconfig claim = body do
    role ← call (get_role r.client (named "cluster-user" claim.meta.namespace)) >>= role_or_wait
    apply_grant role (grant_secret (secret_name claim) role.rules)
    e ← call (
        write_status r (record claim {
          status = record (claim.status) {
            phase = ClusterClaimPhase.ready;
            kubeconfig_secret = secret_name claim;
          };
        }))
    pure (reply e)
