-- ===== src/Controller/Cluster/Deletion/Attention.antt =====
-- The finalizer comes back to its claim, or has taken itself off it.
use smeltry_operator.Base.{ℕ, List, [], ◌∷◌, arith}
use smeltry_operator.Api.{ClusterClaim}
use smeltry_operator.Effect.{body}
use smeltry_operator.Controller.Attention.{
  Back, Closes-body, Attends, Closes, Attends-bind, Closes-bind, Attends-pure, Attends-call,
}
use smeltry_operator.Controller.Cluster.Attention.{watched, Closes-updated}
use smeltry_operator.Controller.Cluster.Defs.{ClusterClaimReconciler}
use smeltry_operator.Controller.Cluster.Deletion.{
  release_ips, free_machines, hide_kubeconfig, revoke, finish_delete, reconcile_delete,
}

module _ {W : Type 0} (r : ClusterClaimReconciler W) where
  release_ips-Attends : (ids : List ℕ) → Attends watched (release_ips r ids)
  unfolding release_ips
  release_ips-Attends [] = Attends-pure watched tt
  release_ips-Attends (id ∷ ids) =
      Attends-bind watched _ _ (Attends-call watched _) λ _. release_ips-Attends ids

  free_machines-Attends : (ids : List ℕ) → Attends watched (free_machines r ids)
  unfolding free_machines
  free_machines-Attends [] = Attends-pure watched tt
  free_machines-Attends (id ∷ ids) =
      Attends-bind watched _ _ (Attends-call watched _) λ _. free_machines-Attends ids

  hide_kubeconfig-Attends : (claim : ClusterClaim) → Attends watched (hide_kubeconfig r claim)
  unfolding body hide_kubeconfig revoke
  hide_kubeconfig-Attends claim = record { at = λ w. ground arith }

  finish_delete-Closes : (claim : ClusterClaim) → Closes watched (finish_delete r claim)
  unfolding finish_delete
  finish_delete-Closes claim =
      Closes-bind watched _ _ (hide_kubeconfig-Attends claim)
        λ _. Closes-bind watched _ _ (Attends-call watched _) λ _. Closes-updated r _

  pub reconcile_delete-Back : (claim : ClusterClaim) → Back watched (reconcile_delete r claim)
  unfolding reconcile_delete
  reconcile_delete-Back claim = Closes-body watched _ (
      Closes-bind watched _ _ (release_ips-Attends _)
        λ _. Closes-bind watched _ _ (free_machines-Attends _) λ _. finish_delete-Closes claim)
