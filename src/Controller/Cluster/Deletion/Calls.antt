-- ===== src/Controller/Cluster/Deletion/Calls.antt =====
-- The finalizer's calls satisfy whatever releases, updates and audit events satisfy.
use smeltry_operator.Base.{ℕ, String, Option, List, [], ◌∷◌, arith}
use smeltry_operator.Error.{Error}
use smeltry_operator.Api.{Key, ClusterClaim}
use smeltry_operator.Netbox.{DeviceStatus}
use smeltry_operator.Kube.{Object}
use smeltry_operator.Controller.Audit.{emit_audit_event-Emits}
use smeltry_operator.Effect.{Event, body}
use smeltry_operator.Effect.Emits.{
  Emits, Any, Emits-body, Runs, Runs-bind, Runs-call, Runs-pure, Emits-logged,
}
use smeltry_operator.Controller.Cluster.Defs.{ClusterClaimReconciler}
use smeltry_operator.Controller.Cluster.Deletion.{
  release_ips, free_machines, hide_kubeconfig, reconcile_delete,
}

module _ {W : Type 0} (r : ClusterClaimReconciler W) (P : Event → Type 0)
    (on_release : (id : ℕ) (e : Option Error) → P (Event.release_ip id e))
    (on_free : (id : ℕ) (e : Option Error)
      → P (Event.set_device_status id DeviceStatus.active "" e))
    (on_get : (kind : String) (key : Key) → P (Event.get kind key))
    (on_create : (o : Object) (e : Option Error) → P (Event.create o e))
    (on_update : (o : Object) (e : Option Error) → P (Event.update o e)) where
  release_ips-Runs : (ids : List ℕ) → Runs P Any Any (release_ips r ids)
  unfolding release_ips
  release_ips-Runs [] = Runs-pure P Any Any tt tt
  release_ips-Runs (id ∷ ids) =
      Runs-bind P Any Any Any _ _ (Runs-call P Any Any _ (Emits-logged P _ _ λ e. on_release id e))
        λ _ _. release_ips-Runs ids

  free_machines-Runs : (ids : List ℕ) → Runs P Any Any (free_machines r ids)
  unfolding free_machines
  free_machines-Runs [] = Runs-pure P Any Any tt tt
  free_machines-Runs (id ∷ ids) =
      Runs-bind P Any Any Any _ _ (Runs-call P Any Any _ (Emits-logged P _ _ λ e. on_free id e))
        λ _ _. free_machines-Runs ids

  hide_kubeconfig-Runs : (claim : ClusterClaim) → Runs P Any Any (hide_kubeconfig r claim)
  unfolding body hide_kubeconfig
  hide_kubeconfig-Runs claim = record { at = λ w. grind (arith, on_get, on_update) }

  pub reconcile_delete-Emits : (claim : ClusterClaim) → Emits P Any (reconcile_delete r claim)
  unfolding reconcile_delete
  reconcile_delete-Emits claim = Emits-body P Any _ (
      Runs-bind P Any Any Any _ _ (release_ips-Runs _) λ _ _.
        Runs-bind P Any Any Any _ _ (free_machines-Runs _) λ _ _.
          Runs-bind P Any Any Any _ _ (hide_kubeconfig-Runs claim) λ _ _.
            Runs-bind P Any Any Any _ _
              (Runs-call P Any Any _ (emit_audit_event-Emits P _ _ _ _ λ ev e. on_create _ e))
              λ _ _.
                Runs-bind P Any Any Any _ _
                  (Runs-call P Any Any _ (Emits-logged P _ _ λ e. on_update _ e))
                  λ e _. Runs-pure P Any Any _ tt)
