-- ===== src/Controller/Cluster/Deletion/Releases.antt =====
-- What the finalizer gives back.
use mathlib.Core.List.{append-nil}
use smeltry_operator.Base.{
  ℕ, ◌≡◌, refl, ◌∙◌, Option, List, [], ◌∷◌, ◌++◌, arith, ap, str_eq, if◌then◌else◌,
}
use smeltry_operator.Error.{Error}
use smeltry_operator.Api.{ClusterClaim}
use smeltry_operator.Netbox.{DeviceStatus}
use smeltry_operator.Kube.{Object}
use smeltry_operator.Effect.{Event, next, body, finish}
use smeltry_operator.Controller.Audit.{emit_audit_event}
use smeltry_operator.Controller.Cluster.Defs.{ClusterClaimReconciler, cluster_claim_finalizer}
use smeltry_operator.Controller.Cluster.Deletion.{
  release_ips, free_machines, finish_delete, reconcile_delete,
}

-- The IDs in the calls of ReleaseIP, in order.
abbrev pub released : List Event → List ℕ
released [] = []
released (Event.release_ip id _ ∷ es) = id ∷ released es
released (_ ∷ es) = released es

-- The IDs in the calls that set a device active with no tenant, in order.
abbrev pub freed : List Event → List ℕ
freed [] = []
freed (Event.set_device_status id DeviceStatus.active slug _ ∷ es) =
    if str_eq slug "" then id ∷ freed es else freed es
freed (_ ∷ es) = freed es

-- The first update of a ClusterClaim is of this object and has this error, and it is the last call.
abbrev pub EndsWith : Object → Option Error → List Event → Type 0
EndsWith o e [] = ⊥
EndsWith o e (Event.update (Object.cluster_claim claim) x ∷ es) =
    (Object.cluster_claim claim ≡ o) × (x ≡ e) × (es ≡ [])
EndsWith o e (_ ∷ es) = EndsWith o e es

module _ {W : Type 0} (r : ClusterClaimReconciler W) where
  release_ips-next : (ids : List ℕ) (w : W) → (release_ips r ids w).0 ≡ next tt
  unfolding body release_ips
  release_ips-next [] w = refl
  release_ips-next (id ∷ ids) w = ground (arith, release_ips-next ids (r.netbox.release_ip id w).1)

  free_machines-next : (ids : List ℕ) (w : W) → (free_machines r ids w).0 ≡ next tt
  unfolding body free_machines
  free_machines-next [] w = refl
  free_machines-next (id ∷ ids) w =
      ground
        (arith, free_machines-next ids (r.netbox.set_device_status id DeviceStatus.active "" w).1)

  release_ips-calls :
      (ids : List ℕ) (w : W) (rest : List Event)
      → let events = (release_ips r ids w).1 ++ rest in
        (released events ≡ ids ++ released rest) × (freed events ≡ freed rest)
  unfolding body release_ips
  release_ips-calls [] w rest = (refl, refl)
  release_ips-calls (id ∷ ids) w rest =
      let ih = release_ips-calls ids (r.netbox.release_ip id w).1 rest in
      (ap (λ l. id ∷ l) ih.0, ih.1)

  release_ips-EndsWith :
      (ids : List ℕ) (w : W) (rest : List Event) (o : Object) (e : Option Error)
      → EndsWith o e rest
      → EndsWith o e ((release_ips r ids w).1 ++ rest)
  unfolding body release_ips
  release_ips-EndsWith [] w rest o e h = h
  release_ips-EndsWith (id ∷ ids) w rest o e h =
      release_ips-EndsWith ids (r.netbox.release_ip id w).1 rest o e h

  free_machines-EndsWith :
      (ids : List ℕ) (w : W) (rest : List Event) (o : Object) (e : Option Error)
      → EndsWith o e rest
      → EndsWith o e ((free_machines r ids w).1 ++ rest)
  unfolding body free_machines
  free_machines-EndsWith [] w rest o e h = h
  free_machines-EndsWith (id ∷ ids) w rest o e h =
      free_machines-EndsWith ids (r.netbox.set_device_status id DeviceStatus.active "" w).1 rest o e
        h

  free_machines-calls :
      (ids : List ℕ) (w : W) (rest : List Event)
      → let events = (free_machines r ids w).1 ++ rest in
        (released events ≡ released rest) × (freed events ≡ ids ++ freed rest)
  unfolding body free_machines
  free_machines-calls [] w rest = (refl, refl)
  free_machines-calls (id ∷ ids) w rest =
      let ih =
        free_machines-calls ids (r.netbox.set_device_status id DeviceStatus.active "" w).1 rest in
      (ih.0, ap (λ l. id ∷ l) ih.1)

  -- The claim as its last update writes it.
  abbrev pub finalized : ClusterClaim → Object
  finalized claim =
      Object.cluster_claim
        (record claim { meta = r.client.remove_finalizer claim.meta cluster_claim_finalizer })

  finish_delete-calls :
      (claim : ClusterClaim) (w : W)
      → let events = (finish_delete r claim w).1 in
        (released events ≡ [])
        × (freed events ≡ [])
        × EndsWith (finalized claim) (finish (finish_delete r claim w).0).error events
  unfolding body finish_delete emit_audit_event
  finish_delete-calls claim w = ground arith

  -- Whatever Netbox and the API server answer, the finalizer asks Netbox to release every recorded
  -- address and to set every recorded machine active with no tenant, each once and in order, and
  -- nothing else of the two kinds. Its last call, behind all of these, and its only update of a
  -- ClusterClaim is the one that writes the claim without the finalizer, and it returns that
  -- update's error.
  pub reconcile_delete-releases_all :
      (claim : ClusterClaim) (w : W)
      → let (answer, events, _) = reconcile_delete r claim w in
        (released events ≡ claim.status.netbox_ipam_ids)
        × (freed events ≡ claim.status.allocated_machine_ids)
        × EndsWith (finalized claim) answer.error events
  unfolding body reconcile_delete
  reconcile_delete-releases_all claim w =
      let ips = release_ips r claim.status.netbox_ipam_ids w in
      let machines = free_machines r claim.status.allocated_machine_ids ips.2 in
      let rest = finish_delete-calls claim machines.2 in
      let m =
        free_machines-calls claim.status.allocated_machine_ids ips.2
          (finish_delete r claim machines.2).1 in
      let i =
        release_ips-calls claim.status.netbox_ipam_ids w
          (machines.1 ++ (finish_delete r claim machines.2).1) in
      rw release_ips-next (
        rw free_machines-next (
          i.0
              ∙ ap (λ l. claim.status.netbox_ipam_ids ++ l) (m.0 ∙ rest.0)
              ∙ append-nil claim.status.netbox_ipam_ids,
          i.1
              ∙ m.1
              ∙ ap (λ l. claim.status.allocated_machine_ids ++ l) rest.1
              ∙ append-nil claim.status.allocated_machine_ids,
          release_ips-EndsWith claim.status.netbox_ipam_ids w _ _ _
              (free_machines-EndsWith claim.status.allocated_machine_ids ips.2 _ _ _ rest.2),
        ))
