-- ===== src/Controller/Cluster/Lifecycle.antt =====
-- The phases of a ClusterClaim as a relation, and what every write of the status keeps.
use mathlib.Core.Path.{subst}
use smeltry_operator.Base.{◌≡◌, ◌∙◌, arith}
use smeltry_operator.Api.{ClusterClaim, ClusterClaimPhase}
use smeltry_operator.Kube.{Object}
use smeltry_operator.Effect.{Event}

-- The README's life of a claim: forward one phase at a time, or from the two working phases to
-- Failed, which nothing leaves.
pub data Lifecycle : ClusterClaimPhase → ClusterClaimPhase → Type 0 where
  stay : (p : ClusterClaimPhase) → Lifecycle p p
  admitted_new : Lifecycle ClusterClaimPhase.unset ClusterClaimPhase.provisioning
  admitted : Lifecycle ClusterClaimPhase.pending ClusterClaimPhase.provisioning
  control_plane_up : Lifecycle ClusterClaimPhase.provisioning ClusterClaimPhase.cluster_ready
  addons_up : Lifecycle ClusterClaimPhase.cluster_ready ClusterClaimPhase.addons_ready
  exposed : Lifecycle ClusterClaimPhase.addons_ready ClusterClaimPhase.ready
  refused_new : Lifecycle ClusterClaimPhase.unset ClusterClaimPhase.failed
  refused : Lifecycle ClusterClaimPhase.pending ClusterClaimPhase.failed
  broken : Lifecycle ClusterClaimPhase.provisioning ClusterClaimPhase.failed

abbrev pub Writes : ClusterClaim → Object → Type 0
Writes old (Object.cluster_claim new) =
    Lifecycle old.status.phase new.status.phase × (new.meta ≡ old.meta) × (new.spec ≡ old.spec)
Writes old _ = Unit

-- A write of the claim's status moves along the lifecycle and keeps the metadata and the spec.
abbrev pub FollowsLifecycle : ClusterClaim → Event → Type 0
FollowsLifecycle old (Event.update_status o _) = Writes old o
FollowsLifecycle old _ = Unit

-- A claim whose phase, metadata, spec and recorded addresses are those of another.
abbrev pub Same : ClusterClaim → ClusterClaim → Type 0
Same old new =
    (new.status.phase ≡ old.status.phase)
    × (new.meta ≡ old.meta)
    × (new.spec ≡ old.spec)
    × (new.status.netbox_ipam_ids ≡ old.status.netbox_ipam_ids)

-- The same for a call that allocates no address and records none.
abbrev pub Follows : ClusterClaim → Event → Type 0
Follows old (Event.update_status (Object.cluster_claim new) _) =
    Lifecycle old.status.phase new.status.phase
    × (new.meta ≡ old.meta)
    × (new.spec ≡ old.spec)
    × (new.status.netbox_ipam_ids ≡ old.status.netbox_ipam_ids)
Follows old (Event.allocate_ip _ _ _ _) = ⊥
Follows old _ = Unit

pub Follows-FollowsLifecycle :
    (old claim : ClusterClaim) (e : Event)
    → (claim.status.phase ≡ old.status.phase) × (claim.meta ≡ old.meta) × (claim.spec ≡ old.spec)
    → Follows claim e
    → FollowsLifecycle old e
Follows-FollowsLifecycle old claim (Event.update_status (Object.cluster_claim new) _) h f =
    (subst (λ p. Lifecycle p new.status.phase) h.0 f.0, f.1 ∙ h.1, f.2 ∙ h.2)
Follows-FollowsLifecycle old claim (Event.allocate_ip _ _ _ _) h f = tt
Follows-FollowsLifecycle old claim _ h f = ground arith

-- The same with the recorded machines.
abbrev pub Alike : ClusterClaim → ClusterClaim → Type 0
Alike old new =
    (new.status.phase ≡ old.status.phase)
    × (new.meta ≡ old.meta)
    × (new.spec ≡ old.spec)
    × (new.status.netbox_ipam_ids ≡ old.status.netbox_ipam_ids)
    × (new.status.allocated_machine_ids ≡ old.status.allocated_machine_ids)

-- A call that takes and gives back nothing in Netbox, and records neither.
abbrev pub Quiet : ClusterClaim → Event → Type 0
Quiet old (Event.update_status (Object.cluster_claim new) _) =
    Lifecycle old.status.phase new.status.phase
    × (new.meta ≡ old.meta)
    × (new.spec ≡ old.spec)
    × (new.status.netbox_ipam_ids ≡ old.status.netbox_ipam_ids)
    × (new.status.allocated_machine_ids ≡ old.status.allocated_machine_ids)
Quiet old (Event.allocate_ip _ _ _ _) = ⊥
Quiet old (Event.set_device_status _ _ _ _) = ⊥
Quiet old _ = Unit

pub Quiet-Follows :
    (old claim : ClusterClaim) (e : Event) → Same old claim → Quiet claim e → Follows old e
Quiet-Follows old claim (Event.update_status (Object.cluster_claim new) _) h q =
    (subst (λ p. Lifecycle p new.status.phase) h.0 q.0, q.1 ∙ h.1, q.2 ∙ h.2, q.3 ∙ h.3)
Quiet-Follows old claim (Event.allocate_ip _ _ _ _) h q = absurd q
Quiet-Follows old claim _ h q = ground arith
