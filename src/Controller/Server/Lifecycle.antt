-- ===== src/Controller/Server/Lifecycle.antt =====
-- The phases of a ServerClaim as a relation, and what every write of the status keeps.
use smeltry_operator.Base.{◌≡◌, ◌⊎◌, true, str_eq}
use smeltry_operator.Api.{ServerClaim, ServerClaimPhase}
use smeltry_operator.Kube.{Object}
use smeltry_operator.Effect.{Event}

pub data Lifecycle : ServerClaimPhase → ServerClaimPhase → Type 0 where
  stay : (p : ServerClaimPhase) → Lifecycle p p
  admitted_new : Lifecycle ServerClaimPhase.unset ServerClaimPhase.provisioning
  admitted : Lifecycle ServerClaimPhase.pending ServerClaimPhase.provisioning
  served : Lifecycle ServerClaimPhase.provisioning ServerClaimPhase.ready
  refused_new : Lifecycle ServerClaimPhase.unset ServerClaimPhase.failed
  refused : Lifecycle ServerClaimPhase.pending ServerClaimPhase.failed
  broken : Lifecycle ServerClaimPhase.provisioning ServerClaimPhase.failed

-- What the status records as taken in Netbox is not lost or exchanged: the address, with its name
-- and its ID, where the status has one (the code looks at server_ip alone), and the machine.
abbrev pub KeepsTaken : ServerClaim → ServerClaim → Type 0
KeepsTaken old new =
    ((str_eq old.status.server_ip "" ≡ true)
      ⊎ ((new.status.server_ip ≡ old.status.server_ip)
          × (new.status.server_dns ≡ old.status.server_dns)
          × (new.status.netbox_ipam_id ≡ old.status.netbox_ipam_id)))
    × ((old.status.allocated_machine_id ≡ 0)
        ⊎ (new.status.allocated_machine_id ≡ old.status.allocated_machine_id))

abbrev pub Writes : ServerClaim → Object → Type 0
Writes old (Object.server_claim new) =
    Lifecycle old.status.phase new.status.phase
    × KeepsTaken old new
    × (new.meta ≡ old.meta)
    × (new.spec ≡ old.spec)
Writes old _ = Unit

abbrev pub FollowsLifecycle : ServerClaim → Event → Type 0
FollowsLifecycle old (Event.update_status o _) = Writes old o
FollowsLifecycle old _ = Unit
