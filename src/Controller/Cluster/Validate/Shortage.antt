-- ===== src/Controller/Cluster/Validate/Shortage.antt =====
-- stepValidate where Netbox lists no machine, and where it refuses the HTTP client.
use smeltry_operator.Base.{◌<◌, ◌≡◌, refl, ltb-eq-true, List, [], ◌∷◌, some}
use smeltry_operator.Error.{Result, ok}
use smeltry_operator.Api.{ClusterClaim, ClusterClaimPhase, AddonProfile, SiteConfig, named}
use smeltry_operator.Kube.{Object}
use smeltry_operator.Effect.{Event, body}
use smeltry_operator.Http.Json.{Json, Members, get}
use smeltry_operator.Http.Types.{Request, Response}
use smeltry_operator.Http.Client.{Client, as_iface}
use smeltry_operator.Http.Client.Queries.{listings-ignore_status}
use smeltry_operator.Controller.Cluster.Defs.{ClusterClaimReconciler, portal_system_namespace}
use smeltry_operator.Controller.Cluster.Validate.{step_validate}

-- The phases of the claims that are written as statuses.
abbrev pub written_phases : List Event → List ClusterClaimPhase
written_phases [] = []
written_phases (Event.update_status (Object.cluster_claim claim) _ ∷ es) =
    claim.status.phase ∷ written_phases es
written_phases (_ ∷ es) = written_phases es

module _ {W : Type 0} (r : ClusterClaimReconciler W) (claim : ClusterClaim) (w : W) where
  abbrev pub profile_of : Result AddonProfile × W
  profile_of = r.client.get_addon_profile (named claim.spec.addon_profile portal_system_namespace) w

  abbrev pub site_of : Result SiteConfig × W
  site_of = r.client.get_site_config (named claim.spec.site portal_system_namespace) profile_of.1

  step_validate-shortage :
      (ap : AddonProfile) (site : SiteConfig)
      → profile_of.0 ≡ ok ap
      → site_of.0 ≡ ok site
      → (r.netbox.list_available_devices site.spec.netbox.site_slug claim.spec.machine_class
          site_of.1).0
        ≡ ok []
      → 0 < claim.spec.machine_count
      → written_phases (step_validate r claim w).1 ≡ ClusterClaimPhase.failed ∷ []
  unfolding step_validate body
  step_validate-shortage ap site e e' e'' h =
      rw (e, e', e'', ltb-eq-true 0 claim.spec.machine_count h) refl

-- The reconciler with the HTTP client as its Netbox.
abbrev pub over_http : {W : Type 0} → ClusterClaimReconciler W → Client W → ClusterClaimReconciler W
over_http r c = record r { netbox = as_iface c }

-- Over the HTTP client, a Netbox that answers every request by an object without results, such as
-- the refusal of an expired token, makes stepValidate write the claim as Failed, and no other
-- status, where the profile and the site are there and the claim is for a machine at least.
pub step_validate-refused :
    {W : Type 0} (r : ClusterClaimReconciler W) (c : Client W) (claim : ClusterClaim) (w : W)
    (resp : Response) (o : Members) (ap : AddonProfile) (site : SiteConfig)
    → ((q : Request) (v : W) → (c.send q v).0 ≡ ok resp)
    → resp.body ≡ some (Json.object o)
    → get "results" o ≡ Json.null
    → (profile_of r claim w).0 ≡ ok ap
    → (site_of r claim w).0 ≡ ok site
    → 0 < claim.spec.machine_count
    → written_phases (step_validate (over_http r c) claim w).1 ≡ ClusterClaimPhase.failed ∷ []
unfolding as_iface
step_validate-refused r c claim w resp o ap site answers b g e e' h =
    let (_, refused, _, _) =
      listings-ignore_status c (site_of r claim w).1 resp o (λ q. answers q (site_of r claim w).1) b
        g in
    step_validate-shortage (over_http r c) claim w ap site e e'
      (refused site.spec.netbox.site_slug claim.spec.machine_class) h
