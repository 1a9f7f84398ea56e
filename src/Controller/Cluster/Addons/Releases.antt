-- ===== src/Controller/Cluster/Addons/Releases.antt =====
-- What applying one component does.
use smeltry_operator.Base.{true, ◌≡◌, String, ◌<>◌, Option, none, some, List, [], ◌∷◌, arith}
use smeltry_operator.Error.{Error, Result, ok, err}
use smeltry_operator.Api.{ObjectMeta, ClusterClaim, AddonComponent, Key, named}
use smeltry_operator.Kube.{Object, Unstructured}
use smeltry_operator.Effect.{Event, body}
use smeltry_operator.Controller.Cluster.Defs.{ClusterClaimReconciler}
use smeltry_operator.Controller.Cluster.Addons.{helm_release_kind, ensure_helm_release}

abbrev pub release_name : ClusterClaim → AddonComponent → String
release_name claim comp = claim.meta.name <> ("-" <> comp.name)

abbrev pub release_key : ClusterClaim → AddonComponent → Key
release_key claim comp = named (release_name claim comp) claim.meta.namespace

-- SetControllerReference leaves an object its name and its namespace.
abbrev pub KeepsName : {W : Type 0} → ClusterClaimReconciler W → Type 0
KeepsName r =
    (owner meta new : ObjectMeta)
    → r.client.set_controller_reference owner meta ≡ ok new
    → (new.name ≡ meta.name) × (new.namespace ≡ meta.namespace)

module _ {W : Type 0} (r : ClusterClaimReconciler W) (claim : ClusterClaim) where
  -- What the application of a component has done where it gives no error, by the answer to the
  -- lookup of its HelmRelease: nothing more, or the HelmRelease was created.
  abbrev pub Ensures : AddonComponent → Result Unstructured → Option Error → List Event → Type 0
  Ensures comp found (some e) es = Unit
  Ensures comp (ok u) none es = es ≡ Event.get "HelmRelease" (release_key claim comp) ∷ []
  Ensures comp (err x) none (_ ∷ Event.create (Object.unstructured u) none ∷ []) =
      (r.client.is_not_found x ≡ true)
      × (u.gvk ≡ helm_release_kind)
      × (u.meta.name ≡ release_name claim comp)
      × (u.meta.namespace ≡ claim.meta.namespace)
  Ensures comp (err x) none _ = ⊥

module _ {W : Type 0} (r : ClusterClaimReconciler W) (keeps : KeepsName r)
    (claim : ClusterClaim) where
  pub ensure_helm_release-Ensures :
      (comp : AddonComponent) (w : W)
      → let (e, es, _) = ensure_helm_release r claim comp w in
        Ensures r claim comp
          (r.client.get_unstructured helm_release_kind (release_key claim comp) w).0
          e
          es
  unfolding body ensure_helm_release
  ensure_helm_release-Ensures comp w = grind (arith, keeps)
