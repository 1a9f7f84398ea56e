-- ===== src/Controller/Cluster/Steady/Scaling.antt =====
-- What scaling leaves in the status.
use mathlib.Core.List.{append-nil, append_assoc}
use smeltry_operator.Base.{
  ℕ, zero, suc, ◌+◌, ◌-◌, ◌≤◌, ◌≡◌, refl, ◌⊎◌, inl, inr, some, none, Option, ℤ, String, List, [],
  ◌∷◌, ◌++◌, length, take, drop, length-append, length-take, take-append-drop, ltb, All, ap, sym,
  ◌∙◌, arith,
}
use smeltry_operator.Api.{ClusterClaim}
use smeltry_operator.Netbox.{Device}
use smeltry_operator.Kube.{Object}
use smeltry_operator.Controller.Reply.{failure, retry}
use smeltry_operator.Effect.{Event, body}
use smeltry_operator.Effect.Emits.{
  Emits, Any, Emits-body, Runs, Runs-bind, Runs-call, Runs-pure, Runs-checked, Runs-valued, Runs-if,
  Runs-if_of, Runs-weaken, Emits-logged,
}
use smeltry_operator.Controller.Cluster.Defs.{ClusterClaimReconciler}
use smeltry_operator.Controller.Cluster.Steady.{
  stage_machines, scale_up_blocked, stage_and_record, scale_up, scale_down_blocked,
  release_machines, release_and_record, scale_down, rescale, await_deletion, step_reconcile_ready,
}

-- The machines that a write of the status records: those of before, or exactly as many as are
-- desired, by adding at the end or by cutting off the end.
abbrev pub Resized : ClusterClaim → List ℕ → Type 0
Resized claim ids =
    let old = claim.status.allocated_machine_ids in
    (ids ≡ old)
    ⊎ (length ids ≡ claim.spec.machine_count)
      × (((more : List ℕ) × (ids ≡ old ++ more)) ⊎ ((gone : List ℕ) × (old ≡ ids ++ gone)))

abbrev RecordsResized : ClusterClaim → Object → Type 0
RecordsResized claim (Object.cluster_claim new) = Resized claim new.status.allocated_machine_ids
RecordsResized claim _ = Unit

abbrev pub WritesResized : ClusterClaim → Event → Type 0
WritesResized claim (Event.update_status o _) = RecordsResized claim o
WritesResized claim _ = Unit

module _ {W : Type 0} (r : ClusterClaimReconciler W) (claim : ClusterClaim) where
  abbrev P : Event → Type 0
  P = WritesResized claim

  -- The loop of scaleUp adds an ID for each machine that was asked for.
  abbrev Grown : List ℕ → ℕ → List ℕ → Type 0
  Grown old n ids = (more : List ℕ) × (ids ≡ old ++ more) × (length more ≡ n)

  stage_machines-Runs :
      (tenant : String) (delta : ℕ) (machines : List Device) (ids : List ℕ)
      → delta ≤ length machines
      → Runs P Any (Grown ids delta) (stage_machines r tenant delta machines ids)
  unfolding stage_machines
  stage_machines-Runs tenant zero machines ids h =
      Runs-pure P Any (Grown ids 0) ids ([], sym (append-nil ids), refl)
  stage_machines-Runs tenant (suc delta) [] ids h = absurd (omega arith)
  stage_machines-Runs tenant (suc delta) (m ∷ machines) ids h =
      Runs-bind P Any Any (Grown ids (suc delta)) _ _
        (Runs-checked P Any _ retry (Emits-logged P _ _ λ _. tt) λ _. tt)
        λ _ _.
          Runs-weaken P Any (Grown (ids ++ (m.id ∷ [])) delta) (Grown ids (suc delta)) _
            (λ _ (more, e, n). (m.id ∷ more, e ∙ append_assoc ids (m.id ∷ []) more, ap suc n))
            (stage_machines-Runs tenant delta machines (ids ++ (m.id ∷ [])) (omega arith))

  same : Resized claim claim.status.allocated_machine_ids
  same = inl refl

  grown :
      (delta : ℕ) (ids : List ℕ)
      → delta + length claim.status.allocated_machine_ids ≡ claim.spec.machine_count
      → Grown claim.status.allocated_machine_ids delta ids
      → Resized claim ids
  grown delta ids h (more, e, n) =
      inr
        (rw e (omega (arith, length-append claim.status.allocated_machine_ids more)), inl (more, e))

  scale_up_blocked-Runs :
      (delta available : ℕ) → Runs P Any Any (scale_up_blocked r claim delta available)
  unfolding body scale_up_blocked
  scale_up_blocked-Runs delta available = record { at = λ w. ((same, tt), tt) }

  stage_and_record-Runs :
      (delta : ℕ) (machines : List Device)
      → delta + length claim.status.allocated_machine_ids ≡ claim.spec.machine_count
      → delta ≤ length machines
      → Runs P Any Any (stage_and_record r claim delta machines)
  unfolding stage_and_record
  stage_and_record-Runs delta machines h enough =
      Runs-bind P Any (Grown claim.status.allocated_machine_ids delta) Any _ _
        (stage_machines-Runs _ delta machines _ enough)
        λ ids g.
          Runs-bind P Any Any Any _ _
            (Runs-call P Any Any _ (Emits-logged P _ _ λ _. grown delta ids h g))
            λ e _. Runs-pure P Any Any _ tt

  scale_up-Emits :
      (delta : ℕ)
      → delta + length claim.status.allocated_machine_ids ≡ claim.spec.machine_count
      → Emits P Any (scale_up r claim delta)
  unfolding scale_up
  scale_up-Emits delta h = Emits-body P Any _ (
      Runs-bind P Any Any Any _ _ (Runs-valued P Any _ failure (Emits-logged P _ _ λ _. tt) λ _. tt)
        λ site _.
          Runs-bind P Any Any Any _ _
            (Runs-valued P Any _ retry (Emits-logged P _ _ λ _. tt) λ _. tt)
            λ machines _.
              Runs-if_of (ltb (length machines) delta) _ _ (λ _. scale_up_blocked-Runs delta _)
                (λ test. stage_and_record-Runs delta machines h (ground arith)))

  scale_down_blocked-Runs : Runs P Any Any (scale_down_blocked r claim)
  unfolding body scale_down_blocked
  scale_down_blocked-Runs = record { at = λ w. ((same, tt), tt) }

  release_machines-Runs : (ids : List ℕ) → Runs P Any Any (release_machines r ids)
  unfolding release_machines
  release_machines-Runs [] = Runs-pure P Any Any tt tt
  release_machines-Runs (id ∷ ids) =
      Runs-bind P Any Any Any _ _ (Runs-checked P Any _ retry (Emits-logged P _ _ λ _. tt) λ _. tt)
        λ _ _. release_machines-Runs ids

  -- Cutting `delta` machines off leaves the desired number.
  cut :
      (delta : ℕ)
      → claim.spec.machine_count + delta ≡ length claim.status.allocated_machine_ids
      → let ids = claim.status.allocated_machine_ids in
        Resized claim (take (length ids - delta) ids)
  cut delta h =
      let ids = claim.status.allocated_machine_ids in
      let n = length ids - delta in
      inr (
        omega (arith, length-take n ids (omega arith)),
        inr (drop n ids, sym (take-append-drop n ids)),
      )

  release_and_record-Runs :
      (delta : ℕ)
      → claim.spec.machine_count + delta ≡ length claim.status.allocated_machine_ids
      → Runs P Any Any (release_and_record r claim delta)
  unfolding release_and_record
  release_and_record-Runs delta h = Runs-bind P Any Any Any _ _ (release_machines-Runs _) λ _ _.
      Runs-bind P Any Any Any _ _ (Runs-call P Any Any _ (Emits-logged P _ _ λ _. cut delta h))
        λ e _. Runs-pure P Any Any _ tt

  scale_down-Emits :
      (delta : ℕ)
      → claim.spec.machine_count + delta ≡ length claim.status.allocated_machine_ids
      → Emits P Any (scale_down r claim delta)
  unfolding scale_down
  scale_down-Emits delta h = Emits-body P Any _ (
      Runs-bind P Any Any Any _ _ (Runs-valued P Any _ failure (Emits-logged P _ _ λ _. tt) λ _. tt)
        λ ap _. Runs-if _ _ _ scale_down_blocked-Runs (release_and_record-Runs delta h))

  rescale-Runs : Runs P Any Any (rescale r claim)
  unfolding rescale
  rescale-Runs =
      let desired = claim.spec.machine_count in
      let actual = length claim.status.allocated_machine_ids in
      Runs-if_of (ltb actual desired) _ _
        (λ up. Runs-call P Any Any _ (scale_up-Emits (desired - actual) (ground arith)))
        λ _.
          Runs-if_of (ltb desired actual) _ _
            (λ down. Runs-call P Any Any _ (scale_down-Emits (actual - desired) (ground arith)))
            (λ _. Runs-pure P Any Any _ tt)

  await_deletion-Runs : (t : ℤ) → Runs P Any Any (await_deletion r claim t)
  unfolding body await_deletion
  await_deletion-Runs t = record { at = λ w. ground arith }

  ready-Runs :
      (at : Option ℤ)
      → Runs P Any Any (elim at [ some t ↦ await_deletion r claim t | none ↦ rescale r claim ])
  ready-Runs (some t) = await_deletion-Runs t
  ready-Runs none = rescale-Runs

  step_reconcile_ready-Emits : Emits P Any (step_reconcile_ready r claim)
  unfolding step_reconcile_ready
  step_reconcile_ready-Emits = Emits-body P Any _ (ready-Runs _)

  -- Whatever Netbox and the API server answer, a status that a step of a Ready claim writes either
  -- records the machines that it recorded before, or records exactly machineCount machines, which
  -- are the old ones with new ones behind them or the old ones with the last ones cut off.
  pub step_reconcile_ready-Resized :
      (w : W) → All (WritesResized claim) (step_reconcile_ready r claim w).1
  step_reconcile_ready-Resized w = (step_reconcile_ready-Emits.at w).0
