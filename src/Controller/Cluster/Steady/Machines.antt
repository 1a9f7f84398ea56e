-- ===== src/Controller/Cluster/Steady/Machines.antt =====
-- Scaling accounts for every machine that it stages or frees.
use mathlib.Core.List.{append-nil, append_assoc}
use mathlib.Core.Path.{subst}
use smeltry_operator.Base.{
  ℕ, zero, suc, ◌-◌, String, ◌≡◌, refl, sym, ◌∙◌, ap, Option, none, some, ℤ, List, [], ◌∷◌, ◌++◌,
  length, ltb, take, drop, take-append-drop, arith,
}
use smeltry_operator.Api.{ClusterClaim}
use smeltry_operator.Netbox.{Device, DeviceStatus}
use smeltry_operator.Effect.{
  Event, Block, ◌>>=◌, ◌>>◌, pure, call, check, body, set_device_status, logged,
}
use smeltry_operator.Effect.Emits.{Any, Runs}
use smeltry_operator.Controller.Reply.{Reply, failure, retry, reply_after}
use smeltry_operator.Controller.Cluster.Defs.{ClusterClaimReconciler, write_status}
use smeltry_operator.Controller.Cluster.Lifecycle.{Quiet, Lifecycle}
use smeltry_operator.Controller.Cluster.Books.{
  Book, entry, opening, Balanced, Books, Sound, Keeps, IsFailing, Books-bind, Books-pure,
  Books-call, Books-if, Books-reads, Books-checked, Books-silent, Books-body,
}
use smeltry_operator.Controller.Cluster.Steady.{
  stage_machines, scale_up_blocked, stage_and_record, scale_up, scale_down_blocked,
  release_machines, release_and_record, scale_down, rescale, await_deletion, step_reconcile_ready,
  with_machines,
}

pub failure-IsFailing : IsFailing failure
failure-IsFailing e p = cc

pub retry-IsFailing : IsFailing retry
retry-IsFailing e p = cc

module _ {W A : Type 0} (r : ClusterClaimReconciler W) (X : Book → Type 0) (b : Book)
    (S : A → Book → Type 0) where
  -- SetDeviceStatus, whose error ends the function, and what follows it.
  pub set-Books :
      (id : ℕ) (to : DeviceStatus) (tenant : String) (rest : Block W Reply A)
      → Books X (entry b (Event.set_device_status id to tenant none)) S rest
      → Books X b S (call (set_device_status r.netbox id to tenant) >>= check retry >> rest)
  unfolding logged
  set-Books id to tenant rest h =
      let after = entry b (Event.set_device_status id to tenant none) in
      Books-bind X b (λ _ b'. b' ≡ after) S _ _
        (Books-checked X b _ _ retry retry-IsFailing (λ w e. rw e refl))
        λ _ b' e. subst (λ c. Books X c S rest) (sym e) h

module _ {W : Type 0} (r : ClusterClaimReconciler W) (X : Book → Type 0) where
  stage_machines-Books :
      (tenant : String) (delta : ℕ) (machines : List Device) (old ids : List ℕ) (b : Book)
      → ids ≡ old ++ b.staged
      → Books X b
          (λ ids' b'. (ids' ≡ old ++ b'.staged) × (b'.recorded ≡ b.recorded) × (b'.freed ≡ b.freed))
          (stage_machines r tenant delta machines ids)
  unfolding stage_machines
  stage_machines-Books tenant zero machines old ids b h = Books-pure X b _ ids (h, refl, refl)
  stage_machines-Books tenant (suc delta) [] old ids b h = Books-pure X b _ ids (h, refl, refl)
  stage_machines-Books tenant (suc delta) (m ∷ machines) old ids b h =
      set-Books r X b _ m.id DeviceStatus.staged tenant _ (
        stage_machines-Books tenant delta machines old (ids ++ (m.id ∷ []))
          (record b { staged = b.staged ++ (m.id ∷ []) })
          (ap (λ l. l ++ (m.id ∷ [])) h ∙ append_assoc old b.staged (m.id ∷ [])))

  release_machines-Books :
      (ids : List ℕ) (b : Book) (f : List ℕ)
      → b.freed ++ ids ≡ f
      → Books X b (λ _ b'. b' ≡ record b { freed = f }) (release_machines r ids)
  unfolding release_machines
  release_machines-Books [] b f h =
      Books-pure X b _ tt (ap (λ l. record b { freed = l }) (sym (append-nil b.freed) ∙ h))
  release_machines-Books (id ∷ ids) b f h = set-Books r X b _ id DeviceStatus.active "" _ (
      release_machines-Books ids (record b { freed = b.freed ++ (id ∷ []) }) f
        (append_assoc b.freed (id ∷ []) ids ∙ h))

module _ {W : Type 0} (r : ClusterClaimReconciler W) (claim : ClusterClaim) where
  abbrev old : List ℕ
  old = claim.status.allocated_machine_ids

  abbrev start : Book
  start = opening claim

  abbrev X : Book → Type 0
  X = Balanced claim

  fair : X start
  fair = refl

  -- The write of the machines, by which the function ends.
  write-Books :
      (b : Book) (d : ℤ) (ids : List ℕ)
      → X (record b { recorded = ids })
      → Books X b
          (Sound X)
          (call (write_status r (with_machines claim ids)) >>= λ e. pure (reply_after d e))
  unfolding body
  write-Books b d ids h = record { at = λ w e. rw e h }

  stage_and_record-Books :
      (delta : ℕ) (machines : List Device)
      → Books X start (Sound X) (stage_and_record r claim delta machines)
  unfolding stage_and_record
  stage_and_record-Books delta machines =
      Books-bind X start _ (Sound X) _ _
        (stage_machines-Books r X _ delta machines old old start (sym (append-nil old)))
        λ ids b (grown, same, none_freed). write-Books b _ ids (rw (none_freed, append-nil) grown)

  release_and_record-Books :
      (delta : ℕ) → Books X start (Sound X) (release_and_record r claim delta)
  unfolding release_and_record
  release_and_record-Books delta =
      let k = length old - delta in
      Books-bind X start _ (Sound X) _ _
        (release_machines-Books r X (drop k old) start (drop k old) refl)
        λ _ b e. write-Books b _ (take k old) (rw e (take-append-drop k old ∙ sym (append-nil old)))

  -- A quiet end of a function that has taken and given back nothing so far.
  silent-Books :
      (m : Block W Reply Reply) → Runs (Quiet claim) Any Any m → Books X start (Sound X) m
  silent-Books m h = Books-silent X start Any (Sound X) claim refl m (λ _ _ _. fair) fair h

  scale_up_blocked-Books :
      (delta available : ℕ) → Books X start (Sound X) (scale_up_blocked r claim delta available)
  unfolding body scale_up_blocked
  scale_up_blocked-Books delta available =
      silent-Books _ record { at = λ w. (((Lifecycle.stay _, refl, refl, refl, refl), tt), tt) }

  scale_down_blocked-Books : Books X start (Sound X) (scale_down_blocked r claim)
  unfolding body scale_down_blocked
  scale_down_blocked-Books =
      silent-Books _ record { at = λ w. (((Lifecycle.stay _, refl, refl, refl, refl), tt), tt) }

  scale_up-Keeps : (delta : ℕ) → Keeps X start (scale_up r claim delta)
  unfolding scale_up logged
  scale_up-Keeps delta = Books-body X start _ (
      Books-reads X start (Sound X) _ failure _ failure-IsFailing (λ w. refl)
        λ site.
          Books-reads X start (Sound X) _ retry _ retry-IsFailing (λ w. refl)
            λ machines.
              Books-if X start (Sound X) (ltb (length machines) delta) _ _
                (λ _. scale_up_blocked-Books delta (length machines))
                (λ _. stage_and_record-Books delta machines))

  scale_down-Keeps : (delta : ℕ) → Keeps X start (scale_down r claim delta)
  unfolding scale_down logged
  scale_down-Keeps delta = Books-body X start _ (
      Books-reads X start (Sound X) _ failure _ failure-IsFailing (λ w. refl)
        λ ap.
          Books-if X start (Sound X) _ _ _ (λ _. scale_down_blocked-Books)
            (λ _. release_and_record-Books delta))

  rescale-Books : Books X start (Sound X) (rescale r claim)
  unfolding rescale
  rescale-Books =
      Books-if X start (Sound X) (ltb (length old) claim.spec.machine_count) _ _
        (λ _. Books-call X start (Sound X) _ (scale_up-Keeps _))
        (λ _.
          Books-if X start (Sound X) (ltb claim.spec.machine_count (length old)) _ _
            (λ _. Books-call X start (Sound X) _ (scale_down-Keeps _))
            (λ _. Books-pure X start (Sound X) _ (λ _. fair)))

  await_deletion-Books : (t : ℤ) → Books X start (Sound X) (await_deletion r claim t)
  unfolding body await_deletion
  await_deletion-Books t = silent-Books _ record { at = λ w. ground arith }

  ready-Books :
      (at : Option ℤ)
      → Books X start
          (Sound X)
          (elim at [ some t ↦ await_deletion r claim t | none ↦ rescale r claim ])
  ready-Books (some t) = await_deletion-Books t
  ready-Books none = rescale-Books

  pub step_reconcile_ready-Keeps :
      Keeps (Balanced claim) (opening claim) (step_reconcile_ready r claim)
  unfolding step_reconcile_ready
  step_reconcile_ready-Keeps = Books-body X start _ (ready-Books _)
