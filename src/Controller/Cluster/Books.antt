-- ===== src/Controller/Cluster/Books.antt =====
-- The machines of a claim, along the calls of its reconciler: a Hoare rule for the blocks that stage
-- and free machines.
use smeltry_operator.Base.{
  str_eq, if◌then◌else◌, ℕ, ap, sym, ◌≡◌, ◌≢◌, refl, ◌∙◌, Option, none, some, Bool, true, false,
  List, [], ◌∷◌, ◌++◌, All, if◌then◌else◌,
}
use mathlib.Core.Path.{subst}
use mathlib.Core.List.{append-nil}
use smeltry_operator.Error.{Error, Result, ok, err}
use smeltry_operator.Api.{ClusterClaim}
use smeltry_operator.Netbox.{DeviceStatus}
use smeltry_operator.Kube.{Object}
use smeltry_operator.Effect.{
  Event, Go, Flow, next, returned, Block, ◌>>=◌, continue, pure, call, check, value_or, body,
  finish,
}
use smeltry_operator.Effect.Emits.{Runs, Any, Ends}
use smeltry_operator.Controller.Reply.{Reply}
use smeltry_operator.Controller.Cluster.Lifecycle.{Quiet}

-- The machines that the stored claim records, those that Netbox has staged, and those that it has
-- set active with no tenant.
pub record Book : Type 0 where
  pub recorded : List ℕ
  pub staged : List ℕ
  pub freed : List ℕ

abbrev pub entry : Book → Event → Book
entry b (Event.set_device_status id DeviceStatus.staged _ none) = record b {
  staged = b.staged ++ (id ∷ []);
}
entry b (Event.set_device_status id DeviceStatus.active slug none) = record b {
  freed = if str_eq slug "" then b.freed ++ (id ∷ []) else b.freed;
}
entry b (Event.update_status (Object.cluster_claim new) none) = record b {
  recorded = new.status.allocated_machine_ids;
}
entry b _ = b

abbrev pub book : Book → List Event → Book
book b [] = b
book b (e ∷ es) = book (entry b e) es

pub book-append : (b : Book) (xs ys : List Event) → book b (xs ++ ys) ≡ book (book b xs) ys
book-append b [] ys = refl
book-append b (x ∷ xs) ys = book-append (entry b x) xs ys

abbrev pub opening : ClusterClaim → Book
opening claim = record { recorded = claim.status.allocated_machine_ids; staged = []; freed = [] }

-- Every machine that the claim has had or that has been staged is recorded or has been given back.
abbrev pub Balanced : ClusterClaim → Book → Type 0
Balanced claim b = b.recorded ++ b.freed ≡ claim.status.allocated_machine_ids ++ b.staged

-- A quiet call leaves the book as it is.
entry-Quiet :
    (claim : ClusterClaim) (b : Book) (e : Event)
    → claim.status.allocated_machine_ids ≡ b.recorded
    → Quiet claim e
    → entry b e ≡ b
entry-Quiet claim b (Event.update_status (Object.cluster_claim new) none) h q =
    ap (λ l. record b { recorded = l }) (q.4 ∙ h)
entry-Quiet claim b (Event.update_status (Object.cluster_claim new) (some _)) h q = refl
entry-Quiet claim b (Event.set_device_status _ _ _ _) h q = absurd q
entry-Quiet claim b _ h q = refl

pub book-Quiet :
    (claim : ClusterClaim) (b : Book) (es : List Event)
    → claim.status.allocated_machine_ids ≡ b.recorded
    → All (Quiet claim) es
    → book b es ≡ b
book-Quiet claim b [] h q = refl
book-Quiet claim b (e ∷ es) h q = rw (entry-Quiet claim b e h q.0) (book-Quiet claim b es h q.1)

-- What a function has done where it returns no error.
abbrev pub Sound : (Book → Type 0) → Reply → Book → Type 0
Sound X reply b = reply.error ≡ none → X b

module _ {A : Type 0} (X : Book → Type 0) (Q : A → Book → Type 0) where
  abbrev pub Closes : Flow Reply A → Book → Type 0
  Closes (next a) b = Q a b
  Closes (returned reply) b = Sound X reply b

module _ {W A : Type 0} (X : Book → Type 0) (b : Book) (Q : A → Book → Type 0)
    (m : Block W Reply A) where
  pub record Books : Type 0 where
    pub at : (w : W) → Closes X Q (m w).0 (book b (m w).1)

module _ {W A B : Type 0} (X : Book → Type 0) (b : Book) (Q : A → Book → Type 0)
    (S : B → Book → Type 0) where
  Books-continue :
      (o : Flow Reply A) (before : List Event) (f : A → Block W Reply B) (w : W)
      → Closes X Q o (book b before)
      → ((a : A) (b' : Book) → Q a b' → Books X b' S (f a))
      → Closes X S (continue o before f w).0 (book b (continue o before f w).1)
  Books-continue (next a) before f w h hf =
      rw (book-append b before (f a w).1) ((hf a (book b before) h).at w)
  Books-continue (returned reply) before f w h hf = h

  pub Books-bind :
      (m : Block W Reply A) (f : A → Block W Reply B)
      → Books X b Q m
      → ((a : A) (b' : Book) → Q a b' → Books X b' S (f a))
      → Books X b S (m >>= f)
  unfolding ◌>>=◌
  Books-bind m f hm hf = record { at = λ w. Books-continue (m w).0 (m w).1 f (m w).2 (hm.at w) hf }

-- A reply that an error ends a function with.
abbrev pub IsFailing : (Error → Reply) → Type 0
IsFailing f = (e : Error) → (f e).error ≢ none

module _ {W A : Type 0} (X : Book → Type 0) (b : Book) (S : A → Book → Type 0) where
  pub Books-pure : (a : A) → S a b → Books {W = W} X b S (pure a)
  unfolding pure
  Books-pure a h = record { at = λ w. h }

  pub Books-call : (m : Go W A) → ((w : W) → S (m w).0 (book b (m w).1)) → Books X b S (call m)
  unfolding call
  Books-call m h = record { at = h }

  pub Books-if :
      (t : Bool) (m n : Block W Reply A)
      → (t ≡ true → Books X b S m)
      → (t ≡ false → Books X b S n)
      → Books X b S (if t then m else n)
  Books-if true m n hm hn = hm refl
  Books-if false m n hm hn = hn refl

  Closes-value_or :
      (f : Error → Reply) (v : Result A) (es : List Event) (w : W)
      → IsFailing f
      → ((a : A) → v ≡ ok a → S a (book b es))
      → Closes X S (value_or f v w).0 (book b (es ++ (value_or f v w).1))
  unfolding body
  Closes-value_or f (ok a) es w bad h = rw append-nil (h a refl)
  Closes-value_or f (err e) es w bad h = λ p. absurd (bad e p)

  -- A call whose error ends the function.
  pub Books-valued :
      (m : Go W (Result A)) (f : Error → Reply)
      → IsFailing f
      → ((w : W) (a : A) → (m w).0 ≡ ok a → S a (book b (m w).1))
      → Books X b S (call m >>= value_or f)
  unfolding body
  Books-valued m f bad h = record { at = λ w. Closes-value_or f (m w).0 (m w).1 (m w).2 bad (h w) }

module _ {W : Type 0} (X : Book → Type 0) (b : Book) (S : Unit {0} → Book → Type 0) where
  Closes-check :
      (f : Error → Reply) (e : Option Error) (es : List Event) (w : W)
      → IsFailing f
      → (e ≡ none → S tt (book b es))
      → Closes X S (check f e w).0 (book b (es ++ (check f e w).1))
  unfolding body
  Closes-check f none es w bad h = rw append-nil (h refl)
  Closes-check f (some e) es w bad h = λ p. absurd (bad e p)

  pub Books-checked :
      (m : Go W (Option Error)) (f : Error → Reply)
      → IsFailing f
      → ((w : W) → (m w).0 ≡ none → S tt (book b (m w).1))
      → Books X b S (call m >>= check f)
  unfolding body
  Books-checked m f bad h = record { at = λ w. Closes-check f (m w).0 (m w).1 (m w).2 bad (h w) }

module _ {A : Type 0} (X : Book → Type 0) (b : Book) (Q : A → Type 0) (S : A → Book → Type 0) where
  Closes-Ends : (o : Flow Reply A) → ((a : A) → Q a → S a b) → X b → Ends Any Q o → Closes X S o b
  Closes-Ends (next a) f x h = f a h
  Closes-Ends (returned reply) f x h = λ _. x

module _ {W A B : Type 0} (X : Book → Type 0) (b : Book) (S : B → Book → Type 0) where
  -- A call that leaves the book as it is, and what follows it.
  pub Books-after :
      (m : Go W A) (f : A → Block W Reply B)
      → ((w : W) → book b (m w).1 ≡ b)
      → ((a : A) → Books X b S (f a))
      → Books X b S (call m >>= f)
  Books-after m f same h =
      Books-bind X b (λ _ b'. b' ≡ b) S _ _ (Books-call X b _ m same)
        λ a b' e. subst (λ c. Books X c S (f a)) (sym e) (h a)

  -- The same where an error of the call ends the function.
  pub Books-reads :
      (m : Go W (Result A)) (g : Error → Reply) (f : A → Block W Reply B)
      → IsFailing g
      → ((w : W) → book b (m w).1 ≡ b)
      → ((a : A) → Books X b S (f a))
      → Books X b S (call m >>= value_or g >>= f)
  Books-reads m g f bad same h =
      Books-bind X b (λ _ b'. b' ≡ b) S _ _ (Books-valued X b _ m g bad (λ w _ _. same w))
        λ a b' e. subst (λ c. Books X c S (f a)) (sym e) (h a)

-- A block of quiet calls.
module _ {W A : Type 0} (X : Book → Type 0) (b : Book) (Q : A → Type 0) (S : A → Book → Type 0)
    (claim : ClusterClaim) (same : claim.status.allocated_machine_ids ≡ b.recorded) where
  pub Books-silent :
      (m : Block W Reply A)
      → ((a : A) → Q a → S a b)
      → X b
      → Runs (Quiet claim) Any Q m
      → Books X b S m
  Books-silent m f x h = record {
    at = λ w.
        rw (book-Quiet claim b (m w).1 same (h.at w).0)
          (Closes-Ends X b Q S (m w).0 f x (h.at w).1);
  }

Sound-finish :
    (X : Book → Type 0) (o : Flow Reply Reply) (b : Book)
    → Closes X (Sound X) o b
    → Sound X (finish o) b
Sound-finish X (next reply) b h = h
Sound-finish X (returned reply) b h = h

-- What a function that returns no error has done.
module _ {W : Type 0} (X : Book → Type 0) (b : Book) where
  abbrev pub Keeps : Go W Reply → Type 0
  Keeps m = (w : W) → (m w).0.error ≡ none → X (book b (m w).1)

  pub Books-body : (m : Block W Reply Reply) → Books X b (Sound X) m → Keeps (body m)
  unfolding body
  Books-body m h w = Sound-finish X (m w).0 (book b (m w).1) (h.at w)
