-- ===== src/Controller/Sites/Counts.antt =====
-- The counts in a site's status, against a count of the devices.
use smeltry_operator.Base.{
  ◌≡◌, refl, ◌∙◌, ℕ, suc, ◌+◌, String, Bool, true, false, Option, none, some, List, [], ◌∷◌, str_eq,
  if◌then◌else◌, ap, eq_iff, arith, Bool-cases, inl, inr,
}
use smeltry_operator.Api.{MachineClassSummary}
use smeltry_operator.Netbox.{Device}
use smeltry_operator.Controller.Sites.{
  Entry, grown, count_device, collect, insert_summary, sort_summaries, summaries,
  aggregate_machine_classes,
}

-- The count of the first summary of a class.
pub listed_count : String → List MachineClassSummary → Option ℕ
listed_count class [] = none
listed_count class (s ∷ ss) =
    if str_eq s.machine_class class then some s.available_count else listed_count class ss

-- Whether a device is of a model.
pub is_present : String → List Device → Bool
is_present model [] = false
is_present model (d ∷ ds) = if str_eq d.model model then true else is_present model ds

-- How many devices of a model have no tenant.
pub free_count : String → List Device → ℕ
free_count model [] = 0
free_count model (d ∷ ds) =
    if str_eq d.model model
    then (elim d.tenant [ none ↦ suc (free_count model ds) | some _ ↦ free_count model ds ])
    else free_count model ds

-- The count of the first entry of a model.
entry_count : String → List (String × Entry) → Option ℕ
entry_count model [] = none
entry_count model ((m, e) ∷ rest) =
    if str_eq m model then some e.available else entry_count model rest

listed_count-insert_summary :
    (class : String) (s : MachineClassSummary) (ss : List MachineClassSummary)
    → listed_count class (insert_summary s ss) ≡ listed_count class (s ∷ ss)
unfolding listed_count insert_summary
listed_count-insert_summary class s [] = refl
listed_count-insert_summary class s (t ∷ ts) = ground (
  arith,
  eq_iff s.machine_class class,
  eq_iff t.machine_class class,
  eq_iff t.machine_class s.machine_class,
  listed_count-insert_summary class s ts,
)

listed_count-sort_summaries :
    (class : String) (ss : List MachineClassSummary)
    → listed_count class (sort_summaries ss) ≡ listed_count class ss
unfolding listed_count sort_summaries
listed_count-sort_summaries class [] = refl
listed_count-sort_summaries class (s ∷ ss) =
    listed_count-insert_summary class s (sort_summaries ss)
    ∙ ap (λ c. if str_eq s.machine_class class then some s.available_count else c)
        (listed_count-sort_summaries class ss)

listed_count-summaries :
    (class : String) (entries : List (String × Entry))
    → listed_count class (summaries entries) ≡ entry_count class entries
unfolding listed_count summaries entry_count
listed_count-summaries class [] = refl
listed_count-summaries class ((m, e) ∷ rest) =
    ap (λ c. if str_eq m class then some e.available else c) (listed_count-summaries class rest)

-- The count of an entry, or 0 where there is none.
abbrev count_or : Option ℕ → ℕ
count_or none = 0
count_or (some n) = n

entry_count-count_device :
    (model : String) (d : Device) (classes : List (String × Entry))
    → entry_count model (count_device d classes) ≡ (
        if str_eq d.model model
        then some (count_or (entry_count model classes) + free_count model (d ∷ []))
        else entry_count model classes)
unfolding entry_count count_device free_count grown
entry_count-count_device model d [] = ground (arith, eq_iff d.model model)
entry_count-count_device model d ((m, e) ∷ rest) = ground (
  arith,
  eq_iff d.model model,
  eq_iff m model,
  eq_iff m d.model,
  entry_count-count_device model d rest,
)

-- A count after some devices have been seen.
abbrev with_seen : Option ℕ → Bool → ℕ → Option ℕ
with_seen none false k = none
with_seen none true k = some k
with_seen (some n) _ k = some (n + k)

entry_count-skip :
    (model : String) (d : Device) (classes : List (String × Entry))
    → str_eq model "" ≡ false
    → entry_count model (if str_eq d.model "" then classes else count_device d classes)
      ≡ with_seen
          (entry_count model classes)
          (is_present model (d ∷ []))
          (free_count model (d ∷ []))
unfolding is_present free_count
entry_count-skip model d classes h = ground (
  arith,
  eq_iff model "",
  eq_iff d.model "",
  eq_iff d.model model,
  entry_count-count_device model d classes,
)

-- One device and then the others.
with_seen-cons :
    (model : String) (d : Device) (ds : List Device) (c : Option ℕ)
    → with_seen
        (with_seen c (is_present model (d ∷ [])) (free_count model (d ∷ [])))
        (is_present model ds)
        (free_count model ds)
      ≡ with_seen c (is_present model (d ∷ ds)) (free_count model (d ∷ ds))
unfolding is_present free_count
with_seen-cons model d ds none = ground arith
with_seen-cons model d ds (some n) = ground arith

entry_count-collect :
    (model : String) (ds : List Device) (classes : List (String × Entry))
    → str_eq model "" ≡ false
    → entry_count model (collect ds classes)
      ≡ with_seen (entry_count model classes) (is_present model ds) (free_count model ds)
unfolding collect is_present free_count
entry_count-collect model [] classes h = ground arith
entry_count-collect model (d ∷ ds) classes h =
    entry_count-collect model ds _ h
    ∙ ap (λ c. with_seen c (is_present model ds) (free_count model ds))
        (entry_count-skip model d classes h)
    ∙ with_seen-cons model d ds (entry_count model classes)

-- A device without a model leaves no entry.
entry_count-unnamed :
    (model : String) (ds : List Device) (classes : List (String × Entry))
    → str_eq model "" ≡ true
    → entry_count model (collect ds classes) ≡ entry_count model classes
unfolding collect
entry_count-unnamed model [] classes h = refl
entry_count-unnamed model (d ∷ ds) classes h =
    entry_count-unnamed model ds _ h
    ∙ ground (
      arith,
      eq_iff model "",
      eq_iff d.model "",
      eq_iff d.model model,
      entry_count-count_device model d classes,
    )

-- What the status of a site says of a model.
abbrev pub expected_count : String → List Device → Option ℕ
expected_count model devices =
    if str_eq model ""
    then none
    else (if is_present model devices then some (free_count model devices) else none)

listed_count-collect :
    (model : String) (devices : List Device)
    → listed_count model (aggregate_machine_classes devices)
      ≡ entry_count model (collect devices [])
unfolding aggregate_machine_classes
listed_count-collect model devices =
    listed_count-sort_summaries model (summaries (collect devices []))
    ∙ listed_count-summaries model (collect devices [])

-- The first summary of a class counts the devices of that model that have no tenant; there is such
-- a summary exactly when some device is of the model, and none for devices without a model.
pub listed_count-aggregate_machine_classes :
    (model : String) (devices : List Device)
    → listed_count model (aggregate_machine_classes devices) ≡ expected_count model devices
unfolding entry_count
listed_count-aggregate_machine_classes model devices =
    listed_count-collect model devices ∙ elim (Bool-cases (str_eq model "")) [
      | inl unnamed ↦ entry_count-unnamed model devices [] unnamed ∙ ground (arith, unnamed)
      | inr named ↦ entry_count-collect model devices [] named ∙ ground (arith, named)
    ]
