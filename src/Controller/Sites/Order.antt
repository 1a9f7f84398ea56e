-- ===== src/Controller/Sites/Order.antt =====
-- The order of the summaries in a site's status, and of their tags.
use smeltry_operator.Base.{
  ◌≡◌, refl, sym, ◌∙◌, ap, String, false, List, [], ◌∷◌, All, Bool-cases, inl, inr, str_eq, str_ltb,
  arith,
}
use mathlib.Core.Path.{subst}
use smeltry_operator.Api.{MachineClassSummary}
use smeltry_operator.Netbox.{Device}
use smeltry_operator.Controller.Sites.{
  Entry, grown, count_device, collect, insert_text, sort_strings, insert_summary, sort_summaries,
  summary, summaries, aggregate_machine_classes,
}
use smeltry_operator.Controller.Sites.Sorting.{
  Ascending, Lacks, Distinct, add_tags-Distinct, sort_strings-Ascending,
}

abbrev pub classes : List MachineClassSummary → List String
classes [] = []
classes (s ∷ ss) = s.machine_class ∷ classes ss

abbrev models : List (String × Entry) → List String
models [] = []
models ((model, e) ∷ rest) = model ∷ models rest

-- The tags of each entry are a set.
abbrev TagSets : List (String × Entry) → Type 0
TagSets entries = All (λ e. Distinct e.1.tag_set) entries

count_device-Lacks :
    (model : String) (d : Device) (entries : List (String × Entry))
    → Lacks model (models entries)
    → str_eq model d.model ≡ false
    → Lacks model (models (count_device d entries))
unfolding count_device
count_device-Lacks model d [] h ne = (ne, tt)
count_device-Lacks model d ((m, e) ∷ rest) h ne =
    ground (arith, count_device-Lacks model d rest h.1 ne)

count_device-Distinct :
    (d : Device) (entries : List (String × Entry))
    → Distinct (models entries)
    → Distinct (models (count_device d entries))
unfolding count_device
count_device-Distinct d [] h = (tt, tt)
count_device-Distinct d ((m, e) ∷ rest) h = elim (Bool-cases (str_eq m d.model)) [
  | inl same ↦ rw (same) h
  | inr other ↦ rw (other) (count_device-Lacks m d rest h.0 other, count_device-Distinct d rest h.1)
]

grown-Distinct : (d : Device) (e : Entry) → Distinct e.tag_set → Distinct (grown d e).tag_set
unfolding grown
grown-Distinct d e h = add_tags-Distinct d.tags e.tag_set h

count_device-TagSets :
    (d : Device) (entries : List (String × Entry))
    → TagSets entries
    → TagSets (count_device d entries)
unfolding count_device
count_device-TagSets d [] h = (grown-Distinct d (record { available = 0; tag_set = [] }) tt, tt)
count_device-TagSets d ((m, e) ∷ rest) h = elim (Bool-cases (str_eq m d.model)) [
  | inl same ↦ rw (same) (grown-Distinct d e h.0, h.1)
  | inr other ↦ rw (other) (h.0, count_device-TagSets d rest h.1)
]

collect_inv :
    (P : List (String × Entry) → Type 0)
    → ((d : Device) (entries : List (String × Entry)) → P entries → P (count_device d entries))
    → (ds : List Device) (entries : List (String × Entry)) → P entries
    → P (collect ds entries)
unfolding collect
collect_inv P step [] entries h = h
collect_inv P step (d ∷ ds) entries h = elim (Bool-cases (str_eq d.model "")) [
  | inl unnamed ↦ rw (unnamed) (collect_inv P step ds entries h)
  | inr named ↦ rw (named) (collect_inv P step ds (count_device d entries) (step d entries h))
]

classes-insert_summary :
    (s : MachineClassSummary) (ss : List MachineClassSummary)
    → classes (insert_summary s ss) ≡ insert_text s.machine_class (classes ss)
unfolding insert_summary insert_text
classes-insert_summary s [] = refl
classes-insert_summary s (t ∷ ts) = elim (Bool-cases (str_ltb t.machine_class s.machine_class)) [
  | inl before ↦ rw (before) (ap (λ l. t.machine_class ∷ l) (classes-insert_summary s ts))
  | inr behind ↦ rw (behind) refl
]

classes-summaries :
    (entries : List (String × Entry))
    → classes (sort_summaries (summaries entries)) ≡ sort_strings (models entries)
unfolding sort_summaries summaries sort_strings
classes-summaries [] = refl
classes-summaries ((model, e) ∷ rest) =
    classes-insert_summary (summary (model, e)) (sort_summaries (summaries rest))
    ∙ ap (insert_text model) (classes-summaries rest)

insert_summary-All :
    (P : MachineClassSummary → Type 0) (s : MachineClassSummary) (ss : List MachineClassSummary)
    → P s
    → All P ss
    → All P (insert_summary s ss)
unfolding insert_summary
insert_summary-All P s [] h hs = (h, tt)
insert_summary-All P s (t ∷ ts) h hs = elim (Bool-cases (str_ltb t.machine_class s.machine_class)) [
  | inl before ↦ rw (before) (hs.0, insert_summary-All P s ts h hs.1)
  | inr behind ↦ rw (behind) (h, hs)
]

tags-Ascending :
    (entries : List (String × Entry))
    → TagSets entries
    → All (λ s. Ascending s.tags) (sort_summaries (summaries entries))
unfolding sort_summaries summaries summary
tags-Ascending [] h = tt
tags-Ascending ((model, e) ∷ rest) h =
    insert_summary-All (λ s. Ascending s.tags) (summary (model, e))
      (sort_summaries (summaries rest)) (sort_strings-Ascending e.tag_set h.0)
      (tags-Ascending rest h.1)

-- The classes of the summaries that are made for a site ascend strictly, so that no two summaries
-- are of one class, and so do the tags of each summary.
pub aggregate_machine_classes-Ascending :
    (devices : List Device)
    → let result = aggregate_machine_classes devices in
      Ascending (classes result) × All (λ s. Ascending s.tags) result
unfolding aggregate_machine_classes
aggregate_machine_classes-Ascending devices =
    let entries = collect devices [] in
    let distinct = collect_inv (λ es. Distinct (models es)) count_device-Distinct devices [] tt in
    (
      subst Ascending (sym (classes-summaries entries))
          (sort_strings-Ascending (models entries) distinct),
      tags-Ascending entries (collect_inv TagSets count_device-TagSets devices [] tt),
    )
