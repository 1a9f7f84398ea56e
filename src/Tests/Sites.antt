-- ===== src/Tests/Sites.antt =====
-- The counts of a site at three machines.
use smeltry_operator.Base.{◌≡◌, All, some, [], ◌∷◌}
use smeltry_operator.Controller.Sites.{aggregate_machine_classes}
use smeltry_operator.Controller.Sites.Counts.{
  listed_count, expected_count, listed_count-aggregate_machine_classes,
}
use smeltry_operator.Controller.Sites.Sorting.{Ascending}
use smeltry_operator.Controller.Sites.Order.{classes, aggregate_machine_classes-Ascending}
use smeltry_operator.Tests.World.{device}

listed_count-aggregate_machine_classes_example :
    listed_count "r640"
      (aggregate_machine_classes (device 1 ∷ record (device 2) { tenant = some "acme" } ∷ []))
    ≡ expected_count "r640" (device 1 ∷ record (device 2) { tenant = some "acme" } ∷ [])
listed_count-aggregate_machine_classes_example =
    listed_count-aggregate_machine_classes "r640"
      (device 1 ∷ record (device 2) { tenant = some "acme" } ∷ [])

aggregate_machine_classes-Ascending_example :
    let result = aggregate_machine_classes (record (device 1) { model = "r750" } ∷ device 2 ∷ []) in
    Ascending (classes result) × All (λ s. Ascending s.tags) result
aggregate_machine_classes-Ascending_example =
    aggregate_machine_classes-Ascending (record (device 1) { model = "r750" } ∷ device 2 ∷ [])
