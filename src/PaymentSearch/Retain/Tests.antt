-- ===== src/PaymentSearch/Retain/Tests.antt =====
-- The bounded copy (`copyRetained`, apps/api/src/payment-search.ts) of an object with an array in it.
use aqua_orbital.Prelude.{◌≡◌, refl, ◌≤◌, ◌↔◌, true, false, [], ◌∷◌, none, some}
use aqua_orbital.PaymentSearch.Retain.{
  Value, bigint, array, object, nil, property, name, array_prototype, object_prototype, retain,
  copy, copy_properties, max_nodes, max_depth, max_text_units, fraction,
}
use aqua_orbital.PaymentSearch.Retain.Shape.{IsInert, nodes_of, units_of, height_of}
use aqua_orbital.PaymentSearch.Retain.Laws.{retain_iff}

-- `{a: [5n]}`
abbrev sample : Value
sample = object object_prototype (
    property (name (97 ∷ [])) true
      (array array_prototype 1 (property (name (48 ∷ [])) true (bigint false 5) nil)) nil)

-- `{a: 0.5}`
abbrev with_fraction : Value
with_fraction = object object_prototype (property (name (97 ∷ [])) true fraction nil)

copies : retain sample ≡ some sample
unfolding retain copy copy_properties
copies = refl

rejects_fraction : retain with_fraction ≡ none
unfolding retain copy copy_properties
rejects_fraction = refl

retain_iff_example : (retain sample ≡ some sample) ↔ (
    (sample ≡ sample)
    × IsInert sample
    × (nodes_of sample ≤ max_nodes)
    × (units_of sample ≤ max_text_units)
    × (height_of sample ≤ max_depth))
retain_iff_example = retain_iff sample sample
