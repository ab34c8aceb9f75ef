-- ===== src/PaymentSearch/Retain/Shape.antt =====
-- The size of a value, and the data that `copyRetained` (apps/api/src/payment-search.ts) is meant for.

use aqua_orbital.Prelude.{ℕ, ◌+◌, ◌^◌, ◌≤◌, ◌<◌, max, ◌≡◌, true, Option, none, some, length}
use aqua_orbital.PaymentSearch.Retain.{
  key_units, Value, Properties, max_safe, index_ok, array_ok, object_ok,
}

-- The nodes and the text units that a value counts for, and how deep its leaves lie.
abbrev mutual
  pub nodes_of : Value → ℕ
  nodes_of (Value.array p len ps) = 1 + nodes_of_properties ps
  nodes_of (Value.object p ps) = 1 + nodes_of_properties ps
  nodes_of _ = 1

  pub nodes_of_properties : Properties → ℕ
  nodes_of_properties Properties.nil = 0
  nodes_of_properties (Properties.property k plain v ps) = nodes_of v + nodes_of_properties ps

abbrev mutual
  pub units_of : Value → ℕ
  units_of (Value.text s) = length s
  units_of (Value.array p len ps) = units_of_properties ps
  units_of (Value.object p ps) = units_of_properties ps
  units_of _ = 0

  pub units_of_properties : Properties → ℕ
  units_of_properties Properties.nil = 0
  units_of_properties (Properties.property k plain v ps) =
      key_units k + units_of v + units_of_properties ps

abbrev mutual
  pub height_of : Value → ℕ
  height_of (Value.array p len ps) = height_of_properties ps
  height_of (Value.object p ps) = height_of_properties ps
  height_of _ = 0

  pub height_of_properties : Properties → ℕ
  height_of_properties Properties.nil = 0
  height_of_properties (Properties.property k plain v ps) =
      max (1 + height_of v) (height_of_properties ps)

-- Inert data: bounded numbers, plain arrays without holes and plain objects, all the way down.
abbrev mutual
  pub IsInert : Value → Type 0
  IsInert Value.null = Unit
  IsInert (Value.boolean b) = Unit
  IsInert (Value.text s) = Unit
  IsInert (Value.integer neg n) = n ≤ max_safe
  IsInert Value.fraction = ⊥
  IsInert (Value.bigint neg n) = n < 2 ^ 256
  IsInert Value.other = ⊥
  IsInert (Value.array p len ps) = (array_ok p len ps ≡ true) × AreInert (some len) ps
  IsInert (Value.object p ps) = (object_ok p ps ≡ true) × AreInert none ps

  pub AreInert : Option ℕ → Properties → Type 0
  AreInert len Properties.nil = Unit
  AreInert len (Properties.property k plain v ps) =
      (index_ok len k ≡ true) × (plain ≡ true) × IsInert v × AreInert len ps
