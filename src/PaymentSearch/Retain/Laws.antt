-- ===== src/PaymentSearch/Retain/Laws.antt =====
-- Which values `copyRetained` (apps/api/src/payment-search.ts) accepts, and what it returns.

use mathlib.Core.Option.{some-injective}
use aqua_orbital.Prelude.{ℕ, ◌+◌, ◌≤◌, ◌≡◌, sym, ap, ◌∙◌, ◌↔◌, Option, none, some, arith}
use aqua_orbital.PaymentSearch.Retain.{
  key_units, Value, Properties, Counters, max_nodes, max_depth, max_text_units, copy,
  copy_properties, retain, visited, add_units,
}
use aqua_orbital.PaymentSearch.Retain.Shape.{
  nodes_of, nodes_of_properties, units_of, units_of_properties, height_of, height_of_properties,
  IsInert, AreInert,
}
use aqua_orbital.PaymentSearch.Retain.Sound.{
  >>=-eq-some, entry_ok_of, units_ok_of, array_ok-prototype, copy_sound,
}

-- The counters after a value has been copied.
abbrev advance : ℕ → ℕ → Counters → Counters
advance n u c = record { nodes = c.nodes + n; text_units = c.text_units + u }

mutual
  unfolding copy

  copy_complete :
      (depth : ℕ) (v : Value) (c : Counters)
      → IsInert v
      → c.nodes + nodes_of v ≤ max_nodes
      → c.text_units + units_of v ≤ max_text_units
      → depth + height_of v ≤ max_depth
      → copy depth v c ≡ some (v, advance (nodes_of v) (units_of v) c)
  copy_complete depth Value.null c i n u d = ground arith
  copy_complete depth (Value.boolean b) c i n u d = ground arith
  copy_complete depth (Value.text s) c i n u d = ground arith
  copy_complete depth (Value.integer neg m) c i n u d = ground arith
  copy_complete depth Value.fraction c i n u d = absurd i
  copy_complete depth (Value.bigint neg m) c i n u d = ground arith
  copy_complete depth Value.other c i n u d = absurd i
  copy_complete depth (Value.array p len ps) c i n u d =
      let ih = copy_properties_complete (some len) depth ps (visited c) i.1 (omega arith) u d in
      rw (entry_ok_of depth c (omega arith) (omega arith), i.0, ih)
        (ground (arith, array_ok-prototype p len ps i.0))
  copy_complete depth (Value.object p ps) c i n u d =
      let ih = copy_properties_complete none depth ps (visited c) i.1 (omega arith) u d in
      rw (entry_ok_of depth c (omega arith) (omega arith), i.0, ih) (ground arith)

  copy_properties_complete :
      (len : Option ℕ) (depth : ℕ) (ps : Properties) (c : Counters)
      → AreInert len ps
      → c.nodes + nodes_of_properties ps ≤ max_nodes
      → c.text_units + units_of_properties ps ≤ max_text_units
      → depth + height_of_properties ps ≤ max_depth
      → copy_properties len (depth + 1) ps c
        ≡ some (ps, advance (nodes_of_properties ps) (units_of_properties ps) c)
  copy_properties_complete len depth Properties.nil c i n u d = ground arith
  copy_properties_complete len depth (Properties.property k plain v ps) c i n u d =
      let counted = add_units (key_units k) c in
      let here =
        copy_complete (depth + 1) v counted i.2 (omega arith) (omega arith) (omega arith) in
      let rest =
        copy_properties_complete len depth ps (advance (nodes_of v) (units_of v) counted) i.3
          (omega arith) (omega arith) (omega arith) in
      rw (units_ok_of counted (omega arith), i.0, i.1, here, rest) (ground arith)

-- `copyRetained` accepts a value exactly if it is inert data (safe integers, bigints below 2^256 in
-- magnitude, plain arrays without holes and plain objects with enumerable text-keyed values) of at
-- most 8192 nodes, 1048576 text units and nesting depth 24; and what it returns is equal to it.
pub retain_iff :
    (v w : Value)
    → (retain v ≡ some w) ↔ (
        (w ≡ v)
        × IsInert v
        × (nodes_of v ≤ max_nodes)
        × (units_of v ≤ max_text_units)
        × (height_of v ≤ max_depth))
unfolding retain
retain_iff v w = (to, from)
  where
    to :
        retain v ≡ some w
        → (w ≡ v)
          × IsInert v
          × (nodes_of v ≤ max_nodes)
          × (units_of v ≤ max_text_units)
          × (height_of v ≤ max_depth)
    to h =
        let ((x, c), copied, done) =
          >>=-eq-some (copy 0 v (record { nodes = 0; text_units = 0 })) _ h in
        let r = copy_sound 0 v _ (omega arith) copied in
        let e : x ≡ w = some-injective _ _ done in
        (
          sym e ∙ r.same,
          r.inert,
          omega (arith, r.nodes, r.nodes_fit),
          omega (arith, r.units, r.units_fit),
          omega (arith, r.depth_fits),
        )

    from :
        (w ≡ v)
          × IsInert v
          × (nodes_of v ≤ max_nodes)
          × (units_of v ≤ max_text_units)
          × (height_of v ≤ max_depth)
        → retain v ≡ some w
    from (e, i, n, u, d) =
        rw
          (copy_complete 0 v (record { nodes = 0; text_units = 0 }) i (omega arith) (omega arith)
            (omega arith))
          (ap some (sym e))
