-- ===== src/PaymentSearch/Retain/Sound.antt =====
-- What a successful copy of `copyRetained` (apps/api/src/payment-search.ts) has checked and counted.
use mathlib.Core.Path.{subst}
use mathlib.Core.Option.{some-injective}
use aqua_orbital.Prelude.{
  ℕ, ◌+◌, ◌≤◌, ◌≡◌, refl, ap, Bool, true, false, ◌&&◌, Option, none, some, arith, leb→le,
  &&-eq-true,
}
use aqua_orbital.PaymentSearch.Retain.{
  Prototype, array_prototype, is_array_prototype, Key, key_units, Value, Properties, Counters,
  max_nodes, max_depth, max_text_units, index_ok, array_ok, object_ok, keep_if, ◌>>=◌, copy,
  copy_properties, visited, add_units, units_ok, entry_ok,
}
use aqua_orbital.PaymentSearch.Retain.Shape.{
  nodes_of, nodes_of_properties, units_of, units_of_properties, height_of, height_of_properties,
  IsInert, AreInert,
}

-- What a successful copy at `depth` has done.
pub record Copied (depth : ℕ) (v : Value) (c : Counters) (w : Value) (c' : Counters) : Type 0 where
  pub same : w ≡ v
  pub inert : IsInert v
  pub nodes : c'.nodes ≡ c.nodes + nodes_of v
  pub units : c'.text_units ≡ c.text_units + units_of v
  pub nodes_fit : c'.nodes ≤ max_nodes
  pub units_fit : c'.text_units ≤ max_text_units
  pub depth_fits : depth + height_of v ≤ max_depth

pub record CopiedProperties (len : Option ℕ) (depth : ℕ) (ps : Properties) (c : Counters)
    (qs : Properties) (c' : Counters) : Type 0 where
  pub same : qs ≡ ps
  pub inert : AreInert len ps
  pub nodes : c'.nodes ≡ c.nodes + nodes_of_properties ps
  pub units : c'.text_units ≡ c.text_units + units_of_properties ps
  pub nodes_fit : c'.nodes ≤ max_nodes
  pub units_fit : c'.text_units ≤ max_text_units
  pub depth_fits : depth + height_of_properties ps ≤ max_depth

pub >>=-eq-some {ℓ κ} :
    {A : Type ℓ} {B : Type κ} (m : Option A) (f : A → Option B) {b : B}
    → (m >>= f) ≡ some b
    → (a : A) × (m ≡ some a) × (f a ≡ some b)
>>=-eq-some none f h = cc
>>=-eq-some (some a) f h = (a, refl, h)

pub keep_if->>=-eq-some {ℓ κ} :
    {A : Type ℓ} {B : Type κ} (t : Bool) (a : A) (f : A → Option B) {b : B}
    → (keep_if t a >>= f) ≡ some b
    → (t ≡ true) × (f a ≡ some b)
keep_if->>=-eq-some true a f h = (refl, h)
keep_if->>=-eq-some false a f h = cc

is_array_prototype_lem : (p : Prototype) → is_array_prototype p ≡ true → p ≡ array_prototype
is_array_prototype_lem p h = ground arith

pub array_ok-prototype :
    (p : Prototype) (len : ℕ) (ps : Properties) → array_ok p len ps ≡ true → p ≡ array_prototype
array_ok-prototype p len ps h = is_array_prototype_lem p (ground arith)

pub entry_ok_of :
    (depth : ℕ) (c : Counters)
    → c.nodes + 1 ≤ max_nodes
    → depth ≤ max_depth
    → entry_ok depth (visited c) ≡ true
entry_ok_of depth c n d = ground arith

pub units_ok_of : (c : Counters) → c.text_units ≤ max_text_units → units_ok c ≡ true
units_ok_of c u = ground arith

entry_ok_lem :
    (depth : ℕ) (c : Counters)
    → entry_ok depth (visited c) ≡ true
    → (c.nodes + 1 ≤ max_nodes) × (depth ≤ max_depth)
entry_ok_lem depth c h = ground arith

tests_lem : (u i p : Bool) → (u && i && p) ≡ true → (u ≡ true) × (i ≡ true) × (p ≡ true)
tests_lem u i p h = ground arith

module _ {depth : ℕ} {c c' : Counters} {ps qs : Properties} where
  array_Copied :
      (p : Prototype) (len : ℕ)
      → array_ok p len ps ≡ true
      → CopiedProperties (some len) depth ps (visited c) qs c'
      → Copied depth (Value.array p len ps) c (Value.array array_prototype len qs) c'
  array_Copied p len shaped r = record {
    same = let e : p ≡ array_prototype = array_ok-prototype p len ps shaped in cc (e, r.same);
    inert = (shaped, r.inert);
    nodes = omega (arith, r.nodes);
    units = r.units;
    nodes_fit = r.nodes_fit;
    units_fit = r.units_fit;
    depth_fits = r.depth_fits;
  }

  object_Copied :
      (p : Prototype)
      → object_ok p ps ≡ true
      → CopiedProperties none depth ps (visited c) qs c'
      → Copied depth (Value.object p ps) c (Value.object p qs) c'
  object_Copied p shaped r = record {
    same = ap (Value.object p) r.same;
    inert = (shaped, r.inert);
    nodes = omega (arith, r.nodes);
    units = r.units;
    nodes_fit = r.nodes_fit;
    units_fit = r.units_fit;
    depth_fits = r.depth_fits;
  }

property_Copied :
    {len : Option ℕ} {depth : ℕ} {k : Key} {plain : Bool} {v w : Value} {c c1 c2 : Counters}
    {ps qs : Properties}
    → index_ok len k ≡ true
    → plain ≡ true
    → Copied (depth + 1) v (add_units (key_units k) c) w c1
    → CopiedProperties len depth ps c1 qs c2
    → CopiedProperties len depth
        (Properties.property k plain v ps)
        c
        (Properties.property k true w qs)
        c2
property_Copied {k} {plain} indexed marked r r' = record {
  same = cc (marked, r.same, r'.same);
  inert = (indexed, marked, r.inert, r'.inert);
  nodes = omega (arith, r.nodes, r'.nodes);
  units = omega (arith, r.units, r'.units);
  nodes_fit = r'.nodes_fit;
  units_fit = r'.units_fit;
  depth_fits = omega (arith, r.depth_fits, r'.depth_fits);
}

Copied-of_eq :
    {depth : ℕ} {v w w' : Value} {c c' c'' : Counters}
    → ◌≡◌ {A = Option (Value × Counters)} (some (w, c')) (some (w', c''))
    → Copied depth v c w c'
    → Copied depth v c w' c''
Copied-of_eq {depth} {v} {c} e r =
    subst (λ (o : Value × Counters). Copied depth v c o.0 o.1) (some-injective _ _ e) r

CopiedProperties-of_eq :
    {len : Option ℕ} {depth : ℕ} {ps qs qs' : Properties} {c c' c'' : Counters}
    → ◌≡◌ {A = Option (Properties × Counters)} (some (qs, c')) (some (qs', c''))
    → CopiedProperties len depth ps c qs c'
    → CopiedProperties len depth ps c qs' c''
CopiedProperties-of_eq {len} {depth} {ps} {c} e r =
    subst (λ (o : Properties × Counters). CopiedProperties len depth ps c o.0 o.1)
      (some-injective _ _ e) r

mutual
  unfolding copy

  pub copy_sound :
      (depth : ℕ) (v : Value) (c : Counters) {w : Value} {c' : Counters}
      → c.text_units ≤ max_text_units
      → copy depth v c ≡ some (w, c')
      → Copied depth v c w c'
  copy_sound depth Value.null c f h = ground arith
  copy_sound depth (Value.boolean b) c f h = ground arith
  copy_sound depth (Value.text s) c f h = ground arith
  copy_sound depth (Value.integer neg n) c f h = ground arith
  copy_sound depth Value.fraction c f h = cc
  copy_sound depth (Value.bigint neg n) c f h = ground arith
  copy_sound depth Value.other c f h = cc
  copy_sound depth (Value.array p len ps) c f h =
      let test = entry_ok depth (visited c) && array_ok p len ps in
      let (tested, rest) = keep_if->>=-eq-some test (visited c) _ h in
      let ((qs, c''), copied, done) =
        >>=-eq-some (copy_properties (some len) (depth + 1) ps (visited c)) _ rest in
      let (entry, shaped) = &&-eq-true (entry_ok depth (visited c)) (array_ok p len ps) tested in
      let (n, d) = entry_ok_lem depth c entry in
      let r = copy_properties_sound (some len) depth ps (visited c) d n f copied in
      Copied-of_eq done (array_Copied p len shaped r)
  copy_sound depth (Value.object p ps) c f h =
      let test = entry_ok depth (visited c) && object_ok p ps in
      let (tested, rest) = keep_if->>=-eq-some test (visited c) _ h in
      let ((qs, c''), copied, done) =
        >>=-eq-some (copy_properties none (depth + 1) ps (visited c)) _ rest in
      let (entry, shaped) = &&-eq-true (entry_ok depth (visited c)) (object_ok p ps) tested in
      let (n, d) = entry_ok_lem depth c entry in
      let r = copy_properties_sound none depth ps (visited c) d n f copied in
      Copied-of_eq done (object_Copied p shaped r)

  copy_properties_sound :
      (len : Option ℕ) (depth : ℕ) (ps : Properties) (c : Counters) {qs : Properties}
      {c' : Counters}
      → depth ≤ max_depth
      → c.nodes ≤ max_nodes
      → c.text_units ≤ max_text_units
      → copy_properties len (depth + 1) ps c ≡ some (qs, c')
      → CopiedProperties len depth ps c qs c'
  copy_properties_sound len depth Properties.nil c d n f h = ground arith
  copy_properties_sound len depth (Properties.property k plain v ps) c d n f h =
      let counted = add_units (key_units k) c in
      let test = units_ok counted && index_ok len k && plain in
      let (tested, rest) = keep_if->>=-eq-some test counted _ h in
      let ((w, c1), copied, rest') = >>=-eq-some (copy (depth + 1) v counted) _ rest in
      let ((qs, c2), copied', done) = >>=-eq-some (copy_properties len (depth + 1) ps c1) _ rest' in
      let (units, indexed, marked) = tests_lem (units_ok counted) (index_ok len k) plain tested in
      let r = copy_sound (depth + 1) v counted (leb→le _ _ units) copied in
      let r' = copy_properties_sound len depth ps c1 d r.nodes_fit r.units_fit copied' in
      CopiedProperties-of_eq done (property_Copied indexed marked r r')
