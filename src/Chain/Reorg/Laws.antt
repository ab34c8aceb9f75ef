-- ===== src/Chain/Reorg/Laws.antt =====
-- What `reconcileCanonicalChain` (packages/db/src/reorg.ts) does on each of its outcomes.
use mathlib.Core.Path.{subst, subst₂}
use aqua_orbital.Prelude.{
  ℕ, ◌<◌, ◌≡◌, refl, ap, sym, ◌≢◌, ◌⊎◌, inl, inr, Bool, true, false, List, [], ◌∷◌, ◌++◌, Option,
  none, some, arith, find, take, length, includes, All, Bool-cases,
}
use aqua_orbital.Chain.Table.{
  Block, Cursor, Event, Coverage, indexing, Db, hashes, needs_resync, above, filter_by,
}
use aqua_orbital.Chain.Table.Laws.{
  IsTip, Distinct, IsValid, Split, Distinct-suffix, cascade_lem, All-filter_by,
}
use aqua_orbital.Chain.Reorg.{
  reorg_window, Outcome, unchanged, rolled_back, resync_needed, cursor_changed, canonical_at,
  is_hash, is_canonical, same_cursor, rollback,
}

-- The rows of a table that belong to one of the blocks.
abbrev pub events_of : List Block → List Event → List Event
events_of bs es = filter_by (λ (e : Event). includes e.block_hash (hashes bs)) es

abbrev pub coverage_of : List Block → List Coverage → List Coverage
coverage_of bs cs = filter_by (λ (c : Coverage). includes c.hash (hashes bs)) cs

-- A rollback to the highest stored row that is canonical: the rows above it are gone, with exactly
-- their events and coverage, and the cursor stands on it.
pub record RolledBack (canonical : List Block) (db : Db) (removed : ℕ) (db' : Db) : Type 0 where
  pub ancestor : Block
  pub upper : List Block
  pub lower : List Block
  pub stored : db.blocks ≡ upper ++ ancestor ∷ lower
  pub canonical_ancestor : is_canonical canonical ancestor ≡ true
  pub highest : All (λ b. is_canonical canonical b ≡ false) upper
  pub shortened : 0 < length upper
  pub removed_rows : removed ≡ length upper
  pub blocks : db'.blocks ≡ ancestor ∷ lower
  pub cursor : db'.cursor ≡ some (record { height = ancestor.number; hash = ancestor.hash })
  pub state : db'.state ≡ some (indexing, false)
  pub events : db'.events ≡ events_of (ancestor ∷ lower) db.events
  pub coverage : db'.coverage ≡ coverage_of (ancestor ∷ lower) db.coverage

-- The effect of each outcome.
abbrev pub Effect : List Block → Cursor → Db → Outcome → ℕ → Db → Type 0
Effect canonical expected db unchanged removed db' =
    (db' ≡ db) × (canonical_at expected.height canonical ≡ some expected.hash)
Effect canonical expected db rolled_back removed db' = RolledBack canonical db removed db'
Effect canonical expected db resync_needed removed db' =
    (db'.blocks ≡ db.blocks)
    × (db'.events ≡ db.events)
    × (db'.cursor ≡ db.cursor)
    × (db'.coverage ≡ db.coverage)
    × (needs_resync db'.state ≡ true)
    × ((needs_resync db.state ≡ true)
        ⊎ All (λ b. is_canonical canonical b ≡ false) (take reorg_window db.blocks))
Effect canonical expected db cursor_changed removed db' =
    (db' ≡ db) × (same_cursor db.cursor expected ≡ false)

pub find-none : (p : Block → Bool) (bs : List Block) → find p bs ≡ none → All (λ b. p b ≡ false) bs
find-none p [] e = tt
find-none p (b ∷ bs) e = elim (Bool-cases (p b)) [
  | inl hit ↦ absurd (cc (rw hit at e))
  | inr miss ↦ (miss, find-none p bs (rw miss at e))
]

pub is_hash_lem : (o : Option ℕ) (h : ℕ) → is_hash o h ≡ true → o ≡ some h
is_hash_lem none h e = cc
is_hash_lem (some x) h e = ap some (ground arith)

pub same_cursor_lem : (o : Option Cursor) (c : Cursor) → same_cursor o c ≡ true → o ≡ some c
same_cursor_lem none c e = cc
same_cursor_lem (some x) c e = ground arith

-- The rows above the ancestor, where the tip is the cursor.
upper_pos :
    (c : Cursor) (upper lower : List Block) (a : Block)
    → IsTip (some c) (upper ++ a ∷ lower)
    → a.number ≢ c.height
    → 0 < length upper
upper_pos c [] lower a tip ne = absurd (ne (sym tip.0))
upper_pos c (b ∷ upper) lower a tip ne = omega arith

pub upper_nil :
    (c : Cursor) (upper lower : List Block) (a : Block)
    → IsTip (some c) (upper ++ a ∷ lower)
    → All (λ (b : Block). a.number < b.number) upper
    → a.number ≡ c.height
    → a.hash ≡ c.hash
upper_nil c [] lower a tip higher e = sym tip.1
upper_nil c (b ∷ upper) lower a tip higher e = absurd (omega arith)

module _ (canonical : List Block) (c : Cursor) (db : Db) (h : IsValid db) (at : db.cursor ≡ some c)
    (a : Block) (s : Split (is_canonical canonical) db.blocks a) where
  IsTip-Split : IsTip (some c) (s.upper ++ a ∷ s.lower)
  IsTip-Split = subst₂ IsTip at s.whole h.tip

  Distinct-Split : Distinct (s.upper ++ a ∷ s.lower)
  Distinct-Split = subst Distinct s.whole h.distinct

  rollback-events : (rollback a c db).events ≡ events_of (a ∷ s.lower) db.events
  unfolding rollback
  rollback-events = rw s.gone (
      cascade_lem (λ (e : Event). e.block_hash) s.upper (a ∷ s.lower) Distinct-Split db.events
        (subst (λ bs. All (λ (e : Event). includes e.block_hash (hashes bs) ≡ true) db.events)
          s.whole h.events_stored))

  rollback-coverage : (rollback a c db).coverage ≡ coverage_of (a ∷ s.lower) db.coverage
  unfolding rollback
  rollback-coverage = rw s.gone (
      cascade_lem (λ (e : Coverage). e.hash) s.upper (a ∷ s.lower) Distinct-Split db.coverage
        (subst (λ bs. All (λ (e : Coverage). includes e.hash (hashes bs) ≡ true) db.coverage)
          s.whole h.coverage_stored))

  pub rollback-RolledBack :
      a.number ≢ c.height
      → RolledBack canonical db (length (above a.number db.blocks)) (rollback a c db)
  unfolding rollback
  rollback-RolledBack ne = record {
    ancestor = a;
    upper = s.upper;
    lower = s.lower;
    stored = s.whole;
    canonical_ancestor = s.chosen;
    highest = s.passed;
    shortened = upper_pos c s.upper s.lower a IsTip-Split ne;
    removed_rows = ap length s.gone;
    blocks = s.kept;
    cursor = refl;
    state = refl;
    events = rollback-events;
    coverage = rollback-coverage;
  }

  pub rollback-IsValid : IsValid (rollback a c db)
  unfolding rollback
  rollback-IsValid = record {
    linked = rw s.kept s.linked;
    tip = rw s.kept (refl, refl);
    distinct = rw s.kept (Distinct-suffix s.upper (a ∷ s.lower) Distinct-Split);
    events_stored =
        subst₂ (λ es bs. All (λ (e : Event). includes e.block_hash (hashes bs) ≡ true) es)
          (sym rollback-events) (sym s.kept) (All-filter_by _ db.events);
    coverage_stored =
        subst₂ (λ es bs. All (λ (e : Coverage). includes e.hash (hashes bs) ≡ true) es)
          (sym rollback-coverage) (sym s.kept) (All-filter_by _ db.coverage);
  }
