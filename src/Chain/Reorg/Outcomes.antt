-- ===== src/Chain/Reorg/Outcomes.antt =====
-- The whole of `reconcileCanonicalChain` (packages/db/src/reorg.ts), on the store's invariant.
use mathlib.Core.Path.{subst, subst₂}
use aqua_orbital.Prelude.{
  ℕ, ◌≡◌, refl, ◌≢◌, inl, inr, false, List, Option, none, some, ◌==◌, find, take, arith, Bool-cases,
  ok, ok-injective, fail_if->>-eq-ok, ==_iff, ◌++◌, ◌∷◌,
}
use aqua_orbital.Chain.Table.{Block, Cursor, Db, needs_resync}
use aqua_orbital.Chain.Table.Laws.{IsTip, IsValid, Split, find-Split}
use aqua_orbital.Chain.Reorg.{
  reorg_window, resync_needed, Reconciliation, is_canonical, require_resync, answer,
  settle_ancestor, reconcile_rows, reconcile, incomplete_canonical_window, invalid_canonical_window,
  inconsistent_canonical_chain, same_cursor, canonical_at,
}
use aqua_orbital.Chain.Reorg.Laws.{
  Effect, find-none, is_hash_lem, same_cursor_lem, upper_nil, rollback-RolledBack, rollback-IsValid,
}

==_false : (a b : ℕ) → (a == b) ≡ false → a ≢ b
==_false a b e = ground arith

-- A reconciliation that has its effect and keeps the invariant.
abbrev pub IsSound : List Block → Cursor → Db → Reconciliation × Db → Type 0
IsSound canonical c db (r, db') = Effect canonical c db r.status r.removed_blocks db' × IsValid db'

require_resync-IsValid : (c : Cursor) (db : Db) → IsValid db → IsValid (require_resync c db)
require_resync-IsValid c db h = record {
  linked = h.linked;
  tip = h.tip;
  distinct = h.distinct;
  events_stored = h.events_stored;
  coverage_stored = h.coverage_stored;
}

module _ (canonical : List Block) (c : Cursor) (db : Db) (h : IsValid db)
    (at : db.cursor ≡ some c) where
  -- The ancestor is the tip: the window names the hash of the cursor at its height.
  unchanged_lem :
      (a : Block)
      → Split (is_canonical canonical) db.blocks a
      → a.number ≡ c.height
      → canonical_at c.height canonical ≡ some c.hash
  unchanged_lem a s e =
      let tip : IsTip (some c) (s.upper ++ a ∷ s.lower) = subst₂ IsTip at s.whole h.tip in
      let same = upper_nil c s.upper s.lower a tip s.higher e in
      subst₂ (λ n x. canonical_at n canonical ≡ some x) e same
        (is_hash_lem (canonical_at a.number canonical) a.hash s.chosen)

  settle_ancestor_lem :
      (o : Option Block) {x : Reconciliation × Db}
      → find (is_canonical canonical) (take reorg_window db.blocks) ≡ o
      → settle_ancestor canonical c db o ≡ ok x
      → IsSound canonical c db x
  unfolding settle_ancestor
  settle_ancestor_lem none found e =
      let (complete, done) = fail_if->>-eq-ok _ incomplete_canonical_window _ e in
      subst (IsSound canonical c db) {x = (answer resync_needed c 0, require_resync c db)}
        (ok-injective done)
        ((refl, refl, refl, refl, refl, inr (find-none _ _ found)), require_resync-IsValid c db h)
  settle_ancestor_lem (some a) found e =
      let s = find-Split (is_canonical canonical) reorg_window db.blocks a h.linked found in
      elim (Bool-cases (a.number == c.height)) [
        | inl same ↦
            subst (IsSound canonical c db) (ok-injective (rw same at e))
              ((refl, unchanged_lem a s ((==_iff _ _).0 same)), h)
        | inr lower ↦ subst (IsSound canonical c db) (ok-injective (rw lower at e)) (
          rollback-RolledBack canonical c db h at a s (==_false _ _ lower),
          rollback-IsValid canonical c db h at a s,
        )
      ]

reconcile_rows_lem :
    (expected : Cursor) (canonical : List Block) (db : Db) {x : Reconciliation × Db}
    → IsValid db
    → reconcile_rows expected canonical db ≡ ok x
    → IsSound canonical expected db x
unfolding reconcile_rows
reconcile_rows_lem expected canonical db h e = elim (Bool-cases (same_cursor db.cursor expected)) [
  | inr other ↦
      subst (IsSound canonical expected db) (ok-injective (rw other at e)) ((refl, other), h)
  | inl same ↦ elim (Bool-cases (needs_resync db.state)) [
    | inl stuck ↦
        subst (IsSound canonical expected db) (ok-injective (rw (same, stuck) at e))
          ((refl, refl, refl, refl, stuck, inl stuck), h)
    | inr live ↦
        settle_ancestor_lem canonical expected db h (same_cursor_lem db.cursor expected same)
          (find (is_canonical canonical) (take reorg_window db.blocks)) refl (rw (same, live) at e)
  ]
]

-- From a valid store (blocks linked parent to child up to the cursor, distinct hashes, events and
-- coverage of stored blocks only), a reconciliation that succeeds leaves a valid store, and does what
-- its status says. `unchanged`: nothing is written, and the window has the hash of the cursor at its
-- height. `rolled_back`: the cursor and the blocks end at the highest stored block that is on the
-- window's chain, at least one block is removed and as many as are reported, and exactly the events
-- and the coverage of the blocks that remain are kept. `resync_needed`: the store waits for a resync,
-- its blocks, events, coverage and cursor untouched, and it waited before or none of its 64 highest
-- blocks is on the window's chain. `cursor_changed`: nothing is written, and the cursor is not the
-- expected one.
pub reconcile-IsSound :
    (expected : Cursor) (canonical : List Block) (db db' : Db) (r : Reconciliation)
    → IsValid db
    → reconcile expected canonical db ≡ ok (r, db')
    → Effect canonical expected db r.status r.removed_blocks db' × IsValid db'
unfolding reconcile
reconcile-IsSound expected canonical db db' r h e =
    let (a, e1) = fail_if->>-eq-ok _ invalid_canonical_window _ e in
    let (b, e2) =
      fail_if->>-eq-ok _ inconsistent_canonical_chain (reconcile_rows expected canonical db) e1 in
    reconcile_rows_lem expected canonical db h e2
