-- ===== src/Projections/Empty/Laws.antt =====
-- What `atomicEmptyDeploymentBlocks` (packages/db/src/empty-materialization.ts) keeps and reaches.
use mathlib.Core.Path.{subst}
use aqua_orbital.Prelude.{
  ℕ, ◌+◌, ◌≡◌, refl, sym, true, ◌&&◌, ◌||◌, not, List, [], ◌∷◌, Option, none, some, ltb, ◌==◌,
  ==_iff, length, Bool-cases, inl, inr, &&-eq-true, ok, >>=-elim, ok-injective, fail_if->>-eq-ok,
}
use aqua_orbital.Chain.Table.{Block, Cursor, needs_resync}
use aqua_orbital.Projections.Strategies.Lives.{not-eq-false}
use aqua_orbital.Projections.Blocks.{Scope, Store, Covered, identity_of, is_misplaced}
use aqua_orbital.Projections.Blocks.Laws.{
  cursor_at, IsCount, tip_of, IsIndexed, already_at-cursor_at, is_misplaced-IsCount,
}
use aqua_orbital.Projections.Empty.{
  invalid_empty_range, resync_required, configuration_changed, reorg_requires_replay, last_of,
  is_header, follows, check_links, is_replay, check_range, is_incomplete, is_some_covered,
  covered_in, covered_row, cover, settle_range, atomic_empty_blocks,
}

-- The rows of linked blocks count on from the one before.
check_links-IsCount :
    (start : ℕ) (b : Block) (bs : List Block) (rows : List Covered) {u : Unit {0}}
    → check_links b bs ≡ ok u
    → IsCount start (covered_row b ∷ rows)
    → IsCount start (cover bs (covered_row b ∷ rows))
unfolding check_links
check_links-IsCount start b [] rows e h = h
check_links-IsCount start b (c ∷ cs) rows e h =
    let (good, e1) = fail_if->>-eq-ok (not (is_header c)) invalid_empty_range _ e in
    let (linked, e2) = fail_if->>-eq-ok (not (follows b c)) reorg_requires_replay _ e1 in
    let (number, parent) =
      &&-eq-true (c.number == b.number + 1) (c.parent_hash == b.hash) (not-eq-false _ linked) in
    check_links-IsCount start c cs (covered_row b ∷ rows) e2
      ((==_iff c.number (b.number + 1)).0 number, h)

tip_of-cover :
    (b : Block) (bs : List Block) (rows : List Covered)
    → tip_of (cover bs (covered_row b ∷ rows)) ≡ some (cursor_at (last_of b bs))
tip_of-cover b [] rows = refl
tip_of-cover b (c ∷ cs) rows = tip_of-cover c cs (covered_row b ∷ rows)

is_replay-cursor_at :
    (last : Block) (c : Option Cursor) → is_replay last c ≡ true → c ≡ some (cursor_at last)
is_replay-cursor_at last none h = cc
is_replay-cursor_at last (some c) h = already_at-cursor_at last (some c) h

abbrev pub IsAdvanced : Scope → Block → List Block → Store → Type 0
IsAdvanced scope first rest t =
    IsIndexed scope t × (t.cursor ≡ some (cursor_at (last_of first rest)))

settle_range-IsAdvanced :
    (scope : Scope) (first : Block) (rest : List Block) (s t : Store) {u v : Unit {0}}
    → check_links first rest ≡ ok u
    → check_range scope first rest s ≡ ok v
    → settle_range scope first rest s ≡ ok t
    → IsIndexed scope s
    → IsAdvanced scope first rest t
unfolding settle_range check_range
settle_range-IsAdvanced scope first rest s t linked ranged e h =
    elim (Bool-cases (is_replay (last_of first rest) s.cursor)) [
      | inl there ↦
          let (full, done) =
            fail_if->>-eq-ok (is_incomplete first rest s) reorg_requires_replay _ (rw there at e) in
          subst (IsAdvanced scope first rest) (ok-injective done) (
            record { tip = h.tip; counted = h.counted },
            is_replay-cursor_at (last_of first rest) s.cursor there,
          )
      | inr new ↦
          let (fresh, done) =
            fail_if->>-eq-ok (is_some_covered (covered_in first (last_of first rest) s.coverage))
              reorg_requires_replay _ (rw new at e) in
          let (placed, others) =
            fail_if->>-eq-ok
              (not (is_replay (last_of first rest) s.cursor) && is_misplaced scope first s.cursor)
              reorg_requires_replay _ ranged in
          subst (IsAdvanced scope first rest) (ok-injective done) (
            record {
              tip = sym (tip_of-cover first rest s.coverage);
              counted = check_links-IsCount scope.start_block first rest s.coverage linked (
                  is_misplaced-IsCount scope first s.cursor s.coverage (rw new at placed) h.tip
                    h.counted);
            },
            refl,
          )
    ]

-- If `atomicEmptyDeploymentBlocks` does not throw on tables whose coverage has no gap from the
-- deployment's first block to its cursor, then the coverage has none after it, and the cursor is at the
-- last block of the range.
pub atomic_empty_blocks-IsIndexed :
    (scope : Scope) (first : Block) (rest : List Block) (s t : Store)
    → atomic_empty_blocks scope (first ∷ rest) s ≡ ok t
    → IsIndexed scope s
    → IsIndexed scope t × (t.cursor ≡ some (cursor_at (last_of first rest)))
unfolding atomic_empty_blocks
atomic_empty_blocks-IsIndexed scope first rest s t e h =
    let (good, e1) =
      fail_if->>-eq-ok (ltb 63 (length rest) || not (is_header first)) invalid_empty_range _ e in
    >>=-elim (check_links first rest) _ e1 (λ u linked e2.
      let (synced, e3) = fail_if->>-eq-ok (needs_resync s.state) resync_required _ e2 in
      let (known, e4) =
        fail_if->>-eq-ok (not (identity_of scope s.deployment == scope.identity))
          configuration_changed _ e3 in
      >>=-elim (check_range scope first rest s) _ e4
        (λ v ranged e5. settle_range-IsAdvanced scope first rest s t linked ranged e5 h))
