-- ===== src/Projections/Empty.antt =====
-- `atomicEmptyDeploymentBlocks` of packages/db/src/empty-materialization.ts: blocks without logs of a
-- deployment, in one transaction on the tables of Projections/Blocks. Their hashes are texts in lower
-- case.
pub mod Laws
mod Tests
use aqua_orbital.Prelude.{
  ℕ, ◌+◌, ◌-◌, ◌^◌, Bool, true, false, ◌&&◌, ◌||◌, not, List, [], ◌∷◌, ◌++◌, Option, none, some,
  ltb, leb, ◌==◌, any, all, map, length, get_elem?, includes, if◌then◌else◌, Result, ok, err, ◌>>=◌,
  ◌>>◌, fail_if,
}
use aqua_orbital.Chain.Table.{Block, Cursor, needs_resync, filter_by}
use aqua_orbital.Chain.Ingest.{touch_state}
use aqua_orbital.Projections.Blocks.{
  Scope, Store, Covered, LogRow, Notice, block_notice, identity_of, is_misplaced, keep_block,
  chain_after,
}

pub data Error : Type 0 where
  invalid_empty_range resync_required configuration_changed : Error
  reorg_requires_replay empty_range_has_events : Error

abbrev pub last_of : Block → List Block → Block
last_of b [] = b
last_of b (c ∷ cs) = last_of c cs

abbrev pub is_header : Block → Bool
is_header b = ltb b.number (2 ^ 256) && ltb b.hash (2 ^ 256) && ltb b.parent_hash (2 ^ 256)

abbrev pub follows : Block → Block → Bool
follows b c = (c.number == b.number + 1) && (c.parent_hash == b.hash)

-- The loop over the blocks after the first one.
unfoldable pub check_links : Block → List Block → Result Error (Unit {0})
check_links b [] = ok tt
check_links b (c ∷ cs) = do
  fail_if (not (is_header c)) invalid_empty_range
  fail_if (not (follows b c)) reorg_requires_replay
  check_links c cs

-- Whether a height is one of the range's.
abbrev pub in_range : Block → Block → ℕ → Bool
in_range first last h = leb first.number h && leb h last.number

-- `blocks[Number(height-first.number)]`
abbrev pub block_at : Block → List Block → ℕ → Option Block
block_at first rest h = get_elem? (first ∷ rest) (h - first.number)

abbrev pub has_hash : Option Block → ℕ → Bool
has_hash none hash = false
has_hash (some b) hash = b.hash == hash

-- Whether the cursors are those of the end of the range.
abbrev pub is_replay : Block → Option Cursor → Bool
is_replay last none = false
is_replay last (some c) = (c.height == last.number) && (c.hash == last.hash)

-- The test of the chain's cursor.
abbrev pub breaks_range : Block → List Block → Option Cursor → Option Cursor → Bool
breaks_range first rest none none = false
breaks_range first rest none (some cursor) = true
breaks_range first rest (some c) cursor =
    let last = last_of first rest in
    ltb c.height first.number
      && (not (c.height + 1 == first.number) || not (c.hash == first.parent_hash))
    || in_range first last c.height && not (has_hash (block_at first rest c.height) c.hash)

abbrev pub has_links : Option Block → Block → Bool
has_links none row = false
has_links (some b) row = (row.hash == b.hash) && (row.parent_hash == b.parent_hash)

-- The test of one row of indexed_blocks in the range or next to it.
abbrev pub is_broken_row : Block → List Block → Block → Bool
is_broken_row first rest row =
    let last = last_of first rest in
    if in_range first last row.number
    then not (has_links (block_at first rest row.number) row)
    else (row.number + 1 == first.number) && not (row.hash == first.parent_hash)
      || (row.number == last.number + 1) && not (row.parent_hash == last.hash)

-- Whether a log of the deployment's contracts stands in the range.
abbrev pub is_log_in : Scope → List ℕ → LogRow → Bool
is_log_in scope hashes l =
    includes l.block_hash hashes
    && includes l.emitter (scope.aqua ∷ scope.router ∷ scope.payments ∷ [])

abbrev pub rows_in : Block → Block → List Block → List Block
rows_in first last rows = filter_by (λ (r : Block). in_range first last r.number) rows

abbrev pub covered_in : Block → Block → List Covered → List Covered
covered_in first last rows = filter_by (λ (c : Covered). in_range first last c.height) rows

-- The tests of a range on the tables.
unfoldable pub check_range : Scope → Block → List Block → Store → Result Error (Unit {0})
check_range scope first rest s = do
  let last = last_of first rest
  fail_if (not (is_replay last s.cursor) && is_misplaced scope first s.cursor) reorg_requires_replay
  fail_if (breaks_range first rest s.chain s.cursor) reorg_requires_replay
  fail_if (any (is_broken_row first rest) s.blocks) reorg_requires_replay
  fail_if (any (is_log_in scope (map (λ (r : Block). r.hash) (rows_in first last s.blocks))) s.logs)
      empty_range_has_events

-- Whether a range that is there already is there in full.
abbrev pub is_incomplete : Block → List Block → Store → Bool
is_incomplete first rest s =
    let last = last_of first rest in
    let covered = covered_in first last s.coverage in
    not (length (rows_in first last s.blocks) == length (first ∷ rest))
    || not (length covered == length (first ∷ rest))
    || any (λ (c : Covered). not (has_hash (block_at first rest c.height) c.hash)) covered

abbrev pub is_some_covered : List Covered → Bool
is_some_covered [] = false
is_some_covered (c ∷ cs) = true

abbrev pub covered_row : Block → Covered
covered_row b = record { height = b.number; hash = b.hash }

-- INSERT INTO deployment_blocks, the newest row first.
abbrev pub cover : List Block → List Covered → List Covered
cover [] rows = rows
cover (b ∷ bs) rows = cover bs (covered_row b ∷ rows)

abbrev pub keep_blocks : List Block → List Block → List Block
keep_blocks [] rows = rows
keep_blocks (b ∷ bs) rows = keep_blocks bs (keep_block b rows)

abbrev pub range_notices : List Block → List Notice
range_notices bs = map (λ (b : Block). block_notice b.number b.hash) bs

-- The tables after a range.
abbrev pub with_range : Scope → Block → List Block → Store → Store
with_range scope first rest s =
    let last = last_of first rest in
    record s {
      state = touch_state s.state;
      deployment = some (identity_of scope s.deployment);
      cursor = some (record { height = last.number; hash = last.hash });
      chain = chain_after last s.chain;
      blocks = keep_blocks (first ∷ rest) s.blocks;
      coverage = cover (first ∷ rest) s.coverage;
      notices = s.notices ++ range_notices (first ∷ rest);
    }

-- What follows the tests: a range that is there, or the insertions.
unfoldable pub settle_range : Scope → Block → List Block → Store → Result Error Store
settle_range scope first rest s =
    if is_replay (last_of first rest) s.cursor
    then (fail_if (is_incomplete first rest s) reorg_requires_replay
        >> ok (record s { deployment = some (identity_of scope s.deployment) }))
    else (fail_if (is_some_covered (covered_in first (last_of first rest) s.coverage))
          reorg_requires_replay
        >> ok (with_range scope first rest s))

-- `atomicEmptyDeploymentBlocks`
unfoldable pub atomic_empty_blocks : Scope → List Block → Store → Result Error Store
atomic_empty_blocks scope [] s = err invalid_empty_range
atomic_empty_blocks scope (first ∷ rest) s = do
  fail_if (ltb 63 (length rest) || not (is_header first)) invalid_empty_range
  check_links first rest
  fail_if (needs_resync s.state) resync_required
  fail_if (not (identity_of scope s.deployment == scope.identity)) configuration_changed
  check_range scope first rest s
  settle_range scope first rest s
