-- ===== src/Chain/Reorg.antt =====
-- packages/db/src/reorg.ts: the indexer's snapshot, and the rollback to a canonical ancestor.
pub mod Laws
pub mod Outcomes
use aqua_orbital.Prelude.{
  ℕ, ◌+◌, Bool, true, false, ◌&&◌, ◌||◌, not, List, [], ◌∷◌, ◌++◌, Option, none, some, ltb, leb,
  ◌==◌, length, find, take, get_last?, if◌then◌else◌, Result, ok, err, ◌>>=◌, ◌>>◌, fail_if,
  or_fail,
}
use aqua_orbital.Chain.Table.{
  Block, Cursor, Event, Coverage, Status, indexing, resync_required, Notice, resync_notice,
  reorg_notice, Db, hashes, needs_resync, at_most, above, cascade_events, cascade_coverage,
  rollback_cursors,
}

pub data Error : Type 0 where
  invalid_canonical_window inconsistent_canonical_chain incomplete_canonical_window : Error

abbrev pub reorg_window : ℕ
reorg_window = 64

-- `IndexerSnapshot`, less the reason.
pub record Snapshot : Type 0 where
  pub cursor : Option Cursor
  pub status : Status
  pub blocks : List Block

abbrev pub status_or_indexing : Option (Status × Bool) → Status
status_or_indexing none = indexing
status_or_indexing (some (s, reason)) = s

-- `indexerSnapshot`
unfoldable pub indexer_snapshot : Db → Snapshot
indexer_snapshot db = record {
  cursor = db.cursor;
  status = status_or_indexing db.state;
  blocks = take reorg_window db.blocks;
}

pub data Outcome : Type 0 where
  unchanged rolled_back resync_needed cursor_changed : Outcome

pub record Reconciliation : Type 0 where
  pub status : Outcome
  pub cursor : Option Cursor
  pub removed_blocks : ℕ

-- The tests of the window before the transaction.
abbrev pub starts_at : ℕ → List Block → Bool
starts_at h [] = false
starts_at h (b ∷ bs) = b.number == h

-- The loop over the parent links.
abbrev pub is_linked : List Block → Bool
is_linked [] = true
is_linked (b ∷ []) = true
is_linked (child ∷ parent ∷ bs) =
    (child.number == parent.number + 1)
    && (child.parent_hash == parent.hash)
    && is_linked (parent ∷ bs)

-- `canonicalByHeight.get(height)`: the last entry of a key counts.
abbrev pub canonical_at : ℕ → List Block → Option ℕ
canonical_at h [] = none
canonical_at h (b ∷ bs) = elim (canonical_at h bs) [
  | some x ↦ some x
  | none ↦ if b.number == h then some b.hash else none
]

abbrev pub is_hash : Option ℕ → ℕ → Bool
is_hash none h = false
is_hash (some x) h = x == h

-- Whether a stored row is on the canonical chain.
abbrev pub is_canonical : List Block → Block → Bool
is_canonical canonical row = is_hash (canonical_at row.number canonical) row.hash

abbrev pub same_cursor : Option Cursor → Cursor → Bool
same_cursor none expected = false
same_cursor (some c) expected = (c.height == expected.height) && (c.hash == expected.hash)

-- `!oldest || canonical.at(-1)!.number > BigInt(oldest.height)`
abbrev pub is_incomplete : Option Block → Option Block → Bool
is_incomplete (some lowest) (some oldest) = ltb oldest.number lowest.number
is_incomplete _ _ = true

-- The rows after the rollback.
unfoldable pub rollback : Block → Cursor → Db → Db
unfolding rollback_cursors
rollback ancestor cursor db =
    let gone = hashes (above ancestor.number db.blocks) in
    let coverage = cascade_coverage gone db.coverage in
    record {
      blocks = at_most ancestor.number db.blocks;
      events = cascade_events gone db.events;
      cursor = some (record { height = ancestor.number; hash = ancestor.hash });
      state = some (indexing, false);
      coverage = coverage;
      deployment_cursors = rollback_cursors ancestor.number coverage db.deployment_cursors;
      notices =
          db.notices
          ++ reorg_notice ancestor.number ancestor.hash cursor.height cursor.hash
              (length (above ancestor.number db.blocks))
            ∷ [];
    }

abbrev pub require_resync : Cursor → Db → Db
require_resync cursor db = record db {
  state = some (resync_required, true);
  notices = db.notices ++ resync_notice cursor.height cursor.hash ∷ [];
}

abbrev pub answer : Outcome → Cursor → ℕ → Reconciliation
answer status cursor removed = record {
  status = status;
  cursor = some cursor;
  removed_blocks = removed;
}

-- What follows the search for an ancestor.
unfoldable pub settle_ancestor :
    List Block → Cursor → Db → Option Block → Result Error (Reconciliation × Db)
settle_ancestor canonical cursor db none = do
  fail_if (is_incomplete (get_last? canonical) (get_last? (take reorg_window db.blocks)))
      incomplete_canonical_window
  ok (answer resync_needed cursor 0, require_resync cursor db)
settle_ancestor canonical cursor db (some ancestor) =
    if ancestor.number == cursor.height
    then ok (answer unchanged cursor 0, db)
    else ok (
      answer rolled_back (record { height = ancestor.number; hash = ancestor.hash })
          (length (above ancestor.number db.blocks)),
      rollback ancestor cursor db,
    )

-- The transaction of `reconcileCanonicalChain`.
unfoldable pub reconcile_rows : Cursor → List Block → Db → Result Error (Reconciliation × Db)
reconcile_rows expected canonical db =
    if not (same_cursor db.cursor expected)
    then ok (record { status = cursor_changed; cursor = db.cursor; removed_blocks = 0 }, db)
    else (if needs_resync db.state
        then ok (answer resync_needed expected 0, db)
        else settle_ancestor canonical expected db
            (find (is_canonical canonical) (take reorg_window db.blocks)))

-- `reconcileCanonicalChain`
unfoldable pub reconcile : Cursor → List Block → Db → Result Error (Reconciliation × Db)
reconcile expected canonical db = do
  fail_if (ltb reorg_window (length canonical) || not (starts_at expected.height canonical))
      invalid_canonical_window
  fail_if (not (is_linked canonical)) inconsistent_canonical_chain
  reconcile_rows expected canonical db
