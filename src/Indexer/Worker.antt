-- ===== src/Indexer/Worker.antt =====
-- `syncOnce` of apps/indexer/src/worker.ts, one round of the indexer. Addresses are compared in lower
-- case, so they are numbers; `none` stands for an empty hash.
pub mod Progress
mod Tests
use aqua_orbital.Prelude.{
  ℕ, zero, suc, ◌+◌, Bool, true, false, ◌&&◌, ◌||◌, not, List, [], ◌∷◌, map, Option, none, some,
  ltb, ◌==◌, length, any, includes, if◌then◌else◌, Result, ok, err, ◌>>=◌, ◌>>◌, fail_if, or_fail,
}
use aqua_orbital.Chain.Table.{Block, Cursor, Db, Status, indexing, resync_required}
use aqua_orbital.Chain.Ingest.{Error as IngestError, reorg_requires_replay, Log, atomic_block}
use aqua_orbital.Chain.Reorg.{
  Error as ReorgError, Snapshot, indexer_snapshot, Reconciliation, Outcome, unchanged, rolled_back,
  resync_needed, cursor_changed, reconcile,
}

pub data Error : Type 0 where
  invalid_block_header cursor_without_blocks invalid_block_log rpc_failed : Error
  reorg_error : ReorgError → Error
  ingest_error : IngestError → Error

-- A header as the provider gives it.
pub record Header : Type 0 where
  pub number : ℕ
  pub hash : Option ℕ
  pub parent_hash : Option ℕ

-- `RawLog`. The index is `none` if it is no safe natural number; the payload stands for the topics and
-- the data together.
pub record RawLog : Type 0 where
  pub block_number : ℕ
  pub block_hash : ℕ
  pub transaction_hash : Option ℕ
  pub log_index : Option ℕ
  pub address : ℕ
  pub topics : List ℕ
  pub payload : ℕ
  pub removed : Bool

-- `ReadRpc`. Each function is asked by the number of calls made before, and answers `none` where it
-- rejects.
pub record ReadRpc : Type 0 where
  pub get_block_number : ℕ → Option ℕ
  pub get_block : ℕ → ℕ → Option Header
  pub get_logs : ℕ → ℕ → Option (List RawLog)

pub record IndexerConfig : Type 0 where
  pub start_block : ℕ
  pub emitters : List ℕ

-- A `SyncResult` of a round that ingests nothing.
pub data Early : Type 0 where
  idle resync retry : Early
  rewound : (cursor : Option Cursor) (removed_blocks : ℕ) → Early

-- How a round ends before it ingests.
pub data Stop : Type 0 where
  returned : Early → Stop
  thrown : Error → Stop

-- How a round ends.
pub data Round : Type 0 where
  stopped : Stop → Round
  indexed : (block hash logs : ℕ) → Round

abbrev pub header_block : Header → Option Block
header_block h = elim h.hash [
  | none ↦ none
  | some x ↦ elim h.parent_hash [
    | none ↦ none
    | some p ↦ some (record { number = h.number; hash = x; parent_hash = p })
  ]
]

abbrev pub is_stuck : Status → Bool
is_stuck indexing = false
is_stuck resync_required = true

-- What the loop over the logs tests, and what is stored of a log.
abbrev pub accept_log : IndexerConfig → Block → RawLog → Option Log
accept_log config b l =
    if (l.block_number == b.number)
      && (l.block_hash == b.hash)
      && not l.removed
      && includes l.address config.emitters
    then elim l.log_index [
      | none ↦ none
      | some i ↦ elim l.transaction_hash [ none ↦ none | some t ↦ some (log_of i t l) ]
    ]
    else none
  where
    first_topic : List ℕ → Option ℕ
    first_topic [] = none
    first_topic (t ∷ ts) = some t

    log_of : ℕ → ℕ → RawLog → Log
    log_of i t l = record {
      tx_hash = t;
      log_index = i;
      emitter = l.address;
      topic = first_topic l.topics;
      payload = l.payload;
    }

abbrev pub accept_logs : IndexerConfig → Block → List RawLog → Option (List Log)
accept_logs config b [] = some []
accept_logs config b (l ∷ ls) = elim (accept_log config b l) [
  | none ↦ none
  | some x ↦ elim (accept_logs config b ls) [ none ↦ none | some xs ↦ some (x ∷ xs) ]
]

-- What a reconciliation means for the round.
abbrev pub after_reconcile : Reconciliation → Result Stop (Unit {0})
after_reconcile r = go r.status
  where
    go : Outcome → Result Stop (Unit {0})
    go unchanged = ok tt
    go rolled_back = err (returned (rewound r.cursor r.removed_blocks))
    go resync_needed = err (returned resync)
    go cursor_changed = err (returned retry)

-- `catch (error)` around the ingestion.
abbrev pub ingest_failure : IngestError → Stop
ingest_failure reorg_requires_replay = returned retry
ingest_failure e = thrown (ingest_error e)

-- The end of each transaction. One that throws leaves the tables.
abbrev pub after_transaction : ℕ → Db → Result ReorgError (Reconciliation × Db) → Result Stop ℕ × Db
after_transaction clock db (err e) = (err (thrown (reorg_error e)), db)
after_transaction clock db (ok (r, db')) = (after_reconcile r >> ok clock, db')

abbrev pub finish_ingest : Block → ℕ → Db → Result IngestError Db → Round × Db
finish_ingest block logs db (err e) = (stopped (ingest_failure e), db)
finish_ingest block logs db (ok db') = (indexed block.number block.hash logs, db')

-- The height to ingest.
abbrev pub next_height : IndexerConfig → Option Cursor → ℕ
next_height config none = config.start_block
next_height config (some c) = c.height + 1

-- `snapshot.cursor && block.parentHash !== snapshot.cursor.hash`
abbrev pub breaks_link : Block → Option Cursor → Bool
breaks_link b none = false
breaks_link b (some c) = not (b.parent_hash == c.hash)

-- `meanwhile` is what other workers commit before each of the two transactions of the round.
module _ (config : IndexerConfig) (rpc : ReadRpc) (meanwhile : ℕ → Db → Db) where
  -- `checkedBlock`
  abbrev pub checked_block : ℕ → ℕ → Result Stop Block
  checked_block clock number = do
    h ← or_fail (rpc.get_block clock number) (thrown rpc_failed)
    fail_if (not (h.number == number)) (thrown invalid_block_header)
    or_fail (header_block h) (thrown invalid_block_header)

  -- The loop over the stored blocks: the canonical ones down to the first that agrees.
  unfoldable pub observe : ℕ → List Block → Result Stop (ℕ × List Block)
  observe clock [] = ok (clock, [])
  observe clock (stored ∷ rest) = do
    observed ← checked_block clock stored.number
    if observed.hash == stored.hash
        then ok (clock + 1, observed ∷ [])
        else (do (clock', below) ← observe (clock + 1) rest; ok (clock', observed ∷ below))

  -- The top is asked for again.
  unfoldable pub recheck : ℕ → List Block → Result Stop (ℕ × List Block)
  recheck clock [] = err (thrown cursor_without_blocks)
  recheck clock (top ∷ below) = do
    again ← checked_block clock top.number
    fail_if (not (again.hash == top.hash)) (returned retry)
    ok (clock + 1, top ∷ below)

  -- The canonical window under a cursor.
  unfoldable pub window : ℕ → Cursor → List Block → Result Stop (ℕ × List Block)
  window head cursor stored = do
    fail_if (ltb head cursor.height) (returned retry)
    (clock, canonical) ← observe 1 stored
    recheck clock canonical

  -- The part of the round for a store that has a cursor: the clock after it.
  abbrev pub follow_window : Cursor → Result Stop (ℕ × List Block) → Db → Result Stop ℕ × Db
  follow_window c (err stop) db = (err stop, db)
  follow_window c (ok (clock, canonical)) db =
      let before = meanwhile clock db in
      after_transaction clock before (reconcile c canonical before)

  abbrev pub follow : ℕ → Option Cursor → List Block → Db → Result Stop ℕ × Db
  follow head none stored db = (ok 1, db)
  follow head (some c) stored db = follow_window c (window head c stored) db

  -- The block to ingest and its logs, read and checked.
  unfoldable pub next_block : ℕ → Option Cursor → ℕ → Result Stop (ℕ × Block × List Log)
  next_block head cursor clock = do
    let next = next_height config cursor
    fail_if (ltb head (next + 2)) (returned idle)
    block ← checked_block clock next
    fail_if (breaks_link block cursor) (returned retry)
    logs ← or_fail (rpc.get_logs (clock + 1) next) (thrown rpc_failed)
    stored ← or_fail (accept_logs config block logs) (thrown invalid_block_log)
    again ← checked_block (clock + 2) next
    fail_if (not (again.hash == block.hash)) (returned retry)
    ok (clock + 3, block, stored)

  abbrev pub append : Result Stop (ℕ × Block × List Log) → Db → Round × Db
  append (err stop) db = (stopped stop, db)
  append (ok (clock, block, logs)) db =
      let before = meanwhile clock db in
      finish_ingest block (length logs) before (atomic_block block logs before)

  -- The round, after its first part.
  abbrev pub sync_after : ℕ → Option Cursor → Result Stop ℕ × Db → Round × Db
  sync_after head cursor (err stop, db) = (stopped stop, db)
  sync_after head cursor (ok clock, db) = append (next_block head cursor clock) db

  abbrev pub sync_from : Option ℕ → Snapshot → Db → Round × Db
  sync_from none snapshot db = (stopped (thrown rpc_failed), db)
  sync_from (some head) snapshot db =
      sync_after head snapshot.cursor (follow head snapshot.cursor snapshot.blocks db)

  -- `syncOnce`
  unfoldable pub sync_once : Db → Round × Db
  sync_once db =
      let snapshot = indexer_snapshot db in
      if is_stuck snapshot.status
      then (stopped (returned resync), db)
      else sync_from (rpc.get_block_number 0) snapshot db
