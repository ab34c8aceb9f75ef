-- ===== src/Indexer/Round.antt =====
-- `syncDeploymentOnce` of apps/indexer/src/materializer.ts, one round of a deployment's index, on the
-- tables of Projections/Blocks. The swaps of a block that was indexed without them are backfilled first.

pub mod Prefix
pub mod Committed
pub mod Laws
mod Tests
use aqua_orbital.Prelude.{
  ℕ, zero, suc, ◌+◌, ◌-◌, ◌*◌, ◌^◌, min, Bool, true, false, ◌&&◌, ◌||◌, not, List, [], ◌∷◌, ◌++◌,
  Option, none, some, ltb, leb, ◌==◌, any, map, length, if◌then◌else◌, Result, ok, err, ◌>>=◌, ◌>>◌,
  fail_if, or_fail,
}
use aqua_orbital.Shared.{Manifest}
use aqua_orbital.Chain.Table.{Block, Cursor, Status, indexing, resync_required, filter_by}
use aqua_orbital.Chain.Reorg as Reorg
use aqua_orbital.Chain.Reorg.{
  Reconciliation, Outcome, unchanged, rolled_back, resync_needed, cursor_changed,
  status_or_indexing, reorg_window,
}
use aqua_orbital.Prelude.{take}
use aqua_orbital.Indexer.Canonical as Canonical
use aqua_orbital.Indexer.Canonical.{
  Header, RawLog, same_option, canonical_logs, max_block_logs, checked_block,
}
use aqua_orbital.Indexer.Events as Events
use aqua_orbital.Indexer.Events.{
  Library, Decoded, activated, decode, config_at, authenticate_config, projection,
  prepare_projections, hash_or_zero, first_topic,
}
use aqua_orbital.Indexer.Deployment as Deployment
use aqua_orbital.Indexer.Deployment.{Identity, deployment_scope, deployment_cursor, reconcile_store}
use aqua_orbital.Sdk.Codec.{Config}
use aqua_orbital.Sdk.Codec.Orders.{validate_config}
use aqua_orbital.Indexer.Backfill as Backfill
use aqua_orbital.Indexer.Backfill.{Backfill, pending_swap_backfill, atomic_swap_backfill}
use aqua_orbital.Projections.Blocks as Blocks
use aqua_orbital.Projections.Blocks.{Scope, RawEvent, Projection, Store, atomic_deployment_block}
use aqua_orbital.Projections.Empty as Empty
use aqua_orbital.Projections.Empty.{atomic_empty_blocks, last_of}

pub data Error : Type 0 where
  invalid_block_batch rpc_failed rpc_chain_mismatch cursor_without_blocks invalid_stored_config :
      Error
  block_log_limit invalid_block_log no_blocks : Error
  scope_error : Deployment.Error → Error
  block_error : Canonical.Error → Error
  event_error : Events.Error → Error
  reorg_error : Reorg.Error → Error
  commit_error : Blocks.Error → Error
  empty_error : Empty.Error → Error
  backfill_error : Backfill.Error → Error

-- `MaterializationRpc`. Each function is asked by the number of calls made before, and answers `none`
-- where it rejects; `get_logs_range` is `none` where the provider has no such function.
pub record MaterializationRpc : Type 0 where
  pub get_chain_id : ℕ → Option ℕ
  pub get_block_number : ℕ → Option ℕ
  pub get_block : (clock number : ℕ) → Option Header
  pub get_logs : (clock number hash : ℕ) → Option (List RawLog)
  pub get_logs_range : Option ((clock from to : ℕ) → Option (List RawLog))
  pub call : (clock order_hash block_hash : ℕ) → Option ℕ

-- A `SyncResult` of a round that commits no block.
pub data Early : Type 0 where
  idle resync retry : Early
  rewound : (cursor : Option Cursor) (removed_blocks : ℕ) → Early

-- How a round ends before it commits.
pub data Stop : Type 0 where
  returned : Early → Stop
  thrown : Error → Stop

pub data Round : Type 0 where
  stopped : Stop → Round
  indexed : (block hash logs : ℕ) → Round
  backfilled : (block hash logs : ℕ) → Round

-- A block with its header, and with what is made of its logs.
pub record Fetched : Type 0 where
  pub header : Header
  pub block : Block

pub record Prepared : Type 0 where
  pub block : Block
  pub events : List RawEvent
  pub projections : List Projection

-- `MAX_SYNC_BLOCKS`
abbrev pub max_sync_blocks : ℕ
max_sync_blocks = 64

abbrev pub is_stuck : Status → Bool
is_stuck indexing = false
is_stuck resync_required = true

-- The values of a tested header.
abbrev pub fetched_of : Header → Fetched
fetched_of h = record {
  header = h;
  block = record {
    number = h.number;
    hash = hash_or_zero h.hash;
    parent_hash = hash_or_zero h.parent_hash;
  };
}

-- Errors of the parts, as the round's.
abbrev pub as_stop {ℓ κ} : {E : Type ℓ} {A : Type κ} → (E → Error) → Result E A → Result Stop A
as_stop f (err e) = err (thrown (f e))
as_stop f (ok a) = ok a

-- What a reconciliation means for the round.
abbrev pub after_outcome : Reconciliation → Outcome → Result Stop (Unit {0})
after_outcome r unchanged = ok tt
after_outcome r rolled_back = err (returned (rewound r.cursor r.removed_blocks))
after_outcome r resync_needed = err (returned resync)
after_outcome r cursor_changed = err (returned retry)

abbrev pub reconciled :
    ℕ → Store → Result Reorg.Error (Reconciliation × Store) → Result Stop ℕ × Store
reconciled clock s (err e) = (err (thrown (reorg_error e)), s)
reconciled clock s (ok (r, t)) = (after_outcome r r.status >> ok clock, t)

-- The height of the first block of the round, and the number of its blocks.
abbrev pub next_height : Scope → Option Cursor → ℕ
next_height scope none = scope.start_block
next_height scope (some c) = c.height + 1

abbrev pub block_count : (max_blocks head next : ℕ) → ℕ
block_count max_blocks head next =
    if ltb (head - next - 1) max_blocks then head - next - 1 else max_blocks

-- The loop over the parent hashes, from the hash before.
abbrev pub is_linked : Option ℕ → List Fetched → Bool
is_linked prior [] = true
is_linked none (b ∷ bs) = is_linked (some b.block.hash) bs
is_linked (some hash) (b ∷ bs) = (b.block.parent_hash == hash) && is_linked (some b.block.hash) bs

abbrev pub hash_of : Option Cursor → Option ℕ
hash_of none = none
hash_of (some c) = some c.hash

abbrev pub last_block : Fetched → List Fetched → Block
last_block b [] = b.block
last_block b (c ∷ cs) = last_block c cs

-- `scope.aqua`, `scope.router` and `scope.payments`
abbrev pub emitters : Scope → List ℕ
emitters scope = scope.aqua ∷ scope.router ∷ scope.payments ∷ []

-- The value of `log.topics[0]??'0x'`, which is no hash if there is none.
abbrev pub topic_of : Option ℕ → ℕ
topic_of none = 2 ^ 256
topic_of (some t) = t

abbrev pub raw_event : Library → RawLog → RawEvent
raw_event lib l = record {
  tx_hash = hash_or_zero l.transaction_hash;
  log_index = l.log_index;
  emitter = l.address;
  topic = topic_of (first_topic l.topics);
  payload = lib.payload_text l;
}

-- The logs of a range, by block.
abbrev pub is_outside : (from to : ℕ) → RawLog → Bool
is_outside from to l = ltb l.block_number from || ltb to l.block_number

unfoldable pub bucket :
    Scope → List RawLog → List Fetched → Result Stop (List (Fetched × List RawLog))
bucket scope range [] = ok []
bucket scope range (b ∷ bs) = do
  logs ← as_stop block_error (
      canonical_logs (emitters scope) b.header
        (filter_by (λ (l : RawLog). l.block_number == b.block.number) range))
  rest ← bucket scope range bs
  ok ((b, logs) ∷ rest)

-- `block.transactions.indexOf(hash)`, where -1 is `none`.
abbrev pub position : ℕ → List (Option ℕ) → Option ℕ
position hash [] = none
position hash (t ∷ ts) =
    if same_option t (some hash)
    then some 0
    else (elim (position hash ts) [ none ↦ none | some i ↦ some (suc i) ])

-- The errors of a commit: REORG_REQUIRES_REPLAY is a retry.
abbrev pub commit_stop : Blocks.Error → Stop
commit_stop Blocks.reorg_requires_replay = returned retry
commit_stop e = thrown (commit_error e)

abbrev pub empty_stop : Empty.Error → Stop
empty_stop Empty.reorg_requires_replay = returned retry
empty_stop e = thrown (empty_error e)

abbrev pub backfill_stop : Backfill.Error → Stop
backfill_stop Backfill.reorg_requires_replay = returned retry
backfill_stop Backfill.source_changed = returned retry
backfill_stop e = thrown (backfill_error e)

-- The end of a transaction. One that throws leaves the tables.
abbrev pub committed {ℓ} :
    {E : Type ℓ} → (E → Stop) → Store → Result E Store → Result Stop (Unit {0}) × Store
committed f s (err e) = (err (f e), s)
committed f s (ok t) = (ok tt, t)

-- What follows a transaction that has not stopped the round.
abbrev pub then_commit :
    Result Stop (Unit {0}) × Store
    → (Store → Result Stop (Unit {0}) × Store)
    → Result Stop (Unit {0}) × Store
then_commit (err e, s) next = (err e, s)
then_commit (ok u, s) next = next s

abbrev pub finish : Block → ℕ → Result Stop (Unit {0}) × Store → Round × Store
finish tip logs (err e, s) = (stopped e, s)
finish tip logs (ok u, s) = (indexed tip.number tip.hash logs, s)

abbrev pub count_logs : List Prepared → ℕ
count_logs [] = 0
count_logs (p ∷ ps) = length p.events + count_logs ps

-- `meanwhile` is what others commit before each transaction of the round, by its number of calls.
module _ (lib : Library) (text : Identity → ℕ) (manifest : Manifest) (rpc : MaterializationRpc)
    (meanwhile : ℕ → Store → Store) where
  -- `checkedBlock`
  abbrev pub fetch : ℕ → ℕ → Result Stop Fetched
  fetch clock number = do
    h ← or_fail (rpc.get_block clock number) (thrown rpc_failed)
    checked ← as_stop block_error (checked_block number h)
    ok (fetched_of checked)

  -- The loop over the stored blocks.
  unfoldable pub observe : ℕ → List Block → Result Stop (ℕ × List Block)
  observe clock [] = ok (clock, [])
  observe clock (stored ∷ rest) = do
    observed ← fetch clock stored.number
    if observed.block.hash == stored.hash
        then ok (clock + 1, observed.block ∷ [])
        else (do (after, below) ← observe (clock + 1) rest; ok (after, observed.block ∷ below))

  unfoldable pub recheck : ℕ → List Block → Result Stop (ℕ × List Block)
  recheck clock [] = err (thrown cursor_without_blocks)
  recheck clock (top ∷ below) = do
    again ← fetch clock top.number
    fail_if (not (again.block.hash == top.hash)) (returned retry)
    ok (clock + 1, top ∷ below)

  unfoldable pub window : ℕ → Cursor → List Block → Result Stop (ℕ × List Block)
  window head cursor stored = do
    fail_if (ltb head cursor.height) (returned retry)
    (clock, canonical) ← observe 2 stored
    recheck clock canonical

  abbrev pub follow_window : Cursor → Result Stop (ℕ × List Block) → Store → Result Stop ℕ × Store
  follow_window c (err stop) s = (err stop, s)
  follow_window c (ok (clock, canonical)) s =
      let before = meanwhile clock s in reconciled clock before (reconcile_store c canonical before)

  -- The part of the round for a chain that has a cursor.
  abbrev pub follow : ℕ → Option Cursor → List Block → Store → Result Stop ℕ × Store
  follow head none stored s = (ok 2, s)
  follow head (some c) stored s = follow_window c (window head c stored) s

  -- The blocks from a height on. Those of one group are read together, and the first error counts.
  unfoldable pub read_blocks : ℕ → ℕ → ℕ → Result Stop (ℕ × List Fetched)
  read_blocks clock number zero = ok (clock, [])
  read_blocks clock number (suc n) = do
    b ← fetch clock number
    (after, rest) ← read_blocks (clock + 1) (number + 1) n
    ok (after, b ∷ rest)

  -- The logs by block, from one answer or from one for each block.
  unfoldable pub read_each :
      Scope → ℕ → List Fetched → Result Stop (ℕ × List (Fetched × List RawLog))
  read_each scope clock [] = ok (clock, [])
  read_each scope clock (b ∷ bs) = do
    raw ← or_fail (rpc.get_logs clock b.block.number b.block.hash) (thrown rpc_failed)
    logs ← as_stop block_error (canonical_logs (emitters scope) b.header raw)
    (after, rest) ← read_each scope (clock + 1) bs
    ok (after, (b, logs) ∷ rest)

  abbrev pub read_range :
      Scope
      → ℕ
      → ((clock from to : ℕ) → Option (List RawLog))
      → (from to : ℕ) → List Fetched
      → Result Stop (ℕ × List (Fetched × List RawLog))
  read_range scope clock ask from to bs = do
    range ← or_fail (ask clock from to) (thrown rpc_failed)
    fail_if (ltb (length bs * max_block_logs) (length range)) (thrown block_log_limit)
    fail_if (any (is_outside from to) range) (thrown invalid_block_log)
    logs ← bucket scope range bs
    ok (clock + 1, logs)

  unfoldable pub read_logs :
      Scope → ℕ → (from to : ℕ) → List Fetched → Result Stop (ℕ × List (Fetched × List RawLog))
  read_logs scope clock from to bs = elim rpc.get_logs_range [
    | none ↦ read_each scope clock bs
    | some ask ↦ read_range scope clock ask from to bs
  ]

  -- The loop that prepares the blocks.
  unfoldable pub prepare :
      Scope → ℕ → List (Fetched × List RawLog) → Result Stop (ℕ × List Prepared)
  prepare scope clock [] = ok (clock, [])
  prepare scope clock ((b, logs) ∷ rest) = do
    (after, ps) ← as_stop event_error (
        prepare_projections lib scope manifest (λ n order. rpc.call n order b.block.hash) clock
          logs)
    (last, prepared) ← prepare scope after rest
    ok (
      last,
      record { block = b.block; events = map (raw_event lib) logs; projections = ps } ∷ prepared,
    )

  -- What is read before the first commit: the blocks, linked to the cursor and to the tip, which is read
  -- again at the end.
  unfoldable pub gather :
      Scope → Option Cursor → ℕ → ℕ → List Fetched → Result Stop (ℕ × Block × List Prepared)
  gather scope cursor next clock [] = err (thrown no_blocks)
  gather scope cursor next clock (b ∷ bs) = do
    fail_if (not (is_linked (hash_of cursor) (b ∷ bs))) (returned retry)
    (clock1, logs) ← read_logs scope clock next (last_block b bs).number (b ∷ bs)
    (clock2, prepared) ← prepare scope clock1 logs
    again ← fetch clock2 (last_block b bs).number
    fail_if (not (again.block.hash == (last_block b bs).hash)) (returned retry)
    ok (clock2 + 1, last_block b bs, prepared)

  unfoldable pub next_blocks :
      Scope → ℕ → ℕ → Option Cursor → ℕ → Result Stop (ℕ × Block × List Prepared)
  next_blocks scope max_blocks head cursor clock = do
    let next = next_height scope cursor
    fail_if (ltb head (next + 2)) (returned idle)
    (after, blocks) ← read_blocks clock next (block_count max_blocks head next)
    gather scope cursor next after blocks

  -- The transaction of the blocks without logs that stand in a row, if there are any.
  abbrev pub flush : Scope → ℕ → List Block → Store → Result Stop (Unit {0}) × Store
  flush scope clock [] s = (ok tt, s)
  flush scope clock (b ∷ bs) s =
      let before = meanwhile clock s in
      committed empty_stop before (atomic_empty_blocks scope (b ∷ bs) before)

  abbrev pub commit_block : Scope → ℕ → Prepared → Store → Result Stop (Unit {0}) × Store
  commit_block scope clock p s =
      let before = meanwhile clock s in
      committed commit_stop before
        (atomic_deployment_block scope p.block p.events p.projections before)

  -- The loop over what is prepared, with the blocks without logs that come before.
  unfoldable pub commit_all :
      Scope → ℕ → List Block → List Prepared → Store → Result Stop (Unit {0}) × Store
  commit_all scope clock waiting [] s = flush scope clock waiting s
  commit_all scope clock waiting (p ∷ ps) s =
      let later = commit_all scope clock (waiting ++ p.block ∷ []) ps s in
      if length p.events == 0
      then later
      else then_commit (flush scope clock waiting s)
          (λ t. then_commit (commit_block scope clock p t) (λ u. commit_all scope clock [] ps u))

  abbrev pub commit_round : Scope → Result Stop (ℕ × Block × List Prepared) → Store → Round × Store
  commit_round scope (err stop) s = (stopped stop, s)
  commit_round scope (ok (clock, tip, prepared)) s =
      finish tip (count_logs prepared) (commit_all scope clock [] prepared s)

  -- A retained log as the provider's, with the index of its transaction.
  abbrev pub retained_log : Header → RawEvent → Result Stop RawLog
  retained_log b e = do
    (topics, count, bytes) ←
        or_fail (lib.payload_log e.payload) (thrown (event_error Events.invalid_event_abi))
    ok (record {
      block_number = b.number;
      block_hash = b.hash;
      transaction_hash = some e.tx_hash;
      transaction_index = position e.tx_hash b.transactions;
      log_index = e.log_index;
      address = e.emitter;
      topics = topics;
      byte_count = count;
      bytes = bytes;
      removed = false;
    })

  unfoldable pub retained_logs : Header → List RawEvent → Result Stop (List RawLog)
  retained_logs b [] = ok []
  retained_logs b (e ∷ es) = do l ← retained_log b e; rest ← retained_logs b es; ok (l ∷ rest)

  -- `configFromDTO`, for each stored configuration.
  unfoldable pub configs_of : List (ℕ × ℕ) → Result Stop (List (ℕ × Config))
  configs_of [] = ok []
  configs_of ((order, stored) ∷ rest) = do
    c ← or_fail (lib.config_of stored) (thrown invalid_stored_config)
    as_stop (λ e. invalid_stored_config) (validate_config c)
    cs ← configs_of rest
    ok ((order, c) ∷ cs)

  -- The test of an activation in the loop.
  abbrev pub check_activation : Scope → List (ℕ × Config) → Decoded → Result Events.Error (Unit {0})
  check_activation scope configs (activated order_hash maker config_hash) = do
    c ← or_fail (config_at order_hash configs) Events.activation_config_mismatch
    authenticate_config lib scope manifest c order_hash maker config_hash
  check_activation scope configs d = ok tt

  abbrev pub project_decoded :
      Scope → List (ℕ × Config) → RawLog → Option Decoded → Result Events.Error (List Projection)
  project_decoded scope configs l none = ok []
  project_decoded scope configs l (some d) = do
    check_activation scope configs d
    p ← projection lib scope manifest configs l d
    ok (p ∷ [])

  -- The loop over the logs.
  unfoldable pub project_logs :
      Scope → List (ℕ × Config) → List RawLog → Result Events.Error (List Projection)
  project_logs scope configs [] = ok []
  project_logs scope configs (l ∷ ls) = do
    d ← decode lib scope l
    first ← project_decoded scope configs l d
    rest ← project_logs scope configs ls
    ok (first ++ rest)

  -- What is read before the transaction of a backfill, and the number of its logs.
  unfoldable pub prepare_backfill :
      Scope → ℕ → Backfill → Result Stop (ℕ × Block × List Projection × ℕ)
  prepare_backfill scope clock b = do
    block ← fetch clock b.block.number
    fail_if (not (block.block.hash == b.block.hash)) (returned retry)
    raw ← retained_logs block.header b.events
    logs ← as_stop block_error (canonical_logs (emitters scope) block.header raw)
    configs ← configs_of b.configs
    ps ← as_stop event_error (project_logs scope configs logs)
    again ← fetch (clock + 1) block.block.number
    fail_if (not (again.block.hash == block.block.hash)) (returned retry)
    ok (clock + 2, block.block, ps, length logs)

  abbrev pub finish_backfill : Block → ℕ → Result Stop (Unit {0}) × Store → Round × Store
  finish_backfill b logs (err e, s) = (stopped e, s)
  finish_backfill b logs (ok u, s) = (backfilled b.number b.hash logs, s)

  abbrev pub commit_backfill :
      Scope → List RawEvent → Result Stop (ℕ × Block × List Projection × ℕ) → Store → Round × Store
  commit_backfill scope events (err stop) s = (stopped stop, s)
  commit_backfill scope events (ok (clock, b, ps, logs)) s =
      let before = meanwhile clock s in
      finish_backfill b logs
        (committed backfill_stop before (atomic_swap_backfill scope b events ps before))

  -- The rest of a round: the backfill that is pending, or the next blocks.
  abbrev pub round_with :
      Scope → ℕ → ℕ → Option Cursor → ℕ → Store → Option Backfill → Round × Store
  round_with scope max_blocks head cursor clock s none =
      commit_round scope (next_blocks scope max_blocks head cursor clock) s
  round_with scope max_blocks head cursor clock s (some b) =
      commit_backfill scope b.events (prepare_backfill scope clock b) s

  abbrev pub round_after : Scope → ℕ → ℕ → Option Cursor → Result Stop ℕ × Store → Round × Store
  round_after scope max_blocks head cursor (err stop, s) = (stopped stop, s)
  round_after scope max_blocks head cursor (ok clock, s) =
      round_with scope max_blocks head cursor clock s (pending_swap_backfill scope s)

  -- The two first reads.
  abbrev pub read_head : Result Stop ℕ
  read_head = do
    chain ← or_fail (rpc.get_chain_id 0) (thrown rpc_failed)
    head ← or_fail (rpc.get_block_number 1) (thrown rpc_failed)
    fail_if (not (chain == manifest.chain_id)) (thrown rpc_chain_mismatch)
    ok head

  abbrev pub round_from :
      Scope → ℕ → Option Cursor → Option Cursor → List Block → Result Stop ℕ → Store → Round × Store
  round_from scope max_blocks chain cursor stored (err stop) s = (stopped stop, s)
  round_from scope max_blocks chain cursor stored (ok head) s =
      round_after scope max_blocks head cursor (follow head chain stored s)

  abbrev pub round_at :
      Scope → ℕ → Option Cursor → List Block → Result Stop (Option Cursor) → Store → Round × Store
  round_at scope max_blocks chain stored (err stop) s = (stopped stop, s)
  round_at scope max_blocks chain stored (ok cursor) s =
      round_from scope max_blocks chain cursor stored read_head s

  -- The round with a scope, after the tests of its input.
  unfoldable pub sync_scope : Scope → ℕ → Store → Round × Store
  sync_scope scope max_blocks s =
      if is_stuck (status_or_indexing s.state)
      then (stopped (returned resync), s)
      else round_at scope max_blocks s.chain (take reorg_window s.blocks)
          (as_stop scope_error (deployment_cursor scope s)) s

  abbrev pub sync_with : ℕ → Result Stop Scope → Store → Round × Store
  sync_with max_blocks (err stop) s = (stopped stop, s)
  sync_with max_blocks (ok scope) s = sync_scope scope max_blocks s

  -- `syncDeploymentOnce`
  unfoldable pub sync_deployment_once : ℕ → Store → Round × Store
  sync_deployment_once max_blocks s =
      if ltb max_blocks 1 || ltb max_sync_blocks max_blocks
      then (stopped (thrown invalid_block_batch), s)
      else sync_with max_blocks (as_stop scope_error (deployment_scope text manifest)) s
