-- ===== src/Indexer/Backfill.antt =====
-- The backfill of swaps (packages/db/src/materialization.ts: `pendingSwapBackfill`,
-- `atomicSwapBackfill`), on the tables of Projections/Blocks.
pub mod Laws
use aqua_orbital.Prelude.{
  ℕ, ◌+◌, ◌^◌, Bool, true, false, ◌&&◌, ◌||◌, not, List, [], ◌∷◌, ◌++◌, Option, none, some, ltb,
  leb, ◌==◌, any, map, if◌then◌else◌, Result, ok, err, ◌>>=◌, ◌>>◌, fail_if, or_fail, find,
}
use aqua_orbital.Chain.Table.{Block, filter_by, needs_resync}
use aqua_orbital.Projections.Strategies
use aqua_orbital.Projections.Strategies.{is_active, strategy_swap}
use aqua_orbital.Projections.Blocks as Blocks
use aqua_orbital.Projections.Blocks.{
  Scope, RawEvent, Kind, strategy_kind, invoice_kind, Projection, LogRow, Covered, Notice,
  entity_notice, Store, compatible, coalesce, apply_kind,
}
use aqua_orbital.Indexer.Canonical.{same_option}

pub data Error : Type 0 where
  resync_required configuration_changed reorg_requires_replay source_changed : Error
  no_canonical_source conflicting_log : Error
  block_error : Blocks.Error → Error

-- Whether a row is the one of a height.
abbrev pub is_at : ℕ → Covered → Bool
is_at height c = c.height == height

-- What `pendingSwapBackfill` returns. A configuration is the text that is stored, under its order.
pub record Backfill : Type 0 where
  pub block : Block
  pub events : List RawEvent
  pub configs : List (ℕ × ℕ)

-- ORDER BY height LIMIT 1
abbrev pub lower : Covered → Option Covered → Covered
lower c none = c
lower c (some d) = if ltb d.height c.height then d else c

unfoldable pub lowest_row : (Covered → Bool) → List Covered → Option Covered
lowest_row keep [] = none
lowest_row keep (c ∷ cs) =
    let rest = lowest_row keep cs in if keep c then some (lower c rest) else rest

-- JOIN indexed_blocks
abbrev pub block_of : Covered → List Block → Option Block
block_of c bs = find (λ (b : Block). b.hash == c.hash) bs

abbrev pub has_block : List Block → Covered → Bool
has_block bs c = any (λ (b : Block). b.hash == c.hash) bs

-- ORDER BY log_index
abbrev pub insert_row : LogRow → List LogRow → List LogRow
insert_row r [] = r ∷ []
insert_row r (q ∷ qs) = if leb r.log_index q.log_index then r ∷ q ∷ qs else q ∷ insert_row r qs

abbrev pub by_index : List LogRow → List LogRow
by_index [] = []
by_index (r ∷ rs) = insert_row r (by_index rs)

-- A topic that is null is no hash.
abbrev pub topic_value : Option ℕ → ℕ
topic_value none = 2 ^ 256
topic_value (some t) = t

abbrev pub event_of_row : LogRow → RawEvent
event_of_row r = record {
  tx_hash = r.tx_hash;
  log_index = r.log_index;
  emitter = r.emitter;
  topic = topic_value r.topic;
  payload = r.payload;
}

-- The router's logs of a block, in order.
abbrev pub retained : Scope → ℕ → List LogRow → List RawEvent
retained scope hash rows = map event_of_row (
    by_index
      (filter_by (λ (r : LogRow). (r.block_hash == hash) && (r.emitter == scope.router)) rows))

-- The configurations of the strategies that a block has activated.
abbrev pub is_activation_at : ℕ → Strategies.Snapshot → Bool
is_activation_at hash r = (r.source.block_hash == hash) && (r.version == 1) && is_active r.lifecycle

abbrev pub stored_configs : ℕ → List Strategies.Snapshot → List (ℕ × ℕ)
stored_configs hash rows =
    map (λ (r : Strategies.Snapshot). (r.order_hash, r.config.text))
      (filter_by (is_activation_at hash) rows)

abbrev pub backfill_at : Scope → Store → Covered → Option Block → Option Backfill
backfill_at scope s c none = none
backfill_at scope s c (some b) = some (record {
  block = record { number = c.height; hash = c.hash; parent_hash = b.parent_hash };
  events = retained scope c.hash s.logs;
  configs = stored_configs c.hash s.strategies.snapshots;
})

abbrev pub backfill_for : Scope → Store → Option Covered → Option Backfill
backfill_for scope s none = none
backfill_for scope s (some c) = backfill_at scope s c (block_of c s.blocks)

-- `pendingSwapBackfill`
unfoldable pub pending_swap_backfill : Scope → Store → Option Backfill
pending_swap_backfill scope s = backfill_for scope s (lowest_row (has_block s.blocks) s.unswapped)

abbrev pub same_event : RawEvent → RawEvent → Bool
same_event a b =
    (a.tx_hash == b.tx_hash)
    && (a.log_index == b.log_index)
    && (a.emitter == b.emitter)
    && (a.topic == b.topic)
    && (a.payload == b.payload)

abbrev pub same_events : List RawEvent → List RawEvent → Bool
same_events [] [] = true
same_events (a ∷ as1) (b ∷ bs) = same_event a b && same_events as1 bs
same_events _ _ = false

-- `sources.get(key)`: of two logs under a key the last one counts.
abbrev pub source_of : Projection → List RawEvent → Option RawEvent
source_of p [] = none
source_of p (e ∷ es) = elim (source_of p es) [
  | some source ↦ some source
  | none ↦ if (e.tx_hash == p.tx_hash) && (e.log_index == p.log_index) then some e else none
]

-- UPDATE chain_events … RETURNING, which is `none` for no row.
abbrev pub is_row_of : Scope → ℕ → RawEvent → Projection → LogRow → Bool
is_row_of scope hash source p r =
    (r.block_hash == hash)
    && (r.tx_hash == p.tx_hash)
    && (r.log_index == p.log_index)
    && (r.emitter == scope.router)
    && (r.payload == source.payload)
    && compatible r.decoded (some p.text)

unfoldable pub decode_row : Scope → ℕ → RawEvent → Projection → List LogRow → Option (List LogRow)
decode_row scope hash source p [] = none
decode_row scope hash source p (r ∷ rs) =
    let rest = decode_row scope hash source p rs in
    if is_row_of scope hash source p r
    then some (record r { decoded = coalesce r.decoded (some p.text) } ∷ rs)
    else (elim rest [ none ↦ none | some out ↦ some (r ∷ out) ])

abbrev pub is_strategy : Kind → Bool
is_strategy (strategy_kind k) = true
is_strategy (invoice_kind k) = false

-- Only a swap is notified.
abbrev pub swap_notices : Block → Projection → Kind → List Notice
swap_notices b p (strategy_kind (strategy_swap s)) = entity_notice b.number b.hash p ∷ []
swap_notices b p _ = []

abbrev pub blocked {ℓ} : {A : Type ℓ} → Result Blocks.Error A → Result Error A
blocked (err e) = err (block_error e)
blocked (ok a) = ok a

-- One projection of the loop.
unfoldable pub backfill_one :
    Scope → Block → List RawEvent → Projection → Store → Result Error Store
backfill_one scope b es p s = do
  source ← or_fail (source_of p es) no_canonical_source
  fail_if (not (source.emitter == scope.router) || not (is_strategy p.kind)) no_canonical_source
  logs ← or_fail (decode_row scope b.hash source p s.logs) conflicting_log
  rows ← blocked (apply_kind scope b p p.kind (s.strategies, s.invoices))
  ok (record s { logs = logs; strategies = rows.0; notices = s.notices ++ swap_notices b p p.kind })

unfoldable pub backfill_all :
    Scope → Block → List RawEvent → List Projection → Store → Result Error Store
backfill_all scope b es [] s = ok s
backfill_all scope b es (p ∷ ps) s = do
  next ← backfill_one scope b es p s
  backfill_all scope b es ps next

-- `atomicSwapBackfill`
unfoldable pub atomic_swap_backfill :
    Scope → Block → List RawEvent → List Projection → Store → Result Error Store
atomic_swap_backfill scope b es ps s = do
  fail_if (needs_resync s.state) resync_required
  fail_if (not (same_option s.deployment (some scope.identity))) configuration_changed
  next ← or_fail (lowest_row (λ c. true) s.unswapped) reorg_requires_replay
  fail_if (not (next.height == b.number) || not (next.hash == b.hash)) reorg_requires_replay
  fail_if (not (same_events (retained scope b.hash s.logs) es)) source_changed
  t ← backfill_all scope b es ps s
  ok (record t { unswapped = filter_by (λ (c : Covered). not (is_at b.number c)) t.unswapped })
