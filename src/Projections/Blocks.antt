-- ===== src/Projections/Blocks.antt =====
-- `atomicDeploymentBlock` of packages/db/src/materialization.ts: one block of a deployment, with its logs
-- and what they are projected to, in one transaction. A transaction returns the new tables or an error,
-- which leaves the old ones. The tables of blocks and logs are shared with the chain's other
-- deployments.
pub mod Laws
pub mod Indexed
mod Tests
use aqua_orbital.Prelude.{
  ℕ, ◌+◌, Bool, true, false, ◌&&◌, ◌||◌, not, List, [], ◌∷◌, ◌++◌, Option, none, some, ltb, leb,
  ◌==◌, any, if◌then◌else◌, Result, ok, err, ◌>>=◌, ◌>>◌, fail_if, or_fail,
}
use aqua_orbital.Chain.Table.{Block, Cursor, Status, needs_resync, conflicts, insert_block}
use aqua_orbital.Chain.Ingest.{already_at, breaks_chain, touch_state}
use aqua_orbital.Projections
use aqua_orbital.Projections.{Source}
use aqua_orbital.Projections.Strategies
use aqua_orbital.Projections.Strategies.{Tables, strategy_event}
use aqua_orbital.Projections.Invoices
use aqua_orbital.Projections.Invoices.{invoice_event}

pub data Error : Type 0 where
  resync_required configuration_changed reorg_requires_replay : Error
  conflicting_log no_canonical_source unique_violation : Error
  projection_error : Projections.Error → Error

-- `DeploymentScope`, with its identity as one text.
pub record Scope : Type 0 where
  pub aqua : ℕ
  pub router : ℕ
  pub payments : ℕ
  pub start_block : ℕ
  pub identity : ℕ

-- `RawEvent`
pub record RawEvent : Type 0 where
  pub tx_hash : ℕ
  pub log_index : ℕ
  pub emitter : ℕ
  pub topic : ℕ
  pub payload : ℕ

pub data Kind : Type 0 where
  strategy_kind : Strategies.Kind → Kind
  invoice_kind : Invoices.Kind → Kind

-- `ProjectionEvent`, with its text.
pub record Projection : Type 0 where
  pub entity : ℕ
  pub maker : ℕ
  pub tx_hash : ℕ
  pub log_index : ℕ
  pub kind : Kind
  pub text : ℕ

-- A row of chain_events.
pub record LogRow : Type 0 where
  pub block_hash : ℕ
  pub tx_hash : ℕ
  pub log_index : ℕ
  pub emitter : ℕ
  pub topic : Option ℕ
  pub payload : ℕ
  pub decoded : Option ℕ

-- A row of deployment_blocks of this deployment, whose projection version is 1.
pub record Covered : Type 0 where
  pub height : ℕ
  pub hash : ℕ

-- The payloads of `pg_notify`.
pub data Notice : Type 0 where
  block_notice : (number hash : ℕ) → Notice
  entity_notice : (number hash : ℕ) (projection : Projection) → Notice

-- `unswapped` are the rows of `coverage` whose version of the swaps' projection is 0.
pub record Store : Type 0 where
  pub state : Option (Status × Bool)
  pub deployment : Option ℕ
  pub cursor : Option Cursor
  pub chain : Option Cursor
  pub blocks : List Block
  pub logs : List LogRow
  pub coverage : List Covered
  pub unswapped : List Covered
  pub strategies : Tables
  pub invoices : List Invoices.Snapshot
  pub notices : List Notice

-- INSERT INTO deployments … ON CONFLICT DO NOTHING
abbrev pub identity_of : Scope → Option ℕ → ℕ
identity_of scope none = scope.identity
identity_of scope (some identity) = identity

-- `cursor?(height+1n!==block.number||cursor.hash!==block.parentHash):block.number!==scope.startBlock`
abbrev pub is_misplaced : Scope → Block → Option Cursor → Bool
is_misplaced scope b none = not (b.number == scope.start_block)
is_misplaced scope b (some c) = breaks_chain b (some c)

-- The test of the chain's own cursor.
abbrev pub outruns_chain : Block → Option Cursor → Bool
outruns_chain b none = false
outruns_chain b (some c) = ltb c.height b.number && breaks_chain b (some c)

-- The test of one row next to the block.
abbrev pub is_broken_at : Block → Block → Bool
is_broken_at b row =
    (row.number == b.number) && (not (row.hash == b.hash) || not (row.parent_hash == b.parent_hash))
    || (row.number + 1 == b.number) && not (row.hash == b.parent_hash)
    || (row.number == b.number + 1) && not (row.parent_hash == b.hash)

-- The tests of where the block stands.
unfoldable pub check_place : Scope → Block → Store → Result Error (Unit {0})
check_place scope b s = do
  fail_if (is_misplaced scope b s.cursor) reorg_requires_replay
  fail_if (outruns_chain b s.chain) reorg_requires_replay
  fail_if (any (is_broken_at b) s.blocks) reorg_requires_replay

-- INSERT INTO indexed_blocks … ON CONFLICT DO NOTHING
abbrev pub keep_block : Block → List Block → List Block
keep_block b bs = if conflicts b bs then bs else insert_block b bs

-- `decoded.get(key)`: of two projections of a log the last one counts.
abbrev pub decoded_of : RawEvent → List Projection → Option ℕ
decoded_of e [] = none
decoded_of e (p ∷ ps) = elim (decoded_of e ps) [
  | some text ↦ some text
  | none ↦ if (p.tx_hash == e.tx_hash) && (p.log_index == e.log_index) then some p.text else none
]

abbrev pub same_topic : Option ℕ → ℕ → Bool
same_topic none t = false
same_topic (some u) t = u == t

-- Whether two decoded payloads agree where both are there.
abbrev pub compatible : Option ℕ → Option ℕ → Bool
compatible (some a) (some b) = a == b
compatible _ _ = true

-- `COALESCE`
abbrev pub coalesce : Option ℕ → Option ℕ → Option ℕ
coalesce none b = b
coalesce (some a) b = some a

-- INSERT INTO chain_events … ON CONFLICT DO UPDATE … RETURNING, and the error for no row.
unfoldable pub store_log : ℕ → RawEvent → Option ℕ → List LogRow → Result Error (List LogRow)
store_log hash e text [] = ok (
    record {
      block_hash = hash;
      tx_hash = e.tx_hash;
      log_index = e.log_index;
      emitter = e.emitter;
      topic = some e.topic;
      payload = e.payload;
      decoded = text;
    }
    ∷ [])
store_log hash e text (r ∷ rs) =
    let rest = store_log hash e text rs >>= λ out. ok (r ∷ out) in
    if (r.block_hash == hash) && (r.log_index == e.log_index)
    then (fail_if (not (r.tx_hash == e.tx_hash)) unique_violation
        >> (fail_if
              (not (r.emitter == e.emitter)
                || not (same_topic r.topic e.topic)
                || not (r.payload == e.payload)
                || not (compatible r.decoded text))
              conflicting_log
            >> ok (record r { decoded = coalesce r.decoded text } ∷ rs)))
    else rest

unfoldable pub store_logs :
    ℕ → List Projection → List RawEvent → List LogRow → Result Error (List LogRow)
store_logs hash ps [] rows = ok rows
store_logs hash ps (e ∷ es) rows = do
  next ← store_log hash e (decoded_of e ps) rows
  store_logs hash ps es next

-- `sources.get(key)`: of two logs under a key the last one counts.
abbrev pub emitter_of : Projection → List RawEvent → Option ℕ
emitter_of p [] = none
emitter_of p (e ∷ es) = elim (emitter_of p es) [
  | some emitter ↦ some emitter
  | none ↦ if (e.tx_hash == p.tx_hash) && (e.log_index == p.log_index) then some e.emitter else none
]

-- The contract that a kind of projection comes from.
abbrev pub contract_of : Scope → Kind → ℕ
contract_of scope (strategy_kind k) = scope.router
contract_of scope (invoice_kind k) = scope.payments

abbrev pub is_emitter : Option ℕ → ℕ → Bool
is_emitter none a = false
is_emitter (some e) a = e == a

abbrev pub source_at : Block → Projection → Source
source_at b p = record {
  block_number = b.number;
  block_hash = b.hash;
  tx_hash = p.tx_hash;
  log_index = p.log_index;
}

-- A call of the projections.
abbrev pub projected {ℓ} : {A : Type ℓ} → Result Projections.Error A → Result Error A
projected (err e) = err (projection_error e)
projected (ok a) = ok a

-- The rows of the projections: `strategyEvent` or `invoiceEvent`.
unfoldable pub apply_kind :
    Scope
    → Block
    → Projection
    → Kind
    → Tables × List Invoices.Snapshot
    → Result Error (Tables × List Invoices.Snapshot)
apply_kind scope b p (strategy_kind k) (t, rows) = do
  next ← projected (
      strategy_event (record { aqua = scope.aqua; router = scope.router })
        (record { entity = p.entity; maker = p.maker; source = source_at b p; kind = k }) t)
  ok (next, rows)
apply_kind scope b p (invoice_kind k) (t, rows) = do
  next ← projected (
      invoice_event
        (record { entity = p.entity; maker = p.maker; source = source_at b p; kind = k }) rows)
  ok (t, next)

-- The loop over the projections.
unfoldable pub apply_all :
    Scope
    → Block
    → List RawEvent
    → List Projection
    → Tables × List Invoices.Snapshot
    → Result Error (Tables × List Invoices.Snapshot)
apply_all scope b es [] rows = ok rows
apply_all scope b es (p ∷ ps) rows = do
  fail_if (not (is_emitter (emitter_of p es) (contract_of scope p.kind))) no_canonical_source
  next ← apply_kind scope b p p.kind rows
  apply_all scope b es ps next

abbrev pub entity_notices : Block → List Projection → List Notice
entity_notices b [] = []
entity_notices b (p ∷ ps) = entity_notice b.number b.hash p ∷ entity_notices b ps

-- The chain's cursor moves only forward.
abbrev pub chain_after : Block → Option Cursor → Option Cursor
chain_after b none = some (record { height = b.number; hash = b.hash })
chain_after b (some c) =
    if ltb c.height b.number then some (record { height = b.number; hash = b.hash }) else some c

-- INSERT INTO deployment_blocks, whose key is the height.
abbrev pub is_covered : ℕ → List Covered → Bool
is_covered height rows = any (λ (c : Covered). c.height == height) rows

-- The tables after a block.
abbrev pub with_block :
    Scope → Block → List Projection → List LogRow → Tables × List Invoices.Snapshot → Store → Store
with_block scope b ps logs rows s = record {
  state = touch_state s.state;
  deployment = some (identity_of scope s.deployment);
  cursor = some (record { height = b.number; hash = b.hash });
  chain = chain_after b s.chain;
  blocks = keep_block b s.blocks;
  logs = logs;
  coverage = record { height = b.number; hash = b.hash } ∷ s.coverage;
  unswapped = s.unswapped;
  strategies = rows.0;
  invoices = rows.1;
  notices = s.notices ++ entity_notices b ps ++ block_notice b.number b.hash ∷ [];
}

-- What follows the test whether the block is there.
unfoldable pub append_block :
    Scope → Block → List RawEvent → List Projection → Store → Result Error Store
append_block scope b es ps s = do
  check_place scope b s
  logs ← store_logs b.hash ps es s.logs
  rows ← apply_all scope b es ps (s.strategies, s.invoices)
  fail_if (is_covered b.number s.coverage) unique_violation
  ok (with_block scope b ps logs rows s)

-- `atomicDeploymentBlock`
unfoldable pub atomic_deployment_block :
    Scope → Block → List RawEvent → List Projection → Store → Result Error Store
atomic_deployment_block scope b es ps s = do
  fail_if (needs_resync s.state) resync_required
  fail_if (not (identity_of scope s.deployment == scope.identity)) configuration_changed
  if already_at b s.cursor
      then ok (record s { deployment = some (identity_of scope s.deployment) })
      else append_block scope b es ps s
