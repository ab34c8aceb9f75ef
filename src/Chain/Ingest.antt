-- ===== src/Chain/Ingest.antt =====
-- `atomicBlock` of packages/db/src/index.ts: one block and its events, in one transaction.
pub mod Laws
use aqua_orbital.Prelude.{
  ℕ, ◌+◌, Bool, true, false, ◌&&◌, ◌||◌, not, List, [], ◌∷◌, ◌++◌, Option, none, some, ◌==◌, any,
  if◌then◌else◌, Result, ok, err, ◌>>=◌, ◌>>◌, fail_if,
}
use aqua_orbital.Chain.Table.{
  Block, Cursor, Event, Status, indexing, Notice, block_notice, Db, needs_resync, conflicts,
  insert_block,
}

-- `unique_violation` is the database's own error.
pub data Error : Type 0 where
  resync_required reorg_requires_replay unique_violation : Error

-- An event as the caller gives it.
pub record Log : Type 0 where
  pub tx_hash : ℕ
  pub log_index : ℕ
  pub emitter : ℕ
  pub topic : Option ℕ
  pub payload : ℕ

abbrev pub event_of : ℕ → Log → Event
event_of block_hash l = record {
  block_hash = block_hash;
  tx_hash = l.tx_hash;
  log_index = l.log_index;
  emitter = l.emitter;
  topic = l.topic;
  payload = l.payload;
}

-- The unique keys of chain_events: (block_hash, tx_hash, log_index), and (block_hash, log_index), which
-- the first one is weaker than.
abbrev pub same_key : Event → Event → Bool
same_key e f = (e.block_hash == f.block_hash) && (e.log_index == f.log_index)

-- INSERT … ON CONFLICT DO NOTHING
abbrev pub insert_event : Event → List Event → List Event
insert_event e es = if any (same_key e) es then es else es ++ e ∷ []

abbrev pub insert_events : ℕ → List Log → List Event → List Event
insert_events block_hash [] es = es
insert_events block_hash (l ∷ ls) es =
    insert_events block_hash ls (insert_event (event_of block_hash l) es)

-- `prior&&BigInt(prior.height)===block.number&&prior.hash===block.hash`
abbrev pub already_at : Block → Option Cursor → Bool
already_at b none = false
already_at b (some c) = (c.height == b.number) && (c.hash == b.hash)

-- `prior&&(BigInt(prior.height)+1n!==block.number||prior.hash!==block.parentHash)`
abbrev pub breaks_chain : Block → Option Cursor → Bool
breaks_chain b none = false
breaks_chain b (some c) = not (c.height + 1 == b.number) || not (c.hash == b.parent_hash)

-- INSERT … VALUES($1,'indexing') ON CONFLICT DO UPDATE SET updated_at: an old status stays.
abbrev pub touch_state : Option (Status × Bool) → Option (Status × Bool)
touch_state none = some (indexing, false)
touch_state (some s) = some s

abbrev pub with_block : Block → List Log → Db → Db
with_block b logs db = record db {
  blocks = insert_block b db.blocks;
  events = insert_events b.hash logs db.events;
  cursor = some (record { height = b.number; hash = b.hash });
  state = touch_state db.state;
  notices = db.notices ++ block_notice b.number b.hash ∷ [];
}

-- `atomicBlock`
unfoldable pub atomic_block : Block → List Log → Db → Result Error Db
atomic_block b logs db = do
  fail_if (needs_resync db.state) resync_required
  if already_at b db.cursor
      then ok db
      else (fail_if (breaks_chain b db.cursor) reorg_requires_replay
          >> (fail_if (conflicts b db.blocks) unique_violation >> ok (with_block b logs db)))
