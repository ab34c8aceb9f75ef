-- ===== src/Chain/Table.antt =====
-- The rows of one chain in the tables that packages/db/src/reorg.ts and packages/db/src/index.ts use.
-- Hashes, addresses, topics and payloads are only compared, so they are numbers. Every query names its
-- chain, so the model has the rows of one. A transaction returns the new tables or an error, in which
-- case it is rolled back and the old tables stay.
pub mod Laws
use aqua_orbital.Prelude.{
  ℕ, ◌+◌, Bool, true, false, ◌&&◌, not, List, [], ◌∷◌, Option, none, some, ltb, leb, ◌==◌, any,
  find, map, includes, if◌then◌else◌,
}

-- `BlockHeader`, and a row of indexed_blocks.
pub record Block : Type 0 where
  pub number : ℕ
  pub hash : ℕ
  pub parent_hash : ℕ

pub record Cursor : Type 0 where
  pub height : ℕ
  pub hash : ℕ

-- A row of chain_events. The topic is `none` for a log without topics.
pub record Event : Type 0 where
  pub block_hash : ℕ
  pub tx_hash : ℕ
  pub log_index : ℕ
  pub emitter : ℕ
  pub topic : Option ℕ
  pub payload : ℕ

-- A row of deployment_blocks, and one of deployment_cursor.
pub record Coverage : Type 0 where
  pub deployment : ℕ
  pub height : ℕ
  pub hash : ℕ

pub data Status : Type 0 where
  indexing resync_required : Status

-- A payload of `pg_notify`, delivered when the transaction commits.
pub data Notice : Type 0 where
  block_notice : (height hash : ℕ) → Notice
  resync_notice : (height hash : ℕ) → Notice
  reorg_notice : (height hash previous_height previous_hash removed : ℕ) → Notice

-- `blocks` lists indexed_blocks from the highest row down, and `coverage` deployment_blocks likewise.
-- `state` is the row of indexer_state, with whether a reason is stored.
pub record Db : Type 0 where
  pub blocks : List Block
  pub events : List Event
  pub cursor : Option Cursor
  pub state : Option (Status × Bool)
  pub coverage : List Coverage
  pub deployment_cursors : List Coverage
  pub notices : List Notice

abbrev pub filter_by {ℓ} : {A : Type ℓ} → (A → Bool) → List A → List A
filter_by p [] = []
filter_by p (x ∷ xs) = if p x then x ∷ filter_by p xs else filter_by p xs

abbrev pub hashes : List Block → List ℕ
hashes bs = map (λ (b : Block). b.hash) bs

-- `status==='resync_required'`
abbrev pub needs_resync : Option (Status × Bool) → Bool
needs_resync none = false
needs_resync (some (indexing, reason)) = false
needs_resync (some (resync_required, reason)) = true

-- The unique keys of indexed_blocks, (chain_id, height) and (chain_id, hash).
abbrev pub conflicts : Block → List Block → Bool
conflicts b bs = any (λ (c : Block). if c.number == b.number then true else c.hash == b.hash) bs

-- INSERT INTO indexed_blocks, in its place.
abbrev pub insert_block : Block → List Block → List Block
insert_block b [] = b ∷ []
insert_block b (c ∷ bs) = if ltb c.number b.number then b ∷ c ∷ bs else c ∷ insert_block b bs

-- DELETE FROM indexed_blocks WHERE height > $2: what is kept, and what is removed.
abbrev pub at_most : ℕ → List Block → List Block
at_most h bs = filter_by (λ (b : Block). leb b.number h) bs

abbrev pub above : ℕ → List Block → List Block
above h bs = filter_by (λ (b : Block). ltb h b.number) bs

-- ON DELETE CASCADE, by the hashes of the removed rows.
abbrev pub cascade_events : List ℕ → List Event → List Event
cascade_events gone es = filter_by (λ (e : Event). not (includes e.block_hash gone)) es

abbrev pub cascade_coverage : List ℕ → List Coverage → List Coverage
cascade_coverage gone cs = filter_by (λ (c : Coverage). not (includes c.hash gone)) cs

-- The highest remaining row of a deployment.
abbrev pub latest : ℕ → List Coverage → Option Coverage
latest d cs = find (λ (c : Coverage). c.deployment == d) cs

-- `rollbackDeploymentCursors`: a cursor above the ancestor moves to its deployment's highest remaining
-- block, or goes with the last one.
unfoldable pub rollback_cursors : ℕ → List Coverage → List Coverage → List Coverage
rollback_cursors ancestor coverage [] = []
rollback_cursors ancestor coverage (c ∷ cs) =
    let rest = rollback_cursors ancestor coverage cs in
    if ltb ancestor c.height
    then elim (latest c.deployment coverage) [ none ↦ rest | some row ↦ row ∷ rest ]
    else c ∷ rest
