-- ===== src/Api/Readiness.antt =====
-- `checkReadiness` of apps/api/src/readiness.ts: whether the API may answer from the index. A read is
-- `none` where it throws or takes longer than its limit. Times are in milliseconds; a date is `none`
-- where it is no date.

pub mod Laws
pub mod Shown
mod Tests
use aqua_orbital.Prelude.{
  ℕ, ◌+◌, ◌-◌, ◌^◌, Bool, true, false, ◌&&◌, ◌||◌, not, Option, none, some, ltb, leb, ◌==◌, min,
  if◌then◌else◌, Result, ok, err, ◌>>=◌, ◌>>◌, fail_if, or_fail,
}
use aqua_orbital.Shared.{Manifest}
use aqua_orbital.Shared.Observations.{is_fresh_indexed_head}
use aqua_orbital.Chain.Table.{Status, indexing, resync_required}

pub data Code : Type 0 where
  deployment_unavailable database_unconfigured database_unavailable : Code
  indexer_not_started indexer_resync_required indexer_stale indexer_orphaned : Code
  indexer_unconfirmed indexer_catching_up indexer_changed : Code
  rpc_unavailable rpc_chain_mismatch : Code
  materialization_not_started materialization_deployment_mismatch materialization_orphaned : Code
  materialization_version_unsupported materialization_behind materialization_ahead : Code
  materialization_stale materialization_changed : Code

-- The text of a hash: a number for the text in lower case, and one for which of its letters are
-- capitals.
pub record Hash : Type 0 where
  pub value : ℕ
  pub capitals : ℕ

-- The cursor of a `MaterializationState`.
pub record Projected : Type 0 where
  pub height : ℕ
  pub hash : Hash
  pub updated_at : Option ℕ
  pub canonical : Bool
  pub projection_version : Option ℕ

-- `MaterializationState`
pub record Materialization : Type 0 where
  pub deployment_id : ℕ
  pub identity_matches : Bool
  pub cursor : Option Projected

-- `IndexedState`
pub record IndexedState : Type 0 where
  pub height : ℕ
  pub hash : Hash
  pub status : Status
  pub updated_at : Option ℕ
  pub canonical : Bool
  pub materialization : Option Materialization

-- What `readRpc` answers.
pub record Head : Type 0 where
  pub chain_id : ℕ
  pub head : ℕ
  pub indexed_block_hash : Hash

-- `ReadinessDependencies`, with the number of the read of the database and the time that passes until
-- the second one.
pub record Dependencies : Type 0 where
  pub read_database : ℕ → Option (Option IndexedState)
  pub read_rpc : IndexedState → Option Head
  pub elapsed : ℕ

-- A `ReadinessResult` that is ready.
pub record Ready : Type 0 where
  pub chain_id : ℕ
  pub block : ℕ
  pub hash : Hash
  pub indexed_at : ℕ
  pub age_ms : ℕ

-- `hashSchema`
abbrev pub is_hash : Hash → Bool
is_hash h = ltb h.value (2 ^ 256)

-- `freshAge` of the time since a date: from 1000 before it to 10000 after it.
abbrev pub is_fresh : ℕ → Option ℕ → Bool
is_fresh now none = false
is_fresh now (some t) = leb t (now + 1000) && leb now (t + 10000)

abbrev pub is_stuck : Status → Bool
is_stuck indexing = false
is_stuck resync_required = true

abbrev pub is_version_one : Option ℕ → Bool
is_version_one none = false
is_version_one (some v) = v == 1

abbrev pub verified_of : Option Manifest → Option Manifest
verified_of none = none
verified_of (some m) = if m.verified then some m else none

-- The tests of a materialization's cursor.
unfoldable pub check_projected : IndexedState → ℕ → Projected → Result Code (Unit {0})
check_projected state now c = do
  fail_if (not c.canonical || not (is_hash c.hash)) materialization_orphaned
  fail_if (not (is_version_one c.projection_version)) materialization_version_unsupported
  fail_if (ltb c.height state.height) materialization_behind
  fail_if (ltb state.height c.height) materialization_ahead
  fail_if (not (c.hash.value == state.hash.value)) materialization_orphaned
  fail_if (not (is_fresh now c.updated_at)) materialization_stale

-- `materializationFailure`. Where there is no failure it gives the deployment and the cursor that the
-- rest of the code takes from the state.
unfoldable pub check_materialization : IndexedState → ℕ → Result Code (ℕ × Projected)
check_materialization state now = do
  projection ← or_fail state.materialization materialization_not_started
  fail_if (not projection.identity_matches) materialization_deployment_mismatch
  cursor ← or_fail projection.cursor materialization_not_started
  check_projected state now cursor
  ok (projection.deployment_id, cursor)

-- The tests of the first read.
unfoldable pub check_cursor : ℕ → IndexedState → Result Code (ℕ × Projected)
check_cursor now cursor = do
  fail_if (is_stuck cursor.status) indexer_resync_required
  fail_if (not (is_fresh now cursor.updated_at) || not (is_hash cursor.hash)) indexer_stale
  fail_if (not cursor.canonical) indexer_orphaned
  check_materialization cursor now

-- The tests of the chain's head.
unfoldable pub check_head : ℕ → IndexedState → Head → Result Code (Unit {0})
check_head chain_id cursor rpc = do
  fail_if (not (rpc.chain_id == chain_id)) rpc_chain_mismatch
  fail_if (not (rpc.indexed_block_hash.value == cursor.hash.value)) indexer_orphaned
  fail_if (ltb rpc.head (cursor.height + 2)) indexer_unconfirmed
  fail_if (not (is_fresh_indexed_head chain_id rpc.head cursor.height)) indexer_catching_up

-- Whether two reads have one cursor, on the texts of their hashes.
abbrev pub same_cursor : IndexedState → IndexedState → Bool
same_cursor latest cursor =
    (latest.height == cursor.height)
    && (latest.hash.value == cursor.hash.value)
    && (latest.hash.capitals == cursor.hash.capitals)

-- The tests of the second read.
unfoldable pub check_latest : ℕ → IndexedState → IndexedState → Result Code (ℕ × Projected)
check_latest checked_at cursor latest = do
  fail_if (is_stuck latest.status) indexer_resync_required
  fail_if (not (same_cursor latest cursor)) indexer_changed
  fail_if (not latest.canonical) indexer_orphaned
  fail_if
      (not (is_fresh checked_at latest.updated_at) || not (is_fresh checked_at cursor.updated_at))
      indexer_stale
  check_materialization latest checked_at

-- `date.getTime()`, of a date that was tested.
abbrev pub time_of : Option ℕ → ℕ
time_of none = 0
time_of (some t) = t

-- The oldest of the four observations.
abbrev pub oldest : IndexedState → IndexedState → Projected → Projected → ℕ
oldest cursor latest p q =
    min (time_of cursor.updated_at)
      (min (time_of latest.updated_at) (min (time_of p.updated_at) (time_of q.updated_at)))

-- What follows the second read. The age of a later date is 0.
unfoldable pub settle :
    ℕ → ℕ → IndexedState → IndexedState → ℕ × Projected → ℕ × Projected → Result Code Ready
settle chain_id checked_at cursor latest (d, p) (d', q) = do
  fail_if (not (d' == d)) materialization_changed
  fail_if (ltb 10000 (checked_at - oldest cursor latest p q)) materialization_stale
  ok (record {
    chain_id = chain_id;
    block = cursor.height;
    hash = cursor.hash;
    indexed_at = oldest cursor latest p q;
    age_ms = checked_at - oldest cursor latest p q;
  })

-- `checkReadiness`
unfoldable pub check_readiness : Option Manifest → Option Dependencies → ℕ → Result Code Ready
check_readiness manifest dependencies now = do
  m ← or_fail (verified_of manifest) deployment_unavailable
  d ← or_fail dependencies database_unconfigured
  first ← or_fail (d.read_database 0) database_unavailable
  cursor ← or_fail first indexer_not_started
  p ← check_cursor now cursor
  rpc ← or_fail (d.read_rpc cursor) rpc_unavailable
  check_head m.chain_id cursor rpc
  second ← or_fail (d.read_database 1) database_unavailable
  latest ← or_fail second indexer_changed
  q ← check_latest (now + d.elapsed) cursor latest
  settle m.chain_id (now + d.elapsed) cursor latest p q
