-- ===== src/Api/Readiness/Tests.antt =====
-- An index two blocks behind the head of a local chain (apps/api/src/readiness.ts).
use aqua_orbital.Prelude.{ℕ, ◌≡◌, refl, true, [], some, ok, err, if◌then◌else◌, ltb}
use aqua_orbital.Shared.{Address, Manifest}
use aqua_orbital.Shared.Observations.{is_fresh_indexed_head}
use aqua_orbital.Chain.Table.{indexing}
use aqua_orbital.Api.Readiness.{
  Hash, IndexedState, Dependencies, Ready, indexer_changed, materialization_behind,
  indexer_unconfirmed, check_projected, check_materialization, check_cursor, check_head,
  check_latest, settle, check_readiness,
}
use aqua_orbital.Api.Readiness.Laws.{IsReady}
use aqua_orbital.Api.Readiness.Shown.{check_readiness-IsReady}

abbrev at : ℕ → Address
at n = record { value = n; is_checked = true }

abbrev manifest : Manifest
manifest = record {
  chain_id = 31337;
  has_urls = true;
  verified = true;
  aqua = at 1;
  router = at 2;
  payments = at 3;
  usdc = at 4;
  start_block = 0;
  tokens = [];
}

abbrev hash : ℕ → Hash
hash n = record { value = n; capitals = 0 }

abbrev state : ℕ → ℕ → ℕ → IndexedState
state height projected_height updated = record {
  height = height;
  hash = hash 9;
  status = indexing;
  updated_at = some updated;
  canonical = true;
  materialization = some (record {
    deployment_id = 5;
    identity_matches = true;
    cursor = some (record {
      height = projected_height;
      hash = hash 9;
      updated_at = some updated;
      canonical = true;
      projection_version = some 1;
    });
  });
}

abbrev reading : IndexedState → IndexedState → ℕ → ℕ → Dependencies
reading first second head elapsed = record {
  read_database = λ n. some (some (if ltb 0 n then second else first));
  read_rpc = λ s. some (record { chain_id = 31337; head = head; indexed_block_hash = hash 9 });
  elapsed = elapsed;
}

abbrev ready : Ready
ready = record { chain_id = 31337; block = 20; hash = hash 9; indexed_at = 99000; age_ms = 1500 }

index-ready :
    check_readiness
      (some manifest)
      (some (reading (state 20 20 99000) (state 20 20 99000) 22 500))
      100000
    ≡ ok ready
unfolding check_readiness check_projected check_materialization check_cursor check_head check_latest
    settle is_fresh_indexed_head
index-ready = refl

index-changed :
    check_readiness
      (some manifest)
      (some (reading (state 20 20 99000) (state 21 21 99000) 22 500))
      100000
    ≡ err indexer_changed
unfolding check_readiness check_projected check_materialization check_cursor check_head check_latest
    settle is_fresh_indexed_head
index-changed = refl

index-behind :
    check_readiness
      (some manifest)
      (some (reading (state 20 19 99000) (state 20 20 99000) 22 500))
      100000
    ≡ err materialization_behind
unfolding check_readiness check_projected check_materialization check_cursor check_head check_latest
    settle is_fresh_indexed_head
index-behind = refl

index-unconfirmed :
    check_readiness
      (some manifest)
      (some (reading (state 20 20 99000) (state 20 20 99000) 21 500))
      100000
    ≡ err indexer_unconfirmed
unfolding check_readiness check_projected check_materialization check_cursor check_head check_latest
    settle is_fresh_indexed_head
index-unconfirmed = refl

check_readiness-IsReady_example :
    IsReady manifest (reading (state 20 20 99000) (state 20 20 99000) 22 500) 100000 ready
check_readiness-IsReady_example =
    check_readiness-IsReady manifest (reading (state 20 20 99000) (state 20 20 99000) 22 500) 100000
      ready index-ready
