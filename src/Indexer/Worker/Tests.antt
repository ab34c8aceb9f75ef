-- ===== src/Indexer/Worker/Tests.antt =====
-- A round of the indexer (apps/indexer/src/worker.ts) that ingests a second block.
use aqua_orbital.Prelude.{ℕ, ◌-◌, ◌*◌, ◌≡◌, refl, false, [], ◌∷◌, some}
use aqua_orbital.Chain.Table.{Event, Db, indexing, block_notice, rollback_cursors}
use aqua_orbital.Chain.Ingest.{atomic_block}
use aqua_orbital.Chain.Reorg.{
  indexer_snapshot, reconcile, reconcile_rows, settle_ancestor, rollback,
}
use aqua_orbital.Indexer.Worker.{
  ReadRpc, IndexerConfig, RawLog, Header, indexed, sync_once, observe, recheck, window, next_block,
}
use aqua_orbital.Indexer.Worker.Progress.{Advanced, sync_once-Advanced}

-- The block of a height has ten times the height for its hash, and one log.
abbrev header_at : ℕ → Header
header_at n = record { number = n; hash = some (10 * n); parent_hash = some (10 * (n - 1)) }

abbrev log_at : ℕ → RawLog
log_at n = record {
  block_number = n;
  block_hash = 10 * n;
  transaction_hash = some 1;
  log_index = some 0;
  address = 5;
  topics = 6 ∷ [];
  payload = 7;
  removed = false;
}

abbrev rpc : ReadRpc
rpc = record {
  get_block_number = λ k. some 13;
  get_block = λ k n. some (header_at n);
  get_logs = λ k n. some (log_at n ∷ []);
}

abbrev config : IndexerConfig
config = record { start_block = 10; emitters = 5 ∷ [] }

abbrev undisturbed : ℕ → Db → Db
undisturbed k db = db

abbrev before : Db
before = record {
  blocks = record { number = 10; hash = 100; parent_hash = 90 } ∷ [];
  events = [];
  cursor = some (record { height = 10; hash = 100 });
  state = some (indexing, false);
  coverage = [];
  deployment_cursors = [];
  notices = [];
}

abbrev event : Event
event = record {
  block_hash = 110;
  tx_hash = 1;
  log_index = 0;
  emitter = 5;
  topic = some 6;
  payload = 7;
}

abbrev ahead : Db
ahead = record before {
  blocks = record { number = 11; hash = 110; parent_hash = 100 } ∷ before.blocks;
  events = event ∷ [];
  cursor = some (record { height = 11; hash = 110 });
  notices = block_notice 11 110 ∷ [];
}

advances : sync_once config rpc undisturbed before ≡ (indexed 11 110 1, ahead)
unfolding sync_once observe recheck window next_block indexer_snapshot reconcile reconcile_rows
    settle_ancestor rollback rollback_cursors atomic_block
advances = refl

sync_once-Advanced_example : Advanced config rpc before ahead 11 110
sync_once-Advanced_example =
    sync_once-Advanced config rpc undisturbed before ahead 11 110 1 advances
