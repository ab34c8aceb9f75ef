-- ===== src/Indexer/Round/Tests.antt =====
-- A round on a chain whose head is at 8, for a deployment that begins at 5
-- (apps/indexer/src/materializer.ts).
use aqua_orbital.Prelude.{ℕ, ◌+◌, ◌≡◌, refl, true, false, [], ◌∷◌, none, some, ok, length}
use aqua_orbital.Shared.{Address, Manifest, is_manifest}
use aqua_orbital.Chain.Table.{Block, indexing}
use aqua_orbital.Chain.Reorg.{reconcile, reconcile_rows, settle_ancestor}
use aqua_orbital.Indexer.Canonical.{Header, checked_block, canonical_logs, insert_logs}
use aqua_orbital.Indexer.Events.{Library, prepare_projections, decode_all, hydrate, project_all}
use aqua_orbital.Indexer.Deployment.{Identity, deployment_scope, deployment_cursor, reconcile_store}
use aqua_orbital.Projections.Blocks.{Scope, Store, block_notice}
use aqua_orbital.Projections.Empty.{atomic_empty_blocks, check_links, check_range, settle_range}
use aqua_orbital.Indexer.Backfill.{
  pending_swap_backfill, lowest_row, atomic_swap_backfill, backfill_all,
}
use aqua_orbital.Indexer.Round.{
  MaterializationRpc, backfilled, prepare_backfill, retained_logs, configs_of, project_logs,
  stopped, indexed, returned, idle, observe, recheck, window, bucket, read_blocks, read_logs,
  prepare, gather, next_blocks, commit_all, sync_scope, sync_deployment_once,
}
use aqua_orbital.Indexer.Round.Laws.{IsRound, sync_deployment_once-IsRound}

abbrev at : ℕ → Address
at n = record { value = n; is_checked = true }

abbrev manifest : Manifest
manifest = record {
  chain_id = 31337;
  has_urls = true;
  verified = true;
  aqua = at 21;
  router = at 22;
  payments = at 23;
  usdc = at 11;
  start_block = 5;
  tokens =
      record { address = at 11; symbol = 85 ∷ []; decimals = 6; mock = false }
      ∷ record { address = at 12; symbol = 68 ∷ []; decimals = 6; mock = true }
      ∷ [];
}

abbrev scope : Scope
scope = record { aqua = 21; router = 22; payments = 23; start_block = 5; identity = 1 }

abbrev text : Identity → ℕ
text identity = 1

-- No event of the tests is decoded.
abbrev lib : Library
lib = record {
  abi = record {
    keccak = λ bytes. length bytes;
    config = λ c. none;
    order = λ o. none;
    invoice = λ n a m k. none;
    call = λ c. none;
  };
  selector = λ name. 0;
  decode_event = λ name l. none;
  encode_data = λ d. none;
  encode_topics = λ d. none;
  decode_config = λ raw. none;
  payload_text = λ l. 0;
  payload_log = λ p. none;
  config_of = λ c. none;
  config_text = λ c. 0;
  tokens_text = λ ts. 0;
  recipients_text = λ rs bps. 0;
  projection_text = λ entity maker tx_hash log_index kind. 0;
}

-- Block n has the hash 100 + n.
abbrev header : ℕ → Header
header n = record {
  number = n;
  hash = some (100 + n);
  parent_hash = some (99 + n);
  transactions = [];
}

abbrev rpc : ℕ → MaterializationRpc
rpc head = record {
  get_chain_id = λ clock. some 31337;
  get_block_number = λ clock. some head;
  get_block = λ clock n. some (header n);
  get_logs = λ clock n hash. some [];
  get_logs_range = some (λ clock from to. some []);
  call = λ clock order hash. none;
}

abbrev alone : ℕ → Store → Store
alone n s = s

abbrev new : Store
new = record {
  state = none;
  deployment = none;
  cursor = none;
  chain = none;
  blocks = [];
  logs = [];
  coverage = [];
  unswapped = [];
  strategies = record { snapshots = []; receipts = [] };
  invoices = [];
  notices = [];
}

abbrev block : ℕ → Block
block n = record { number = n; hash = 100 + n; parent_hash = 99 + n }

abbrev filled : Store
filled = record {
  state = some (indexing, false);
  deployment = some 1;
  cursor = some (record { height = 6; hash = 106 });
  chain = some (record { height = 6; hash = 106 });
  blocks = block 6 ∷ block 5 ∷ [];
  logs = [];
  coverage = record { height = 6; hash = 106 } ∷ record { height = 5; hash = 105 } ∷ [];
  unswapped = [];
  strategies = record { snapshots = []; receipts = [] };
  invoices = [];
  notices = block_notice 5 105 ∷ block_notice 6 106 ∷ [];
}

scoped : deployment_scope text manifest ≡ ok scope
unfolding deployment_scope is_manifest
scoped = refl

-- The two blocks that are confirmed.
two-indexed :
    sync_deployment_once lib text manifest (rpc 8) alone 64 new ≡ (indexed 6 106 0, filled)
unfolding sync_deployment_once pending_swap_backfill lowest_row sync_scope deployment_scope
    is_manifest deployment_cursor next_blocks read_blocks gather read_logs bucket prepare commit_all
    checked_block canonical_logs insert_logs prepare_projections decode_all hydrate project_all
    atomic_empty_blocks check_links check_range settle_range
two-indexed = refl

-- Then there is nothing to do.
nothing-left :
    sync_deployment_once lib text manifest (rpc 8) alone 64 filled
    ≡ (stopped (returned idle), filled)
unfolding sync_deployment_once pending_swap_backfill lowest_row sync_scope deployment_scope
    is_manifest deployment_cursor next_blocks window observe recheck checked_block reconcile_store
    reconcile reconcile_rows settle_ancestor
nothing-left = refl

-- A block that was indexed without its swaps is backfilled before the next ones.
abbrev unswapped : Store
unswapped = record filled { unswapped = record { height = 5; hash = 105 } ∷ [] }

swaps-backfilled :
    sync_deployment_once lib text manifest (rpc 8) alone 64 unswapped ≡ (backfilled 5 105 0, filled)
unfolding sync_deployment_once pending_swap_backfill lowest_row sync_scope deployment_scope
    is_manifest deployment_cursor window observe recheck checked_block reconcile_store reconcile
    reconcile_rows settle_ancestor prepare_backfill retained_logs configs_of project_logs
    canonical_logs insert_logs atomic_swap_backfill backfill_all
swaps-backfilled = refl

sync_deployment_once-IsRound_example :
    let out = sync_deployment_once lib text manifest (rpc 8) alone 64 new in
    IsRound scope (rpc 8) out.0 out.1
sync_deployment_once-IsRound_example =
    sync_deployment_once-IsRound lib text manifest (rpc 8) alone scope 64 new scoped (λ n t h. h)
      (record { tip = refl; counted = tt })
