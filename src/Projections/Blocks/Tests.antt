-- ===== src/Projections/Blocks/Tests.antt =====
-- The first two blocks of a deployment (packages/db/src/materialization.ts), the second with an invoice.
use aqua_orbital.Prelude.{◌≡◌, refl, false, [], ◌∷◌, none, some, ok, err}
use aqua_orbital.Chain.Table.{Block, indexing}
use aqua_orbital.Projections.Invoices
use aqua_orbital.Projections.Invoices.{
  Terms, invoice_created, invoice_event, invoice_value, latest, unpaid,
}
use aqua_orbital.Projections.Blocks.{
  no_canonical_source, Scope, RawEvent, invoice_kind, Projection, LogRow, block_notice,
  entity_notice, Store, check_place, store_log, store_logs, source_at, apply_kind, apply_all,
  append_block, atomic_deployment_block,
}
use aqua_orbital.Projections.Blocks.Laws.{IsIndexed, cursor_at}
use aqua_orbital.Projections.Blocks.Indexed.{
  atomic_deployment_block-IsIndexed, atomic_deployment_block-atomic_deployment_block,
}

abbrev scope : Scope
scope = record { aqua = 21; router = 22; payments = 23; start_block = 10; identity = 1 }

abbrev block_10 : Block
block_10 = record { number = 10; hash = 100; parent_hash = 90 }

abbrev block_11 : Block
block_11 = record { number = 11; hash = 110; parent_hash = 100 }

abbrev raw : RawEvent
raw = record { tx_hash = 1; log_index = 0; emitter = 23; topic = 6; payload = 7 }

abbrev terms : Terms
terms = record { amount_due = 900; expires_at = 2000; recipients = 6; memo_hash = 5 }

abbrev projection : Projection
projection = record {
  entity = 1;
  maker = 9;
  tx_hash = 1;
  log_index = 0;
  kind = invoice_kind (invoice_created terms);
  text = 8;
}

abbrev at_10 : Store
at_10 = record {
  state = some (indexing, false);
  deployment = some 1;
  cursor = some (record { height = 10; hash = 100 });
  chain = some (record { height = 10; hash = 100 });
  blocks = block_10 ∷ [];
  logs = [];
  coverage = record { height = 10; hash = 100 } ∷ [];
  unswapped = [];
  strategies = record { snapshots = []; receipts = [] };
  invoices = [];
  notices = [];
}

abbrev opened : Invoices.Snapshot
opened = record {
  invoice_id = 1;
  merchant = 9;
  terms = terms;
  status = unpaid;
  version = 1;
  payment = none;
  created = source_at block_11 projection;
  source = source_at block_11 projection;
}

abbrev logged : LogRow
logged = record {
  block_hash = 110;
  tx_hash = 1;
  log_index = 0;
  emitter = 23;
  topic = some 6;
  payload = 7;
  decoded = some 8;
}

abbrev at_11 : Store
at_11 = record {
  state = some (indexing, false);
  deployment = some 1;
  cursor = some (record { height = 11; hash = 110 });
  chain = some (record { height = 11; hash = 110 });
  blocks = block_11 ∷ block_10 ∷ [];
  logs = logged ∷ [];
  coverage = record { height = 11; hash = 110 } ∷ record { height = 10; hash = 100 } ∷ [];
  unswapped = [];
  strategies = record { snapshots = []; receipts = [] };
  invoices = opened ∷ [];
  notices = entity_notice 11 110 projection ∷ block_notice 11 110 ∷ [];
}

run : atomic_deployment_block scope block_11 (raw ∷ []) (projection ∷ []) at_10 ≡ ok at_11
unfolding atomic_deployment_block append_block check_place store_logs store_log apply_all apply_kind
    invoice_event invoice_value latest Invoices.insert_snapshot
run = refl

-- A projection without its log is refused.
sourceless :
    atomic_deployment_block scope block_11 [] (projection ∷ []) at_10 ≡ err no_canonical_source
unfolding atomic_deployment_block append_block check_place store_logs apply_all
sourceless = refl

atomic_deployment_block-IsIndexed_example :
    IsIndexed scope at_11 × (at_11.cursor ≡ some (cursor_at block_11))
atomic_deployment_block-IsIndexed_example =
    atomic_deployment_block-IsIndexed scope block_11 (raw ∷ []) (projection ∷ []) at_10 at_11 run
      (record { tip = refl; counted = refl })

atomic_deployment_block-atomic_deployment_block_example :
    atomic_deployment_block scope block_11 [] [] at_11 ≡ ok at_11
atomic_deployment_block-atomic_deployment_block_example =
    atomic_deployment_block-atomic_deployment_block scope block_11 (raw ∷ []) [] (projection ∷ [])
      [] at_10 at_11 run
