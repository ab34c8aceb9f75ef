-- ===== src/Chain/Tests.antt =====
-- A store of three blocks: the third is ingested (`atomicBlock`), and then found to be off the chain
-- (`reconcileCanonicalChain`).
use aqua_orbital.Prelude.{◌≡◌, refl, true, false, List, [], ◌∷◌, some, ok}
use aqua_orbital.Chain.Table.{
  Block, Cursor, Db, Event, indexing, resync_required, rollback_cursors, block_notice, reorg_notice,
  Coverage,
}
use aqua_orbital.Chain.Table.Laws.{IsValid}
use aqua_orbital.Chain.Ingest.{Log, atomic_block}
use aqua_orbital.Chain.Ingest.Laws.{Ingested, atomic_block-Ingested, atomic_block-atomic_block}
use aqua_orbital.Chain.Reorg.{
  rolled_back, resync_needed, reconcile, reconcile_rows, settle_ancestor, rollback, answer,
}
use aqua_orbital.Chain.Reorg.Laws.{Effect}
use aqua_orbital.Chain.Reorg.Outcomes.{reconcile-IsSound}
use aqua_orbital.Chain.History.{ingest, reconciled, here, after}
use aqua_orbital.Chain.History.Laws.{Reach-IsValid, Reach-stuck}
use aqua_orbital.Chain.History.Undo.{Undone, reconcile-atomic_block}

abbrev block_10 : Block
block_10 = record { number = 10; hash = 100; parent_hash = 90 }

abbrev block_11 : Block
block_11 = record { number = 11; hash = 110; parent_hash = 100 }

abbrev block_12 : Block
block_12 = record { number = 12; hash = 120; parent_hash = 110 }

abbrev other_12 : Block
other_12 = record { number = 12; hash = 121; parent_hash = 110 }

abbrev log : Log
log = record { tx_hash = 1; log_index = 0; emitter = 5; topic = some 6; payload = 7 }

abbrev event : Event
event = record {
  block_hash = 110;
  tx_hash = 1;
  log_index = 0;
  emitter = 5;
  topic = some 6;
  payload = 7;
}

abbrev at_11 : Cursor
at_11 = record { height = 11; hash = 110 }

abbrev at_12 : Cursor
at_12 = record { height = 12; hash = 120 }

abbrev deployed : Coverage
deployed = record { deployment = 3; height = 11; hash = 110 }

-- Two blocks, the second with an event.
abbrev store : Db
store = record {
  blocks = block_11 ∷ block_10 ∷ [];
  events = event ∷ [];
  cursor = some at_11;
  state = some (indexing, false);
  coverage = deployed ∷ [];
  deployment_cursors = deployed ∷ [];
  notices = [];
}

abbrev store_12 : Db
store_12 = record store {
  blocks = block_12 ∷ block_11 ∷ block_10 ∷ [];
  events = event ∷ record event { block_hash = 120 } ∷ [];
  cursor = some at_12;
  notices = block_notice 12 120 ∷ [];
}

abbrev store_back : Db
store_back = record store { notices = block_notice 12 120 ∷ reorg_notice 11 110 12 120 1 ∷ [] }

abbrev window : List Block
window = other_12 ∷ block_11 ∷ block_10 ∷ []

store-IsValid : IsValid store
store-IsValid = record {
  linked = (refl, refl, tt);
  tip = (refl, refl);
  distinct = (refl, (refl, tt));
  events_stored = (refl, tt);
  coverage_stored = (refl, tt);
}

store_12-IsValid : IsValid store_12
store_12-IsValid = record {
  linked = (refl, refl, (refl, refl, tt));
  tip = (refl, refl);
  distinct = (refl, (refl, (refl, tt)));
  events_stored = (refl, (refl, tt));
  coverage_stored = (refl, tt);
}

ingests : atomic_block block_12 (log ∷ []) store ≡ ok store_12
unfolding atomic_block
ingests = refl

rolls_back : reconcile at_12 window store_12 ≡ ok (answer rolled_back at_11 1, store_back)
unfolding reconcile reconcile_rows settle_ancestor rollback rollback_cursors
rolls_back = refl

atomic_block-Ingested_example : Ingested block_12 (log ∷ []) store store_12
atomic_block-Ingested_example =
    atomic_block-Ingested block_12 (log ∷ []) store store_12 store-IsValid ingests

atomic_block-atomic_block_example : atomic_block block_12 [] store_12 ≡ ok store_12
atomic_block-atomic_block_example =
    atomic_block-atomic_block block_12 (log ∷ []) [] store store_12 ingests

reconcile-IsSound_example :
    Effect window at_12 store_12 rolled_back 1 store_back × IsValid store_back
reconcile-IsSound_example =
    reconcile-IsSound at_12 window store_12 store_back (answer rolled_back at_11 1) store_12-IsValid
      rolls_back

Reach-IsValid_example : IsValid store_back
Reach-IsValid_example =
    Reach-IsValid store store_back
      (after (ingest block_12 (log ∷ []) ingests)
        (after (reconciled at_12 window (answer rolled_back at_11 1) rolls_back) here))
      store-IsValid

-- The same store, waiting for a resync.
abbrev stuck : Db
stuck = record store { state = some (resync_required, true) }

stays : reconcile at_11 (block_11 ∷ []) stuck ≡ ok (answer resync_needed at_11 0, stuck)
unfolding reconcile reconcile_rows
stays = refl

Reach-stuck_example : stuck ≡ stuck
Reach-stuck_example =
    Reach-stuck stuck stuck
      (after (reconciled at_11 (block_11 ∷ []) (answer resync_needed at_11 0) stays) here) refl

reconcile-atomic_block_example : (rolled_back ≡ rolled_back) × Undone store 1 store_back
reconcile-atomic_block_example =
    reconcile-atomic_block block_12 (log ∷ []) at_11 window store store_12 store_back
      (answer rolled_back at_11 1) store-IsValid refl refl ingests refl refl rolls_back
