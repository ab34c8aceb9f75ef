-- ===== src/Projections/Strategies/Tests.antt =====
-- A strategy that is activated, swapped with once across two ticks, and retired
-- (packages/db/src/materialization.ts).
use aqua_orbital.Prelude.{ℕ, ◌≡◌, refl, true, false, [], ◌∷◌, Option, some, ok}
use aqua_orbital.Projections.{Scope, Source, Config}
use aqua_orbital.Projections.Strategies.{
  Lifecycle, is_active, active, retired, Snapshot, Swap, strategy_activated, strategy_retired,
  strategy_swap, Event, Receipt, Tables, prior_of, follows, check_path, insert_receipt, swap_rows,
  swap_event, insert_snapshot, strategy_value, strategy_event, strategy_events,
}
use aqua_orbital.Projections.Strategies.Histories.{IsHistory, strategy_events-IsHistory}
use aqua_orbital.Projections.Strategies.Paths.{IsReceipt, swap_event-IsReceipt}

abbrev scope : Scope
scope = record { aqua = 21; router = 22 }

abbrev config : Config
config = record {
  text = 1;
  tokens = 11 ∷ 12 ∷ [];
  decimals = 6 ∷ 6 ∷ [];
  fee_ppm = 500;
  tick_keys = 100 ∷ 200 ∷ 999 ∷ [];
}

abbrev at : (block log : ℕ) → Source
at block log = record { block_number = block; block_hash = block; tx_hash = 1; log_index = log }

abbrev activation : Event
activation = record {
  entity = 5;
  maker = 9;
  source = at 10 0;
  kind = strategy_activated 3 config 0 4;
}

abbrev swap : Swap
swap = record {
  taker = 7;
  recipient = 8;
  token_in_index = 0;
  token_out_index = 1;
  gross_input = some 1000;
  net_input = some 999;
  fee = some 1;
  amount_out = some 990;
  version = some 2;
  crossings = (some 100, false) ∷ (some 200, false) ∷ (some 200, true) ∷ [];
}

abbrev swapped : Event
swapped = record { entity = 5; maker = 9; source = at 10 3; kind = strategy_swap swap }

abbrev retirement : Event
retirement = record { entity = 5; maker = 9; source = at 12 0; kind = strategy_retired (some 3) }

abbrev no_rows : Tables
no_rows = record { snapshots = []; receipts = [] }

abbrev row : Lifecycle → ℕ → Source → Snapshot
row lifecycle version source = record {
  order_hash = 5;
  maker = 9;
  config_hash = 3;
  config = config;
  maker_nonce = 0;
  tokens = 4;
  lifecycle = lifecycle;
  version = version;
  source = source;
}

abbrev receipt : Receipt
receipt = record {
  order_hash = 5;
  version = 2;
  gross_input = 1000;
  net_input = 999;
  fee = 1;
  fee_ppm = 500;
  amount_out = 990;
  token_in = 11;
  token_out = 12;
  source = at 10 3;
}

abbrev all_rows : Tables
all_rows = record {
  snapshots = row retired 3 (at 12 0) ∷ row active 2 (at 10 3) ∷ row active 1 (at 10 0) ∷ [];
  receipts = receipt ∷ [];
}

run : strategy_events scope (activation ∷ swapped ∷ retirement ∷ []) no_rows ≡ ok all_rows
unfolding strategy_events strategy_event strategy_value swap_event swap_rows follows prior_of
    check_path insert_receipt insert_snapshot
run = refl

-- A swap that is decoded after the retirement is taken from the row before it.
backfilled : strategy_event scope swapped (record all_rows { receipts = [] }) ≡ ok all_rows
unfolding strategy_event strategy_value swap_event swap_rows follows prior_of check_path
    insert_receipt insert_snapshot
backfilled = refl

strategy_events-IsHistory_example : IsHistory all_rows.snapshots
strategy_events-IsHistory_example =
    strategy_events-IsHistory scope (activation ∷ swapped ∷ retirement ∷ []) no_rows all_rows run
      ((refl, (refl, tt)), ((refl, tt), (tt, tt))) (tt, (tt, (tt, tt)))
      (record { ordered = tt; lives = λ order. tt })

swap_event-receipt :
    swap_event scope swapped swap (some (row active 1 (at 10 0))) []
    ≡ ok ((2, row active 1 (at 10 0)), receipt ∷ [])
unfolding swap_event follows swap_rows check_path insert_receipt
swap_event-receipt = refl

swap_event-IsReceipt_example :
    (prior : Snapshot) × (◌≡◌ {A = Option Snapshot} (some (row active 1 (at 10 0))) (some prior))
    × (is_active prior.lifecycle ≡ true)
    × (swapped.maker ≡ prior.maker)
    × (r : Receipt) × (receipt ∷ [] ≡ r ∷ [])
    × IsReceipt swapped swap prior r
swap_event-IsReceipt_example =
    swap_event-IsReceipt scope swapped swap (some (row active 1 (at 10 0))) []
      ((2, row active 1 (at 10 0)), receipt ∷ []) swap_event-receipt
