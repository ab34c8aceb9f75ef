-- ===== src/Projections/Empty/Tests.antt =====
-- A deployment that starts with two empty blocks (packages/db/src/empty-materialization.ts).
use aqua_orbital.Prelude.{◌≡◌, refl, [], ◌∷◌, none, some, ok, err}
use aqua_orbital.Chain.Table.{Block}
use aqua_orbital.Projections.Blocks.{Scope, Store}
use aqua_orbital.Projections.Blocks.Laws.{IsIndexed, cursor_at}
use aqua_orbital.Projections.Empty.{
  last_of, with_range, atomic_empty_blocks, check_links, check_range, settle_range,
  reorg_requires_replay,
}
use aqua_orbital.Projections.Empty.Laws.{atomic_empty_blocks-IsIndexed}

abbrev scope : Scope
scope = record { aqua = 21; router = 22; payments = 23; start_block = 10; identity = 1 }

abbrev block_10 : Block
block_10 = record { number = 10; hash = 100; parent_hash = 90 }

abbrev block_11 : Block
block_11 = record { number = 11; hash = 110; parent_hash = 100 }

abbrev empty_store : Store
empty_store = record {
  state = none;
  deployment = none;
  cursor = none;
  chain = none;
  blocks = [];
  logs = [];
  coverage = [];
  unswapped = [];
  strategies = record { snapshots = []; receipts = [] };
  invoices = [];
  notices = [];
}

run :
    atomic_empty_blocks scope (block_10 ∷ block_11 ∷ []) empty_store
    ≡ ok (with_range scope block_10 (block_11 ∷ []) empty_store)
unfolding atomic_empty_blocks check_links check_range settle_range
run = refl

-- A range that does not start at the deployment's first block is refused.
late : atomic_empty_blocks scope (block_11 ∷ []) empty_store ≡ err reorg_requires_replay
unfolding atomic_empty_blocks check_links check_range
late = refl

atomic_empty_blocks-IsIndexed_example :
    IsIndexed scope (with_range scope block_10 (block_11 ∷ []) empty_store)
    × ((with_range scope block_10 (block_11 ∷ []) empty_store).cursor
        ≡ some (cursor_at (last_of block_10 (block_11 ∷ []))))
atomic_empty_blocks-IsIndexed_example =
    atomic_empty_blocks-IsIndexed scope block_10 (block_11 ∷ []) empty_store
      (with_range scope block_10 (block_11 ∷ []) empty_store) run
      (record { tip = refl; counted = tt })
