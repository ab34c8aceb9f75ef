-- ===== src/Chain/History.antt =====
-- The tables of a chain over time: blocks are ingested (`atomicBlock`, packages/db/src/index.ts) and the
-- chain is reconciled (`reconcileCanonicalChain`, packages/db/src/reorg.ts) in any order, each call in a
-- transaction of its own that holds the chain's advisory lock.
pub mod Laws
pub mod Undo
use aqua_orbital.Prelude.{◌≡◌, List, ok}
use aqua_orbital.Chain.Table.{Block, Cursor, Db}
use aqua_orbital.Chain.Ingest.{Log, atomic_block}
use aqua_orbital.Chain.Reorg.{Reconciliation, reconcile}

-- One committed transaction.
pub data Step : Db → Db → Type 0 where
  ingest :
      {db db' : Db} (b : Block) (logs : List Log) → atomic_block b logs db ≡ ok db' → Step db db'
  reconciled :
      {db db' : Db} (expected : Cursor) (canonical : List Block) (r : Reconciliation)
      → reconcile expected canonical db ≡ ok (r, db')
      → Step db db'

pub data Reach : Db → Db → Type 0 where
  here : {db : Db} → Reach db db
  after : {db mid db' : Db} → Step db mid → Reach mid db' → Reach db db'
