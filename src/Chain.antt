-- ===== src/Chain.antt =====
-- The block store of the indexer: the tables of packages/db/migrations that packages/db/src/reorg.ts
-- and `atomicBlock` of packages/db/src/index.ts read and write.
pub mod Table
pub mod Reorg
pub mod Ingest
pub mod History
mod Tests
