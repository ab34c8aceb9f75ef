-- ===== src/Indexer.antt =====
-- apps/indexer/src: the worker that follows the chain.
pub mod Worker
pub mod Canonical
pub mod Events
pub mod Deployment
pub mod Backfill
pub mod Round
