-- ===== src/Api.antt =====
-- The API server (apps/api/src).
pub mod QuoteCache
pub mod Readiness
