-- ===== src/Deploy.antt =====
-- The scripts that deploy the contracts (scripts/lib).
pub mod Runtime
pub mod Arc
