-- ===== src/Sdk.antt =====
-- The parts of the SDK (packages/sdk/src) that the browser and the API share.
pub mod Controls
pub mod Execution
pub mod Amount
pub mod Errors
pub mod Codec
pub mod Plans
