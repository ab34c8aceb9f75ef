-- ===== src/Lib.antt =====
-- The off-chain part of Orbital, a multi-asset stablecoin exchange: the indexer that keeps a copy
-- of the chain's blocks and events in a database, and the API that quotes and plans payments from
-- it.
--
-- The parts, and the files that model them:
-- * PaymentSearch (apps/api/src/payment-search.ts). `search_payment_input` is searchPaymentInput:
--   it doubles an input until the probe quotes it, then halves the gap below it. `stage` is the
--   inner function of that name, `expand` and `refine` the two loops. Retain is copyRetained, the
--   bounded copy that the search keeps of a probe's value.
-- * Indexer/Worker (apps/indexer/src/worker.ts). `sync_once` is syncOnce: one round that follows
--   the chain, with `follow` for the reconciliation and `append` for the new block.
-- * Indexer/Canonical, Indexer/Events, Indexer/Deployment and Indexer/Round
--   (apps/indexer/src/materializer.ts). `sync_deployment_once` is syncDeploymentOnce, one round
--   of a deployment's index: it follows the chain, reads the next blocks with `gather` and
--   commits them with `commit_all`. Canonical has checkedBlock and canonicalLogs, Events has
--   `decode`, `projection` and `prepare_projections`, which are decode, projection and
--   prepareProjections, and Deployment has deploymentScope and the tables of the chain as the
--   reorganisation sees them. Indexer/Backfill (packages/db/src/materialization.ts) has
--   `pending_swap_backfill` and `atomic_swap_backfill`, which are pendingSwapBackfill and
--   atomicSwapBackfill; the round runs them before it reads the next blocks.
-- * Projections (packages/db/src/materialization.ts). Strategies has `strategy_event` and
--   `swap_event`, Invoices has `invoice_event`, which are strategyEvent, swapEvent and
--   invoiceEvent on the rows of one deployment. Strategies/Lives and Invoices/Settled have what
--   the rows of one strategy or invoice are. Blocks has `atomic_deployment_block`, which is
--   atomicDeploymentBlock. Empty has `atomic_empty_blocks`, which is atomicEmptyDeploymentBlocks
--   (packages/db/src/empty-materialization.ts).
-- * Api/QuoteCache (apps/api/src/quote-cache.ts). `run` is any sequence of the operations that
--   createQuoteCache returns, on the state `Cache`. Api/Readiness (apps/api/src/readiness.ts) has
--   `check_readiness`, which is checkReadiness.
-- * Sdk/Controls (packages/sdk/src/swap-controls.ts). `maximum_swap_input` and
--   `estimate_maximum_swap` are maximumSwapInput and estimateMaximumSwap.
-- * Sdk/Amount (packages/sdk/src/codec.ts). `parse_amount`, `format_amount` and `fee_in` are
--   parseAmount, formatAmount and feeIn, on texts as lists of character codes.
-- * Shared (packages/shared/src/index.ts). The records that the other parts exchange, and
--   `is_manifest`, `is_swap_quote`, `is_invoice` (Shared/Invoices) and `is_detail`
--   (Shared/Observations) for what their schemas test of them.
-- * Sdk/Codec (packages/sdk/src/codec.ts). `validate_config`, `build_order`, `taker_data` and
--   `approval_plan` are validateConfig, buildOrder, takerData and approvalPlan, on bytes as lists
--   of numbers; the ABI encoding and the hash are the parameter `Abi`.
-- * Sdk/Plans (packages/sdk/src/plans.ts). One function for each builder of a transaction: Swaps,
--   Makers and Invoices. Intents has `rebuild`, the switch over the intents, and
--   `validate_transaction_plan`, which is validateTransactionPlan. Targets has where the plans
--   go.
-- * Sdk/Execution (packages/sdk/src/execution.ts). `execute_reviewed` is executeReviewed, with
--   the calls that it makes of its port as a list, and `resume_transaction` is resumeTransaction.
-- * Chain (packages/db/src/reorg.ts, packages/db/src/index.ts). Table is the state: the rows of
--   one chain in the tables of packages/db/migrations, as far as these files use them.
--   `reconcile` is reconcileCanonicalChain, `atomic_block` is atomicBlock, `rollback_cursors` is
--   rollbackDeploymentCursors of packages/db/src/materialization.ts. History puts their
--   transactions in sequence: each holds the chain's advisory lock, so they follow one another.
-- * Deploy/Runtime (scripts/lib/local-deployment.mjs). `verify_runtime` is verifyRuntime, on
--   lists of bytes. Deploy/Arc (scripts/lib/arc-deployment.mjs) has `validate_review`,
--   `validate_transaction`, `verify_entry` and `refresh`, which are validateReview,
--   validateTransaction, verifyEntry and refresh on a plan and its saved state; Deploy/Arc/Status
--   has `get_arc_status` and `record_arc_transaction`, which are getArcStatus and
--   recordArcTransaction once the plan and the state are loaded. Deploy/Arc/Bindings has
--   `bindings`, the getters that are read and compared, and Deploy/Arc/Completion has
--   `verified_completion`, `activate` and `verify_active`, which are verifiedCompletion,
--   activateArcDeployment and verifyActiveArcDeployment. Deploy/Arc/Inspect has `evidence_record`
--   and `inspect_arc`, which are evidenceRecord and inspectArc.
-- * Prelude holds the shared operators, tests and lemmas, Text the digits and numerals that the
--   texts are tested for.
--
-- Conventions. Hashes, addresses, topics and payloads are only compared, so they are numbers; a
-- bigint that the code keeps non-negative is a natural number, and a guard against negative ones
-- is left out. A function that throws returns a result whose error type is the component's own; a
-- transaction that throws is rolled back, so its error leaves the tables as they were. What the
-- caller or the network supplies (the checkpoint, the probe) is a function of the number of calls
-- made so far, so that it may depend on all that went before.
--
-- Bounds and fuel. The first loop of the search is structural on the steps left. The second runs
-- on `max_refinements + 1` units of fuel, one more than the refinements allowed, and the results
-- include that it never runs out. An amount is printed with at most 78 digits, which is enough
-- below 2^256.
--
-- Not modelled: the contracts, the web application, the HTTP and wallet glue, and the reading of
-- configuration: they pass data on to these parts or to libraries.
pub mod Prelude
pub mod Text
pub mod Shared
pub mod PaymentSearch
pub mod Chain
pub mod Projections
pub mod Indexer
pub mod Sdk
pub mod Deploy
pub mod Api
