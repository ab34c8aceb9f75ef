-- ===== src/Deploy/Arc.antt =====
-- A deployment on Arc (scripts/lib/arc-deployment.mjs): the steps of a plan, each reviewed, signed in a
-- wallet and verified from its receipt. A hexadecimal text is a number; a field is `none` where it is
-- null, and a missing one is a number that stands for no text. A quantity is `none` where `BigInt` throws.
-- The provider is asked by a number for the place in the run, and answers `none` where the call throws.

pub mod Reviews
pub mod Refreshed
pub mod Status
pub mod Bindings
pub mod Completion
pub mod Inspect
use aqua_orbital.Prelude.{
  ℕ, zero, suc, ◌+◌, ◌*◌, ◌^◌, Bool, true, false, ◌&&◌, ◌||◌, not, List, [], ◌∷◌, ◌++◌, Option,
  none, some, ltb, leb, ◌==◌, length, if◌then◌else◌, Result, ok, err, ◌>>=◌, ◌>>◌, fail_if, or_fail,
  any, includes,
}
use aqua_orbital.Text.{same_text}
use aqua_orbital.Indexer.Canonical.{same_option}
use aqua_orbital.Sdk.Codec.{big_endian}
use aqua_orbital.Deploy.Runtime as Runtime
use aqua_orbital.Deploy.Runtime.{Location, Runtime, verify_runtime, value_of}

pub data Error : Type 0 where
  rpc_failed not_a_number missing_step missing_aqua : Error
  invalid_review review_mismatch invalid_review_quantity review_exceeds_bounds : Error
  missing_transaction transaction_mismatch transaction_exceeds_review : Error
  confirmed_unavailable transaction_reverted absent_from_block receipt_mismatch : Error
  receipt_changed library_mismatch runtime_changed runtime_missing unexpected_pending : Error
  wrong_chain no_block_identity other_pending no_reviewed_step : Error
  usdc_changed nonce_changed other_step base_fee_exceeds insufficient_balance gas_exceeds : Error
  noncanonical_getter binding_mismatch block_orphaned : Error
  other_state incomplete has_blockers other_active no_report report_mismatch : Error
  invalid_evidence incomplete_source no_deployer two_ways : Error
  runtime_error : Runtime.Error → Error

-- A step of a plan. A step that creates no contract has no address.
pub record Step : Type 0 where
  pub address : Option ℕ
  pub to : Option ℕ
  pub input : ℕ
  pub nonce : ℕ
  pub template : Option (List ℕ)
  pub references : Option (List (Option ℕ × List Location))
  pub is_library : Bool

-- The transaction of a review. A quantity is `none` where it is no hexadecimal text.
pub record ReviewedTransaction : Type 0 where
  pub has_other_keys : Bool
  pub from : Option ℕ
  pub to : Option ℕ
  pub input : Option ℕ
  pub nonce : Option ℕ
  pub value : Option ℕ
  pub chain_id : Option ℕ
  pub gas : Option ℕ
  pub max_fee : Option ℕ
  pub max_priority : Option ℕ

pub record Review : Type 0 where
  pub step : ℕ
  pub transaction : Option ReviewedTransaction
  pub simulated : Option (List ℕ)

-- A transaction as the provider gives it: the fee is `maxFeePerGas??gasPrice`, the priority
-- `maxPriorityFeePerGas??0`.
pub record Transaction : Type 0 where
  pub hash : Option ℕ
  pub from : Option ℕ
  pub to : Option ℕ
  pub input : Option ℕ
  pub chain_id : Option ℕ
  pub nonce : Option ℕ
  pub value : Option ℕ
  pub gas : Option ℕ
  pub max_fee : Option ℕ
  pub max_priority : Option ℕ
  pub block_hash : Option ℕ
  pub block_number : Option ℕ

-- A receipt, with its JSON text.
pub record Receipt : Type 0 where
  pub has_succeeded : Bool
  pub gas_used : Option ℕ
  pub transaction_hash : Option ℕ
  pub block_hash : Option ℕ
  pub block_number : Option ℕ
  pub from : Option ℕ
  pub to : Option ℕ
  pub contract_address : Option ℕ
  pub text : ℕ

pub record BlockAnswer : Type 0 where
  pub hash : Option ℕ
  pub number : Option ℕ
  pub transactions : List ℕ

-- A confirmed step.
pub record Entry : Type 0 where
  pub hash : ℕ
  pub review : Option Review
  pub receipt : Option Receipt
  pub runtime : Option Runtime

pub record Plan : Type 0 where
  pub deployer : ℕ
  pub gas_limit_cap : ℕ
  pub steps : List Step

-- The state that is kept beside a plan.
pub record State : Type 0 where
  pub confirmed : List Entry
  pub pending_hash : Option ℕ
  pub review : Option Review

-- The calls of the provider. The code is asked at a block or, without one, at the latest.
pub record Rpc : Type 0 where
  pub chain_id : ℕ → Option ℕ
  pub transaction : ℕ → ℕ → Option (Option Transaction)
  pub receipt : ℕ → ℕ → Option (Option Receipt)
  pub block : ℕ → Option ℕ → Option (Option BlockAnswer)
  pub code : ℕ → ℕ → Option ℕ → Option (Option (List ℕ))

-- `ARC.chainId`
abbrev pub arc_chain_id : ℕ
arc_chain_id = 5042002

-- `BigInt(x)`
abbrev pub number : Option ℕ → Result Error ℕ
number o = or_fail o not_a_number

abbrev pub quantity : Option ℕ → Result Error ℕ
quantity o = or_fail o invalid_review_quantity

abbrev pub as_error {ℓ} : {A : Type ℓ} → Result Runtime.Error A → Result Error A
as_error (err e) = err (runtime_error e)
as_error (ok a) = ok a

-- The code that a step was simulated with, if it creates a contract.
abbrev pub check_simulated : Step → Option ℕ → Option (List ℕ) → Result Error (Unit {0})
check_simulated step none simulated = ok tt
check_simulated step (some a) simulated =
    as_error (verify_runtime step.template step.references simulated simulated) >>= λ r. ok tt

abbrev pub transaction_of : Option Review → Option ReviewedTransaction
transaction_of none = none
transaction_of (some r) = r.transaction

abbrev pub simulated_of : Option Review → Option (List ℕ)
simulated_of none = none
simulated_of (some r) = r.simulated

-- The tests of a review's transaction.
unfoldable pub check_reviewed : Plan → Step → ReviewedTransaction → Result Error (Unit {0})
check_reviewed plan step tx = do
  fail_if tx.has_other_keys invalid_review
  fail_if (not (same_option tx.from (some plan.deployer))) review_mismatch
  fail_if (not (same_option tx.to step.to)) review_mismatch
  fail_if (not (same_option tx.input (some step.input))) review_mismatch
  nonce ← quantity tx.nonce
  value ← quantity tx.value
  chain_id ← quantity tx.chain_id
  gas ← quantity tx.gas
  max_fee ← quantity tx.max_fee
  max_priority ← quantity tx.max_priority
  fail_if
      (not (nonce == step.nonce)
        || not (value == 0)
        || not (chain_id == arc_chain_id)
        || (gas == 0)
        || ltb plan.gas_limit_cap gas
        || ltb max_fee max_priority)
      review_exceeds_bounds

-- `validateReview`
unfoldable pub validate_review : Plan → Step → Option Review → Result Error ReviewedTransaction
validate_review plan step review = do
  tx ← or_fail (transaction_of review) invalid_review
  check_reviewed plan step tx
  check_simulated step step.address (simulated_of review)
  ok tx

abbrev pub is_missing : Option Review → Bool
is_missing none = true
is_missing (some r) = false

abbrev pub is_hash : Option ℕ → Bool
is_hash none = false
is_hash (some h) = ltb h (2 ^ 256)

-- The tests of the quantities of a transaction. Those of a valid review are there.
unfoldable pub check_quantities : Step → ReviewedTransaction → Transaction → Result Error (Unit {0})
check_quantities step reviewed tx = do
  chain_id ← number tx.chain_id
  fail_if (not (chain_id == arc_chain_id)) transaction_mismatch
  nonce ← number tx.nonce
  fail_if (not (nonce == step.nonce)) transaction_mismatch
  value ← number tx.value
  fail_if (not (value == 0)) transaction_mismatch
  gas ← number tx.gas
  most ← quantity reviewed.gas
  fail_if (ltb most gas || (gas == 0)) transaction_exceeds_review
  fee ← number tx.max_fee
  max_fee ← quantity reviewed.max_fee
  fail_if (ltb max_fee fee) transaction_exceeds_review
  priority ← number tx.max_priority
  max_priority ← quantity reviewed.max_priority
  fail_if (ltb max_priority priority) transaction_exceeds_review

-- `validateTransaction`, of a transaction that the provider has.
unfoldable pub validate_transaction :
    Plan → Step → Option Review → Transaction → Result Error (Unit {0})
validate_transaction plan step review tx = do
  fail_if (not (is_hash tx.hash) || is_missing review) missing_transaction
  reviewed ← validate_review plan step review
  fail_if (not (same_option tx.from (some plan.deployer))) transaction_mismatch
  fail_if (not (same_option tx.to step.to)) transaction_mismatch
  fail_if (not (same_option tx.input (some step.input))) transaction_mismatch
  check_quantities step reviewed tx

-- Whether the receipt shows a success within the gas of its transaction.
unfoldable pub check_gas : Transaction → Receipt → Result Error (Unit {0})
check_gas tx receipt = do
  fail_if (not receipt.has_succeeded) transaction_reverted
  used ← number receipt.gas_used
  fail_if (used == 0) transaction_reverted
  gas ← number tx.gas
  fail_if (ltb gas used) transaction_reverted

abbrev pub block_transactions : Option BlockAnswer → List ℕ
block_transactions none = []
block_transactions (some b) = b.transactions

-- The tests of a receipt against its transaction, its block and its step.
unfoldable pub check_receipt :
    Plan → Step → ℕ → Transaction → Receipt → BlockAnswer → Result Error (Unit {0})
check_receipt plan step hash tx receipt b = do
  fail_if (not (same_option tx.hash (some hash))) receipt_mismatch
  fail_if (not (same_option receipt.transaction_hash (some hash))) receipt_mismatch
  fail_if (not (same_option receipt.block_hash b.hash)) receipt_mismatch
  fail_if (not (same_option tx.block_hash b.hash)) receipt_mismatch
  fail_if (not (same_option tx.block_number b.number)) receipt_mismatch
  fail_if (not (same_option receipt.block_number b.number)) receipt_mismatch
  fail_if (not (same_option receipt.from (some plan.deployer))) receipt_mismatch
  fail_if (not (same_option receipt.to step.to)) receipt_mismatch
  fail_if (not (same_option receipt.contract_address step.address)) receipt_mismatch

abbrev pub is_changed : Option Receipt → Receipt → Bool
is_changed none r = false
is_changed (some old) r = not (old.text == r.text)

-- The name `library_deploy_address` is 0, and that of a numeral n is n + 1.
abbrev pub library_deploy_address : ℕ
library_deploy_address = 0

-- Whether a library's own address is the one in its code.
abbrev pub has_own_address : ℕ → Runtime → Bool
has_own_address address r = elim (value_of library_deploy_address r.values) [
  | none ↦ false
  | some v ↦ same_text v (big_endian 32 address)
]

abbrev pub has_values : Runtime → Bool
has_values r = ltb 0 (length r.values)

abbrev pub same_values : List (ℕ × List ℕ) → List (ℕ × List ℕ) → Bool
same_values [] [] = true
same_values ((i, v) ∷ vs) ((j, w) ∷ ws) = (i == j) && same_text v w && same_values vs ws
same_values _ _ = false

-- Whether two runtimes have one length, hash and values.
abbrev pub same_runtime : (List ℕ → ℕ) → Runtime → Runtime → Bool
same_runtime keccak a b =
    (length a.code == length b.code)
    && (keccak a.code == keccak b.code)
    && same_values a.values b.values

-- The evidence of an entry, compared with the runtime that is read.
abbrev pub check_evidence :
    (List ℕ → ℕ) → Runtime → Option Runtime → Option Receipt → Result Error (Unit {0})
check_evidence keccak r (some old) receipt =
    fail_if (not (same_runtime keccak r old)) runtime_changed
check_evidence keccak r none (some receipt) = err runtime_missing
check_evidence keccak r none none = ok tt

-- The part of `verifyEntry` for a step that creates a contract.
unfoldable pub check_runtime :
    (List ℕ → ℕ) → Rpc → ℕ → Step → ℕ → Entry → Option ℕ → Result Error Runtime
check_runtime keccak rpc clock step address entry block_hash = do
  actual ← or_fail (rpc.code clock address block_hash) rpc_failed
  r ← as_error (verify_runtime step.template step.references (simulated_of entry.review) actual)
  fail_if (step.is_library && has_values r && not (has_own_address address r)) library_mismatch
  found ← or_fail (rpc.code (clock + 1) address none) rpc_failed
  latest ← or_fail found runtime_changed
  fail_if (not (same_text latest r.code)) runtime_changed
  check_evidence keccak r entry.runtime entry.receipt
  ok r

unfoldable pub runtime_of :
    (List ℕ → ℕ) → Rpc → ℕ → Step → Option ℕ → Entry → Option ℕ → Result Error (Option Runtime)
runtime_of keccak rpc clock step none entry block_hash = ok none
runtime_of keccak rpc clock step (some address) entry block_hash =
    check_runtime keccak rpc clock step address entry block_hash >>= λ r. ok (some r)

-- `verifyEntry`
unfoldable pub verify_entry : (List ℕ → ℕ) → Rpc → ℕ → Plan → Step → Entry → Result Error Entry
verify_entry keccak rpc clock plan step entry = do
  found_tx ← or_fail (rpc.transaction clock entry.hash) rpc_failed
  found_receipt ← or_fail (rpc.receipt clock entry.hash) rpc_failed
  tx ← or_fail found_tx confirmed_unavailable
  receipt ← or_fail found_receipt confirmed_unavailable
  validate_transaction plan step entry.review tx
  check_gas tx receipt
  found_block ← or_fail (rpc.block clock receipt.block_number) rpc_failed
  fail_if (not (includes entry.hash (block_transactions found_block))) absent_from_block
  b ← or_fail found_block absent_from_block
  check_receipt plan step entry.hash tx receipt b
  fail_if (is_changed entry.receipt receipt) receipt_changed
  runtime ← runtime_of keccak rpc clock step step.address entry b.hash
  ok (record {
    hash = entry.hash;
    review = entry.review;
    receipt = some receipt;
    runtime = runtime;
  })

-- The loop over the confirmed entries, which leaves the other steps.
unfoldable pub verify_all :
    (List ℕ → ℕ) → Rpc → ℕ → Plan → List Step → List Entry → Result Error (List Step)
verify_all keccak rpc clock plan steps [] = ok steps
verify_all keccak rpc clock plan [] (e ∷ es) = err missing_step
verify_all keccak rpc clock plan (s ∷ ss) (e ∷ es) = do
  verified ← verify_entry keccak rpc clock plan s e
  verify_all keccak rpc (clock + 2) plan ss es

-- An entry of a pending transaction, before it is verified.
abbrev pub pending_entry : ℕ → State → Entry
pending_entry hash state = record {
  hash = hash;
  review = state.review;
  receipt = none;
  runtime = none;
}

abbrev pub with_entry : Entry → State → State
with_entry e state = record {
  confirmed = state.confirmed ++ e ∷ [];
  pending_hash = none;
  review = none;
}

abbrev pub confirm :
    (List ℕ → ℕ) → Rpc → ℕ → Plan → Step → ℕ → State → Option Receipt → Result Error State
confirm keccak rpc clock plan step hash state none = ok state
confirm keccak rpc clock plan step hash state (some receipt) =
    verify_entry keccak rpc clock plan step (pending_entry hash state) >>= λ e.
    ok (with_entry e state)

abbrev pub promote :
    (List ℕ → ℕ) → Rpc → ℕ → Plan → Step → ℕ → State → Option Transaction → Result Error State
promote keccak rpc clock plan step hash state none = ok state
promote keccak rpc clock plan step hash state (some tx) = do
  validate_transaction plan step state.review tx
  receipt ← or_fail (rpc.receipt clock hash) rpc_failed
  confirm keccak rpc (clock + 2) plan step hash state receipt

-- The part of `refresh` for a pending transaction, with the steps that are left.
unfoldable pub settle_pending :
    (List ℕ → ℕ) → Rpc → ℕ → Plan → List Step → State → Option ℕ → Result Error State
settle_pending keccak rpc clock plan rest state none = ok state
settle_pending keccak rpc clock plan [] state (some hash) = err unexpected_pending
settle_pending keccak rpc clock plan (step ∷ rest) state (some hash) = do
  tx ← or_fail (rpc.transaction clock hash) rpc_failed
  promote keccak rpc clock plan step hash state tx

-- `refresh`
unfoldable pub refresh : (List ℕ → ℕ) → Rpc → ℕ → Plan → State → Result Error State
refresh keccak rpc clock plan state = do
  rest ← verify_all keccak rpc clock plan plan.steps state.confirmed
  settle_pending keccak rpc (clock + 2 * length state.confirmed) plan rest state state.pending_hash
