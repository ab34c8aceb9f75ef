-- ===== src/Sdk/Execution.antt =====
-- packages/sdk/src/execution.ts: a reviewed transaction is sent once and followed to its receipt.
-- Addresses and hashes are compared in any case, so they are numbers, and `none` stands for a text that
-- is none. Gas, fees and balances are naturals. Each call of the port is asked by the number of calls
-- made before, and answers `none` where it rejects.
pub mod Laws
pub mod Recovery
mod Tests
use aqua_orbital.Prelude.{
  ℕ, ◌+◌, ◌*◌, Bool, true, false, ◌&&◌, ◌||◌, not, List, [], ◌∷◌, Option, none, some, ltb, leb,
  ◌==◌, if◌then◌else◌, Result, ok, err, ◌>>=◌, ◌>>◌, fail_if, or_fail,
}

-- `TransactionPlan`. The data is its number of bytes, if it is a text of whole bytes, and a number that
-- stands for them.
pub record Plan : Type 0 where
  pub chain_id : Option ℕ
  pub account : Option ℕ
  pub to : Option ℕ
  pub value : ℕ
  pub byte_count : Option ℕ
  pub bytes : ℕ
  pub label : ℕ

pub record Identity : Type 0 where
  pub account : Option ℕ
  pub chain_id : ℕ

pub record Fees : Type 0 where
  pub gas : ℕ
  pub max_fee : ℕ
  pub priority_fee : Option ℕ

pub record Estimate : Type 0 where
  pub fees : Fees
  pub native_balance : ℕ
  pub native_spend : Option ℕ

pub data Status : Type 0 where
  success reverted other : Status

-- `has_valid_gas` says whether the gas and its price are each missing or a natural number.
pub record Receipt : Type 0 where
  pub hash : Option ℕ
  pub repriced_from : Option ℕ
  pub status : Status
  pub block_number : Option ℕ
  pub has_valid_gas : Bool

-- `PendingTransaction`
pub record Pending : Type 0 where
  pub schema_version : ℕ
  pub hash : Option ℕ
  pub chain_id : Option ℕ
  pub account : Option ℕ
  pub label : ℕ

pub data Error : Type 0 where
  invalid_plan network_changed wallet_changed insufficient_balance invalid_hash : Error
  invalid_receipt invalid_receipt_gas invalid_record select_network port_failed : Error
  unsaved : Pending → Error

-- The calls of the port and of `persist`.
pub data Call : Type 0 where
  identity estimate : Call
  send : Plan → Fees → Call
  persist : Pending → Call
  receipt : Option ℕ → Call

-- `ExecutionPort`, and `persist`, which answers whether it kept the record.
pub record Port : Type 0 where
  pub identity : ℕ → Option Identity
  pub estimate : ℕ → Plan → Option Estimate
  pub send : ℕ → Plan → Fees → Option (Option ℕ)
  pub receipt : ℕ → Option ℕ → Option Receipt
  pub persist : ℕ → Pending → Bool

abbrev pub same : Option ℕ → Option ℕ → Bool
same (some a) (some b) = a == b
same _ _ = false

abbrev pub is_read : Option ℕ → Bool
is_read none = false
is_read (some a) = true

abbrev pub is_nonzero : Option ℕ → Bool
is_nonzero none = false
is_nonzero (some a) = ltb 0 a

abbrev pub at_least : ℕ → Option ℕ → Bool
at_least n none = false
at_least n (some a) = leb n a

-- The tests of the plan.
abbrev pub is_plan : Plan → Bool
is_plan p =
    is_nonzero p.account
    && is_nonzero p.to
    && is_nonzero p.chain_id
    && (p.value == 0)
    && at_least 4 p.byte_count

-- `assertIdentity`. An undefined account equals none.
abbrev pub assert_identity : Plan → Option Identity → Result Error (Unit {0})
assert_identity plan none = err port_failed
assert_identity plan (some i) = do
  fail_if (not (same (some i.chain_id) plan.chain_id)) network_changed
  fail_if (not (same i.account plan.account)) wallet_changed

abbrev pub spend_of : Option ℕ → ℕ
spend_of none = 0
spend_of (some n) = n

abbrev pub is_above : Option ℕ → ℕ → Bool
is_above none max = false
is_above (some n) max = ltb max n

-- The tests of the estimate.
abbrev pub is_short : Estimate → Bool
is_short e =
    leb e.fees.gas 0
    || is_above e.fees.priority_fee e.fees.max_fee
    || ltb e.native_balance (e.fees.gas * e.fees.max_fee + spend_of e.native_spend)

abbrev pub is_final : Status → Bool
is_final success = true
is_final reverted = true
is_final other = false

-- Whether a receipt is one of the transaction, or of its repriced successor.
abbrev pub matches : Option ℕ → Receipt → Bool
matches hash r =
    is_read r.hash
    && (same r.hash hash || same r.repriced_from hash)
    && is_final r.status
    && is_read r.block_number

-- `checkedReceipt`, on what the port answers.
abbrev pub checked_receipt : Option ℕ → Option Receipt → Result Error Receipt
checked_receipt hash answer = do
  r ← or_fail answer port_failed
  fail_if (not (matches hash r)) invalid_receipt
  fail_if (not r.has_valid_gas) invalid_receipt_gas
  ok r

abbrev pub record_of : Plan → Option ℕ → Pending
record_of plan hash = record {
  schema_version = 1;
  hash = hash;
  chain_id = plan.chain_id;
  account = plan.account;
  label = plan.label;
}

-- A call that was made before the others.
abbrev pub called {ℓ} : {A : Type ℓ} → Call → A × List Call → A × List Call
called call (a, calls) = (a, call ∷ calls)

-- What follows `persist`.
abbrev pub after_persist : Port → Plan → Option ℕ → Bool → Result Error Receipt × List Call
after_persist port plan hash false = (err (unsaved (record_of plan hash)), [])
after_persist port plan hash true = (checked_receipt hash (port.receipt 5 hash), receipt hash ∷ [])

-- What follows `send`.
abbrev pub after_send : Port → Plan → Option (Option ℕ) → Result Error Receipt × List Call
after_send port plan none = (err port_failed, [])
after_send port plan (some none) = (err invalid_hash, [])
after_send port plan (some (some h)) =
    called (persist (record_of plan (some h)))
      (after_persist port plan (some h) (port.persist 4 (record_of plan (some h))))

-- What follows the second check of the identity.
abbrev pub after_identity :
    Port → Plan → Fees → Result Error (Unit {0}) → Result Error Receipt × List Call
after_identity port plan fees (err e) = (err e, [])
after_identity port plan fees (ok u) =
    called (send plan fees) (after_send port plan (port.send 3 plan fees))

-- What follows the estimate.
abbrev pub after_estimate : Port → Plan → Option Estimate → Result Error Receipt × List Call
after_estimate port plan none = (err port_failed, [])
after_estimate port plan (some e) =
    if is_short e
    then (err insufficient_balance, [])
    else called identity (after_identity port plan e.fees (assert_identity plan (port.identity 2)))

-- What follows the first check of the identity.
abbrev pub after_first : Port → Plan → Result Error (Unit {0}) → Result Error Receipt × List Call
after_first port plan (err e) = (err e, [])
after_first port plan (ok u) = called estimate (after_estimate port plan (port.estimate 1 plan))

-- `executeReviewed`, with the calls that it makes in their order.
unfoldable pub execute_reviewed : Port → Plan → Result Error Receipt × List Call
execute_reviewed port plan =
    if is_plan plan
    then called identity (after_first port plan (assert_identity plan (port.identity 0)))
    else (err invalid_plan, [])

-- `resumeTransaction`
unfoldable pub resume_transaction : Port → Pending → Result Error Receipt
resume_transaction port r = do
  fail_if
      (not (r.schema_version == 1)
        || not (is_read r.hash)
        || not (is_read r.account)
        || not (is_nonzero r.chain_id))
      invalid_record
  i ← or_fail (port.identity 0) port_failed
  fail_if (not (same (some i.chain_id) r.chain_id)) select_network
  checked_receipt r.hash (port.receipt 1 r.hash)
