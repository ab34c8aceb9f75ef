-- ===== src/Sdk/Plans/Invoices.antt =====
-- The invoices of packages/sdk/src/plans.ts: their terms, their creation, payment and cancellation.
pub mod Valid
pub mod Payment
use aqua_orbital.Prelude.{
  ℕ, ◌+◌, ◌-◌, ◌*◌, ◌/◌, ◌^◌, Bool, true, false, ◌&&◌, ◌||◌, not, List, [], ◌∷◌, Option, none, some,
  ltb, leb, ◌==◌, any, length, includes, max, if◌then◌else◌, Result, ok, err, ◌>>=◌, ◌>>◌, fail_if,
  or_fail,
}
use aqua_orbital.Shared.{Address, same, is_hash, Manifest, SwapQuote}
use aqua_orbital.Sdk.Errors.{
  Error, encoding_failed, invalid_hash, invalid_recipients, invalid_or_duplicate_recipient,
  shares_total, expiry_range, invoice_deployment, not_payable, invalid_payer, not_merchant,
}
use aqua_orbital.Sdk.Codec.{
  Abi, create_invoice, pay_with_usdc, pay_with_swap, cancel_invoice, is_bad_address,
}
use aqua_orbital.Sdk.Codec.Orders
use aqua_orbital.Sdk.Codec.Orders.{sum, approval_plan, pay_directly, swap_and_pay, cancel, Plan}
use aqua_orbital.Sdk.Plans.{
  max_amount, check_address, check_amount, Context, check_context, plan_call, Strategy,
  check_strategy,
}
use aqua_orbital.Sdk.Plans.Swaps.{pair, Terms, limits, check_quote}

-- `USDC_LIMIT`
abbrev pub usdc_limit : ℕ
usdc_limit = 2 ^ 160 / (10 ^ 12 * 2 ^ 64)

-- `hash(value)`
unfoldable pub check_hash : ℕ → Result Error (Unit {0})
check_hash h = fail_if (not (is_hash h)) invalid_hash

-- `invoiceId`
unfoldable pub invoice_id : Abi → ℕ → Address → Address → ℕ → Result Error ℕ
invoice_id lib chain_id adapter merchant nonce = do
  check_amount max_amount true chain_id
  check_address adapter
  check_address merchant
  check_amount (2 ^ 64 - 1) false nonce
  bytes ← or_fail (lib.invoice chain_id adapter merchant nonce) encoding_failed
  ok (lib.keccak bytes)

-- The terms of an invoice, which `InvoiceCreateInput` and `InvoiceSnapshot` share.
pub record InvoiceTerms : Type 0 where
  pub amount_due_raw : ℕ
  pub expires_at : ℕ
  pub recipients : List Address
  pub bps : List ℕ
  pub memo_hash : ℕ

-- The loop over the recipients, with those seen before.
unfoldable pub check_recipients : Address → List ℕ → List Address → Result Error (Unit {0})
check_recipients adapter seen [] = ok tt
check_recipients adapter seen (r ∷ rs) = do
  check_address r
  fail_if (same r adapter || includes r.value seen) invalid_or_duplicate_recipient
  check_recipients adapter (r.value ∷ seen) rs

abbrev pub is_bad_share : ℕ → Bool
is_bad_share v = leb v 0 || ltb 10000 v

-- `validateInvoiceTerms`
unfoldable pub validate_invoice_terms : Address → InvoiceTerms → Result Error (Unit {0})
validate_invoice_terms adapter t = do
  check_amount (usdc_limit - 1) true t.amount_due_raw
  check_amount (2 ^ 40 - 1) true t.expires_at
  check_hash t.memo_hash
  fail_if
      (ltb (length t.recipients) 1
        || ltb 3 (length t.recipients)
        || not (length t.recipients == length t.bps))
      invalid_recipients
  check_recipients adapter [] t.recipients
  fail_if (any is_bad_share t.bps || not (sum t.bps == 10000)) shares_total

-- `InvoiceCreateInput`
pub record CreateInput : Type 0 where
  pub terms : InvoiceTerms
  pub merchant_nonce : ℕ

-- The tests of `buildInvoiceTx`.
unfoldable pub test_create : Context → CreateInput → Manifest → Result Error (Unit {0})
test_create ctx input m = do
  let t = input.terms
  validate_invoice_terms m.payments t
  check_amount (2 ^ 64 - 2) false input.merchant_nonce
  fail_if (ltb t.expires_at (ctx.now + 300) || ltb (ctx.now + 2592000) t.expires_at) expiry_range

-- `buildInvoiceTx`: the plan, and the predicted id.
unfoldable pub build_invoice_tx : Abi → Context → CreateInput → Result Error (Plan × ℕ)
build_invoice_tx lib ctx input = do
  let t = input.terms
  m ← check_context ctx
  test_create ctx input m
  id ← invoice_id lib m.chain_id m.payments ctx.account input.merchant_nonce
  plan ←
      plan_call lib ctx m.payments
        (create_invoice t.amount_due_raw t.expires_at t.recipients t.bps t.memo_hash)
        Orders.create_invoice
  ok (plan, id)

pub data Status : Type 0 where
  unpaid paid cancelled in_progress : Status

abbrev pub is_unpaid : Status → Bool
is_unpaid unpaid = true
is_unpaid _ = false

-- `InvoiceSnapshot`
pub record Snapshot : Type 0 where
  pub terms : InvoiceTerms
  pub chain_id : ℕ
  pub adapter : Address
  pub id : ℕ
  pub merchant : Address
  pub status : Status

-- The tests of `invoice`, with whether it has to be payable now.
unfoldable pub test_invoice : Bool → Context → Snapshot → Manifest → Result Error (Unit {0})
test_invoice payable ctx v m = do
  check_address v.merchant
  check_hash v.id
  validate_invoice_terms m.payments v.terms
  fail_if (not (v.chain_id == ctx.chain_id) || not (same v.adapter m.payments)) invoice_deployment
  fail_if (not (is_unpaid v.status) || (payable && leb v.terms.expires_at ctx.now)) not_payable

-- `invoice`
unfoldable pub check_invoice : Bool → Context → Snapshot → Result Error Manifest
check_invoice payable ctx v = do m ← check_context ctx; test_invoice payable ctx v m; ok m

-- What a payment by a swap adds to its invoice.
pub record SwapPayment : Type 0 where
  pub strategy : Strategy
  pub token_in : Address
  pub terms : Terms
  pub quote : SwapQuote

-- `PaymentInput`
pub data PaymentInput : Type 0 where
  direct : (invoice : Snapshot) → PaymentInput
  swapped : (invoice : Snapshot) (payment : SwapPayment) → PaymentInput

-- The reviewed minimum, and no less than the amount due.
abbrev pub payment_terms : Snapshot → Terms → Terms
payment_terms v t = record t { minimum = max t.minimum v.terms.amount_due_raw }

-- The tests of a payment by a swap, and the index of its token.
unfoldable pub test_payment : Abi → Context → Snapshot → SwapPayment → Manifest → Result Error ℕ
test_payment lib ctx v p m = do
  let c = p.strategy.config
  same_manifest ← check_strategy lib false ctx p.strategy
  ij ← pair c p.token_in m.usdc
  fail_if (same c.maker ctx.account || same c.maker m.payments) invalid_payer
  check_amount max_amount false p.terms.minimum
  limits ctx c ij.0 (payment_terms v p.terms)
  check_quote lib ctx p.strategy p.quote
      (record {
        caller = m.payments;
        recipient = m.payments;
        token_in = p.token_in;
        token_out = m.usdc;
      })
      (payment_terms v p.terms)
  ok ij.0

-- `buildPaymentTx`
unfoldable pub build_payment_tx : Abi → Context → PaymentInput → Result Error Plan
build_payment_tx lib ctx (direct v) = do
  m ← check_invoice true ctx v
  plan_call lib ctx m.payments (pay_with_usdc v.id) pay_directly
build_payment_tx lib ctx (swapped v p) = do
  let t = p.terms
  m ← check_invoice true ctx v
  i ← test_payment lib ctx v p m
  plan_call lib ctx m.payments
      (pay_with_swap v.id p.strategy.order i t.gross t.minimum t.deadline t.max_crossings)
      swap_and_pay

-- The token and the amount that `buildPaymentApprovalTx` approves.
abbrev pub paid_token : Context → PaymentInput → Address
paid_token ctx (direct v) = ctx.manifest.usdc
paid_token ctx (swapped v p) = p.token_in

abbrev pub paid_amount : PaymentInput → ℕ
paid_amount (direct v) = v.terms.amount_due_raw
paid_amount (swapped v p) = p.terms.gross

-- `buildPaymentApprovalTx`
unfoldable pub build_payment_approval_tx : Abi → Context → PaymentInput → Result Error Plan
build_payment_approval_tx lib ctx input = do
  paid_plan ← build_payment_tx lib ctx input
  approval_plan lib ctx.manifest ctx.account (paid_token ctx input) ctx.manifest.payments
      (paid_amount input)

-- `buildCancelInvoiceTx`
unfoldable pub build_cancel_invoice_tx : Abi → Context → Snapshot → Result Error Plan
build_cancel_invoice_tx lib ctx v = do
  m ← check_invoice false ctx v
  fail_if (not (same v.merchant ctx.account)) not_merchant
  plan_call lib ctx m.payments (cancel_invoice v.id) cancel
