-- ===== src/Sdk/Plans/Tests.antt =====
-- A deployment with two tokens, a strategy on them, and an invoice that is paid by a swap
-- (packages/sdk/src/plans.ts).
use aqua_orbital.Prelude.{
  ℕ, ◌+◌, ◌-◌, ◌*◌, ◌^◌, ◌≡◌, ◌↔◌, refl, true, false, List, [], ◌∷◌, ◌++◌, Option, some, length,
  Result, ok, err,
}
use aqua_orbital.Shared.{Address, Token, Manifest, SwapQuote, is_manifest}
use aqua_orbital.Sdk.Errors.{Error}
use aqua_orbital.Sdk.Codec.{
  Config, Order, Call, faucet, pay_with_usdc, pay_with_swap, Abi, big_endian, program,
}
use aqua_orbital.Sdk.Codec.Orders
use aqua_orbital.Sdk.Codec.Orders.{
  Plan, order_traits, build_order, first_two, validate_config, hash_config,
}
use aqua_orbital.Sdk.Amount.{fee_in}
use aqua_orbital.Sdk.Plans.{
  check_address, check_amount, Context, check_context, plan_call, demo_six, Strategy, test_strategy,
  check_strategy,
}
use aqua_orbital.Sdk.Plans.Swaps.{pair, limits, check_quote}
use aqua_orbital.Sdk.Plans.Invoices.{
  check_hash, InvoiceTerms, check_recipients, validate_invoice_terms, unpaid, Snapshot,
  test_invoice, check_invoice, SwapPayment, swapped, test_payment, build_payment_tx,
}
use aqua_orbital.Sdk.Plans.Invoices.Valid.{IsTerms, validate_invoice_terms_iff}
use aqua_orbital.Sdk.Plans.Invoices.Payment.{IsCovered, build_payment_tx-IsCovered}
use aqua_orbital.Sdk.Plans.Intents.{
  Intent, payment_intent, rebuild, Candidate, validate_transaction_plan,
}
use aqua_orbital.Sdk.Plans.Intents.Accepted.{IsAccepted, validate_transaction_plan-IsAccepted}

abbrev pub at : ℕ → Address
at n = record { value = n; is_checked = true }

abbrev dollars : Token
dollars = record {
  address = at 11;
  symbol = b'U' ∷ b'S' ∷ b'D' ∷ b'C' ∷ [];
  decimals = 6;
  mock = false;
}

abbrev demo : Token
demo = record { address = at 12; symbol = demo_six; decimals = 6; mock = true }

abbrev pub manifest : Manifest
manifest = record {
  chain_id = 31337;
  has_urls = true;
  verified = true;
  aqua = at 21;
  router = at 22;
  payments = at 23;
  usdc = at 11;
  start_block = 5;
  tokens = dollars ∷ demo ∷ [];
}

abbrev context : Context
context = record { manifest = manifest; chain_id = 31337; account = at 7; now = 1000 }

-- Encodings that tell the calls of the tests apart.
abbrev call_bytes : Call → Option (List ℕ)
call_bytes faucet = some (1 ∷ [])
call_bytes (pay_with_usdc id) = some (2 ∷ id ∷ [])
call_bytes (pay_with_swap id o i amount minimum deadline crossings) = some (3 ∷ id ∷ amount ∷ [])
call_bytes _ = some (4 ∷ [])

abbrev pub lib : Abi
lib = record {
  keccak = λ bytes. length bytes;
  config = λ c. some (c.maker.value ∷ c.fee_ppm ∷ []);
  order = λ o. some (o.maker.value ∷ o.data_bytes);
  invoice = λ n a m k. some (n ∷ m.value ∷ k ∷ []);
  call = call_bytes;
}

abbrev config : Config
config = record {
  schema_version = 1;
  chain_id = 31337;
  router = at 22;
  maker = at 9;
  maker_nonce = 0;
  tokens = at 11 ∷ at 12 ∷ [];
  decimals = 6 ∷ 6 ∷ [];
  tick_keys = (2 ^ 64 - 1) ∷ [];
  radii_internal = (10 ^ 12 * 2 ^ 64) ∷ [];
  fee_ppm = 500;
  initial_amounts_raw = 1000000 ∷ 1000000 ∷ [];
}

abbrev order_bytes : Result Error (List ℕ) → List ℕ
order_bytes (err e) = []
order_bytes (ok code) = first_two config.tokens ++ code

abbrev order : Order
order = record { maker = at 9; traits = order_traits; data_bytes = order_bytes (program 2) }

abbrev pub strategy : Strategy
strategy = record { config = config; order = order }

config-valid : validate_config config ≡ ok tt
unfolding validate_config Orders.check_tokens Orders.check_ticks fee_in
config-valid = refl

abbrev terms : InvoiceTerms
terms = record {
  amount_due_raw = 900;
  expires_at = 2000;
  recipients = at 31 ∷ at 32 ∷ [];
  bps = 2500 ∷ 7500 ∷ [];
  memo_hash = 5;
}

abbrev invoice : Snapshot
invoice = record {
  terms = terms;
  chain_id = 31337;
  adapter = at 23;
  id = 77;
  merchant = at 33;
  status = unpaid;
}

abbrev quote : SwapQuote
quote = record {
  chain_id = 31337;
  router = at 22;
  order_hash = length (order.data_bytes) + 1;
  config_hash = 2;
  caller = at 23;
  recipient = at 23;
  token_in = at 12;
  token_out = at 11;
  amount_in_raw = 1000;
  amount_out_raw = 950;
  fee_raw = 1;
  state_version = 1;
  block_number = 10;
  block_hash = 3;
  expires_at = 1010;
  max_crossings = 4;
}

abbrev payment : SwapPayment
payment = record {
  strategy = strategy;
  token_in = at 12;
  terms = record { gross = 1000; minimum = 800; deadline = 1100; max_crossings = 4 };
  quote = quote;
}

abbrev paid_plan : Plan
paid_plan = record {
  chain_id = 31337;
  account = at 7;
  to = at 23;
  data_bytes = 3 ∷ 77 ∷ 1000 ∷ [];
  value = 0;
  label = Orders.swap_and_pay;
}

payment-built : build_payment_tx lib context (swapped invoice payment) ≡ ok paid_plan
unfolding build_payment_tx check_invoice check_context test_invoice test_payment check_address
    check_amount check_hash validate_invoice_terms check_recipients check_strategy test_strategy
    validate_config Orders.check_tokens Orders.check_ticks fee_in build_order hash_config program
    pair limits check_quote plan_call is_manifest big_endian
payment-built = refl

build_payment_tx-IsCovered_example : IsCovered lib context invoice payment
build_payment_tx-IsCovered_example =
    build_payment_tx-IsCovered lib context invoice payment paid_plan payment-built

validate_invoice_terms_iff_example :
    (validate_invoice_terms (at 23) terms ≡ ok tt) ↔ IsTerms (at 23) terms
validate_invoice_terms_iff_example = validate_invoice_terms_iff (at 23) terms

-- The same plan from elsewhere.
abbrev candidate : Candidate
candidate = record {
  chain_id = 31337;
  account = at 7;
  to = at 23;
  data_bytes = 3 ∷ 77 ∷ 1000 ∷ [];
  value = 0;
  label = some Orders.swap_and_pay;
  has_other_keys = false;
}

abbrev intent : Intent
intent = payment_intent (swapped invoice payment)

candidate-accepted : validate_transaction_plan lib candidate context intent ≡ ok candidate
unfolding validate_transaction_plan rebuild
candidate-accepted = rw payment-built refl

validate_transaction_plan-IsAccepted_example :
    (candidate ≡ candidate) × IsAccepted lib context intent candidate
validate_transaction_plan-IsAccepted_example =
    validate_transaction_plan-IsAccepted lib context intent candidate candidate candidate-accepted
