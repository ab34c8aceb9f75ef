-- ===== src/Sdk/Plans/Swaps.antt =====
-- The swaps of packages/sdk/src/plans.ts: a pair of tokens, the limits of the reviewed amounts, and the
-- quote that has to agree with them.
use aqua_orbital.Prelude.{
  ℕ, suc, ◌+◌, ◌-◌, ◌*◌, ◌^◌, Bool, true, false, ◌&&◌, ◌||◌, not, List, [], ◌∷◌, Option, none, some,
  ltb, leb, ◌==◌, any, get_elem?, if◌then◌else◌, Result, ok, ◌>>=◌, ◌>>◌, fail_if, or_fail,
}
use aqua_orbital.Shared.{Address, same, Manifest, SwapQuote, is_swap_quote}
use aqua_orbital.Sdk.Amount.{fee_in}
use aqua_orbital.Sdk.Errors.{
  Error, undefined_value, invalid_swap_quote, invalid_pair, expired_deadline, input_range,
  fee_too_large, crossing_bound, quote_crossings, quote_mismatch, quote_stale, quote_below_minimum,
  invalid_settlement, checked,
}
use aqua_orbital.Sdk.Codec.{Config, Abi, TakerArgs, taker_data, swap}
use aqua_orbital.Sdk.Codec.Orders.{hash_order, hash_config, approval_plan, swap_amount, Plan}
use aqua_orbital.Sdk.Plans.{
  max_amount, check_address, check_amount, Context, plan_call, Strategy, check_strategy,
}

-- `tokens.findIndex(t=>same(t,a))`
abbrev pub index_of : Address → List Address → Option ℕ
index_of a [] = none
index_of a (t ∷ ts) =
    if same t a then some 0 else elim (index_of a ts) [ none ↦ none | some i ↦ some (suc i) ]

-- `pair`
unfoldable pub pair : Config → Address → Address → Result Error (ℕ × ℕ)
pair c input output = do
  i ← or_fail (index_of input c.tokens) invalid_pair
  j ← or_fail (index_of output c.tokens) invalid_pair
  fail_if (i == j) invalid_pair
  ok (i, j)

-- The part of a swap that a swap and a payment share: `gross`, `minimum`, `deadline` and `maxCrossings`.
pub record Terms : Type 0 where
  pub gross : ℕ
  pub minimum : ℕ
  pub deadline : ℕ
  pub max_crossings : ℕ

-- `limits`
unfoldable pub limits : Context → Config → ℕ → Terms → Result Error (Unit {0})
limits ctx c input t = do
  check_amount max_amount true t.gross
  check_amount max_amount true t.minimum
  check_amount (2 ^ 40 - 1) true t.deadline
  fail_if (leb t.deadline ctx.now) expired_deadline
  d ← or_fail (get_elem? c.decimals input) undefined_value
  fail_if (leb (2 ^ 160) (t.gross * 10 ^ (18 - d) * 2 ^ 64)) input_range
  fee ← checked (fee_in t.gross c.fee_ppm)
  fail_if (leb t.gross fee) fee_too_large
  fail_if (ltb 16 t.max_crossings) crossing_bound

-- The addresses of a swap.
pub record Route : Type 0 where
  pub caller : Address
  pub recipient : Address
  pub token_in : Address
  pub token_out : Address

abbrev pub same_route : Route → SwapQuote → Bool
same_route r q =
    same q.caller r.caller
    && same q.recipient r.recipient
    && same q.token_in r.token_in
    && same q.token_out r.token_out

-- `quote`
unfoldable pub check_quote :
    Abi → Context → Strategy → SwapQuote → Route → Terms → Result Error (Unit {0})
check_quote lib ctx s q r t = do
  fail_if (not (is_swap_quote q)) invalid_swap_quote
  fail_if (not (q.max_crossings == t.max_crossings)) quote_crossings
  fail_if (not (q.chain_id == ctx.chain_id) || not (same q.router s.config.router)) quote_mismatch
  order ← hash_order lib s.order
  fail_if (not (q.order_hash == order)) quote_mismatch
  config ← hash_config lib s.config
  fail_if (not (q.config_hash == config)) quote_mismatch
  fail_if (not (same_route r q) || not (q.amount_in_raw == t.gross)) quote_mismatch
  fee ← checked (fee_in t.gross s.config.fee_ppm)
  fail_if (not (q.fee_raw == fee)) quote_mismatch
  fail_if (leb q.expires_at ctx.now || ltb (ctx.now + 20) q.expires_at) quote_stale
  fail_if (ltb q.amount_out_raw t.minimum) quote_below_minimum

-- `SwapInput`
pub record SwapInput : Type 0 where
  pub strategy : Strategy
  pub token_in : Address
  pub token_out : Address
  pub recipient : Address
  pub terms : Terms
  pub quote : SwapQuote

-- The tests of `buildSwapTx` once the pair is known.
unfoldable pub test_swap : Abi → Context → SwapInput → Manifest → ℕ → Result Error (Unit {0})
test_swap lib ctx input m i = do
  let c = input.strategy.config
  check_address input.recipient
  fail_if
      (same c.maker ctx.account
        || any (λ a. same a input.recipient) (c.maker ∷ m.aqua ∷ m.router ∷ []))
      invalid_settlement
  limits ctx c i input.terms
  check_quote lib ctx input.strategy input.quote
      (record {
        caller = ctx.account;
        recipient = input.recipient;
        token_in = input.token_in;
        token_out = input.token_out;
      })
      input.terms

-- The data of the call: what the taker asks of the router.
abbrev pub taker_args : Context → SwapInput → ℕ × ℕ → TakerArgs
taker_args ctx input (i, j) = record {
  taker = ctx.account;
  recipient = input.recipient;
  minimum = input.terms.minimum;
  deadline = input.terms.deadline;
  input = i;
  output = j;
  max_crossings = some input.terms.max_crossings;
}

-- `buildSwapTx`
unfoldable pub build_swap_tx : Abi → Context → SwapInput → Result Error Plan
build_swap_tx lib ctx input = do
  m ← check_strategy lib false ctx input.strategy
  ij ← pair input.strategy.config input.token_in input.token_out
  test_swap lib ctx input m ij.0
  bytes ← taker_data (taker_args ctx input ij)
  plan_call lib ctx m.router (swap input.strategy.order input.terms.gross bytes) swap_amount

-- `buildSwapApprovalTx`
unfoldable pub build_swap_approval_tx : Abi → Context → SwapInput → Result Error Plan
build_swap_approval_tx lib ctx input = do
  swapped ← build_swap_tx lib ctx input
  approval_plan lib ctx.manifest ctx.account input.token_in ctx.manifest.router input.terms.gross
