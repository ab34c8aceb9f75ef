-- ===== src/Sdk/Plans.antt =====
-- packages/sdk/src/plans.ts: the transactions that a reviewed intent stands for, rebuilt from it.
-- Amounts, times and nonces are naturals. Here are the tests that every plan starts with.
pub mod Swaps
pub mod Makers
pub mod Invoices
pub mod Intents
pub mod Targets
pub mod Sequence
mod Tests
use aqua_orbital.Prelude.{
  ℕ, ◌-◌, ◌^◌, Bool, true, false, ◌&&◌, ◌||◌, not, List, [], ◌∷◌, Option, none, some, ltb, leb,
  ◌==◌, includes, if◌then◌else◌, Result, ok, err, ◌>>=◌, ◌>>◌, fail_if, or_fail,
}
use aqua_orbital.Text.{same_text}
use aqua_orbital.Shared.{Address, same, Token, Manifest, is_manifest, token_at}
use aqua_orbital.Sdk.Errors.{
  Error, encoding_failed, invalid_manifest, not_verified, invalid_address, invalid_amount,
  wrong_network, not_demo_token, cooldown, deployment_mismatch, not_maker, unlisted_token,
  noncanonical,
}
use aqua_orbital.Sdk.Codec.{Config, Order, Call, faucet, Abi, is_bad_address}
use aqua_orbital.Sdk.Codec.Orders.{
  validate_config, build_order, encode_order, Label, claim, Plan, is_supported,
}

-- `MAX`
abbrev pub max_amount : ℕ
max_amount = 2 ^ 256 - 1

-- `address(a)`
unfoldable pub check_address : Address → Result Error (Unit {0})
check_address a = fail_if (is_bad_address a) invalid_address

-- `amount(v,max,positive)`
unfoldable pub check_amount : ℕ → Bool → ℕ → Result Error (Unit {0})
check_amount max positive v = fail_if (ltb max v || (positive && (v == 0))) invalid_amount

-- `PlanContext`
pub record Context : Type 0 where
  pub manifest : Manifest
  pub chain_id : ℕ
  pub account : Address
  pub now : ℕ

-- `context`
unfoldable pub check_context : Context → Result Error Manifest
check_context ctx = do
  fail_if (not (is_manifest ctx.manifest)) invalid_manifest
  fail_if (not ctx.manifest.verified) not_verified
  fail_if (not (ctx.chain_id == ctx.manifest.chain_id) || not (is_supported ctx.chain_id))
      wrong_network
  check_address ctx.account
  check_amount (2 ^ 40 - 1) false ctx.now
  ok ctx.manifest

-- `plan(ctx,to,encodeFunctionData(…),label)`
unfoldable pub plan_call : Abi → Context → Address → Call → Label → Result Error Plan
plan_call lib ctx to call label = do
  bytes ← or_fail (lib.call call) encoding_failed
  ok (record {
    chain_id = ctx.chain_id;
    account = ctx.account;
    to = to;
    data_bytes = bytes;
    value = 0;
    label = label;
  })

-- `DemoFaucetInput`
pub record FaucetInput : Type 0 where
  pub token : Address
  pub next_mint_at : ℕ

abbrev pub demo_six : List ℕ
demo_six = b'o' ∷ b'U' ∷ b'S' ∷ b'D' ∷ b'6' ∷ []

abbrev pub demo_eighteen : List ℕ
demo_eighteen = b'o' ∷ b'U' ∷ b'S' ∷ b'D' ∷ b'1' ∷ b'8' ∷ []

abbrev pub is_demo_token : Manifest → Token → Bool
is_demo_token m t =
    not (same t.address m.usdc)
    && t.mock
    && ((t.decimals == 6) && same_text t.symbol demo_six
        || (t.decimals == 18) && same_text t.symbol demo_eighteen)

-- `buildDemoFaucetTx`
unfoldable pub build_demo_faucet_tx : Abi → Context → FaucetInput → Result Error Plan
build_demo_faucet_tx lib ctx input = do
  m ← check_context ctx
  token ← or_fail (token_at input.token m.tokens) not_demo_token
  fail_if (not (is_demo_token m token)) not_demo_token
  check_amount max_amount false input.next_mint_at
  fail_if (ltb ctx.now input.next_mint_at) cooldown
  plan_call lib ctx token.address faucet (claim token.symbol)

-- `StrategyInput`
pub record Strategy : Type 0 where
  pub config : Config
  pub order : Order

-- Whether a token is listed with the decimals that the configuration gives it.
abbrev pub is_listed : List Token → Address → ℕ → Bool
is_listed tokens a d = elim (token_at a tokens) [ none ↦ false | some t ↦ t.decimals == d ]

abbrev pub are_listed : List Token → List Address → List ℕ → Bool
are_listed tokens [] ds = true
are_listed tokens (a ∷ rest) [] = false
are_listed tokens (a ∷ rest) (d ∷ ds) = is_listed tokens a d && are_listed tokens rest ds

-- The tests of `strategy`, with whether the account has to be the maker.
unfoldable pub test_strategy : Abi → Bool → Context → Strategy → Manifest → Result Error (Unit {0})
test_strategy lib as_maker ctx s m = do
  validate_config s.config
  fail_if (not (s.config.chain_id == m.chain_id) || not (same s.config.router m.router))
      deployment_mismatch
  fail_if (as_maker && not (same s.config.maker ctx.account)) not_maker
  fail_if (not (are_listed m.tokens s.config.tokens s.config.decimals)) unlisted_token
  given ← encode_order lib s.order
  order ← build_order lib s.config
  canonical ← encode_order lib order
  fail_if (not (same_text given canonical)) noncanonical

-- `strategy`
unfoldable pub check_strategy : Abi → Bool → Context → Strategy → Result Error Manifest
check_strategy lib as_maker ctx s = do
  m ← check_context ctx
  test_strategy lib as_maker ctx s m
  ok m
