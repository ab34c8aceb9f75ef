-- ===== src/Shared.antt =====
-- packages/shared/src/index.ts: the values that the other parts exchange, with the tests that a schema
-- makes of a value of the right shape. An address is a number that stands for its text in any case,
-- below 2^160 if the text is `0x` and 40 hexadecimal digits, with whether its checksum lets the library
-- take it as an address. A hash likewise is a number, below 2^256 if the text has 64 digits. A numeral
-- is its number.
pub mod Invoices
pub mod Observations
use aqua_orbital.Prelude.{
  ℕ, ◌^◌, Bool, false, ◌&&◌, not, List, [], ◌∷◌, Option, none, some, ltb, leb, ◌==◌, any, all, find,
  map, length, includes, distinct,
}

pub record Address : Type 0 where
  pub value : ℕ
  pub is_checked : Bool

-- `a.toLowerCase()===b.toLowerCase()`
abbrev pub same : Address → Address → Bool
same a b = a.value == b.value

-- `nonzeroAddressSchema`
abbrev pub is_nonzero_address : Address → Bool
is_nonzero_address a = ltb a.value (2 ^ 160) && ltb 0 a.value

-- `hashSchema`
abbrev pub is_hash : ℕ → Bool
is_hash h = ltb h (2 ^ 256)

-- `uintSchema`, `uint64Schema` and `uint40Schema`, of a numeral.
abbrev pub is_uint : ℕ → Bool
is_uint v = ltb v (2 ^ 256)

abbrev pub is_uint64 : ℕ → Bool
is_uint64 v = ltb v (2 ^ 64)

abbrev pub is_uint40 : ℕ → Bool
is_uint40 v = ltb v (2 ^ 40)

-- `chainIdSchema`
abbrev pub is_chain_id : ℕ → Bool
is_chain_id n = ltb 0 n && ltb n (2 ^ 53)

-- `tokenSchema`
pub record Token : Type 0 where
  pub address : Address
  pub symbol : List ℕ
  pub decimals : ℕ
  pub mock : Bool

abbrev pub is_token : Token → Bool
is_token t =
    is_nonzero_address t.address
    && ltb 0 (length t.symbol)
    && leb (length t.symbol) 24
    && leb t.decimals 18

-- `DeploymentManifest`. `has_urls` says whether both of its addresses on the web are URLs.
pub record Manifest : Type 0 where
  pub chain_id : ℕ
  pub has_urls : Bool
  pub verified : Bool
  pub aqua : Address
  pub router : Address
  pub payments : Address
  pub usdc : Address
  pub start_block : ℕ
  pub tokens : List Token

abbrev pub has_manifest_shape : Manifest → Bool
has_manifest_shape m =
    is_chain_id m.chain_id
    && m.has_urls
    && is_nonzero_address m.aqua
    && is_nonzero_address m.router
    && is_nonzero_address m.payments
    && is_nonzero_address m.usdc
    && is_uint m.start_block
    && all is_token m.tokens
    && leb 2 (length m.tokens)
    && leb (length m.tokens) 8

abbrev pub token_values : List Token → List ℕ
token_values ts = map (λ (t : Token). t.address.value) ts

-- `m.tokens.find(t=>same(t.address,a))`
abbrev pub token_at : Address → List Token → Option Token
token_at a ts = find (λ (t : Token). same t.address a) ts

-- `usdc&&usdc.decimals===6`
abbrev pub has_six_decimals : Option Token → Bool
has_six_decimals none = false
has_six_decimals (some t) = t.decimals == 6

-- The addresses of a deployment's three contracts.
abbrev pub contract_values : Manifest → List ℕ
contract_values m = m.aqua.value ∷ m.router.value ∷ m.payments.value ∷ []

-- `manifestSchema`
unfoldable pub is_manifest : Manifest → Bool
is_manifest m =
    has_manifest_shape m
    && distinct (token_values m.tokens)
    && has_six_decimals (token_at m.usdc m.tokens)
    && distinct (contract_values m)
    && not (any (λ a. includes a (token_values m.tokens)) (contract_values m))

-- `SwapQuote`
pub record SwapQuote : Type 0 where
  pub chain_id : ℕ
  pub router : Address
  pub order_hash : ℕ
  pub config_hash : ℕ
  pub caller : Address
  pub recipient : Address
  pub token_in : Address
  pub token_out : Address
  pub amount_in_raw : ℕ
  pub amount_out_raw : ℕ
  pub fee_raw : ℕ
  pub state_version : ℕ
  pub block_number : ℕ
  pub block_hash : ℕ
  pub expires_at : ℕ
  pub max_crossings : ℕ

-- `swapQuoteSchema`
abbrev pub is_swap_quote : SwapQuote → Bool
is_swap_quote q =
    is_chain_id q.chain_id
    && is_nonzero_address q.router
    && is_hash q.order_hash
    && is_hash q.config_hash
    && is_nonzero_address q.caller
    && is_nonzero_address q.recipient
    && is_nonzero_address q.token_in
    && is_nonzero_address q.token_out
    && is_uint q.amount_in_raw
    && is_uint q.amount_out_raw
    && is_uint q.fee_raw
    && is_uint64 q.state_version
    && is_uint q.block_number
    && is_hash q.block_hash
    && is_uint40 q.expires_at
    && leb q.max_crossings 16
