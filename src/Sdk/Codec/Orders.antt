-- ===== src/Sdk/Codec/Orders.antt =====
-- `validateConfig`, `buildOrder` and `approvalPlan` of packages/sdk/src/codec.ts.
use aqua_orbital.Prelude.{
  ℕ, ◌+◌, ◌-◌, ◌*◌, ◌^◌, Bool, false, ◌&&◌, ◌||◌, not, List, [], ◌∷◌, ◌++◌, Option, none, some, ltb,
  leb, ◌==◌, length, get_last?, includes, Result, ok, err, ◌>>=◌, ◌>>◌, fail_if, or_fail,
}
use aqua_orbital.Shared.{Address, Manifest, is_manifest, token_values, contract_values}
use aqua_orbital.Sdk.Amount.{check_decimals, check_uint, fee_in}
use aqua_orbital.Sdk.Errors.{
  Error, encoding_failed, undefined_value, invalid_manifest, invalid_shape, unsorted_tokens,
  funding_required, full_range_tick_required, tick_ordering, invalid_cap, radius_range,
  normalized_funding_range, not_verified, unsupported_network, invalid_account,
  unknown_token_or_spender, checked,
}
use aqua_orbital.Sdk.Codec.{
  Config, Order, approve, Abi, is_bad_address, check_max, big_endian, program,
}

-- The first tests of `validateConfig`.
abbrev pub has_shape : Config → Bool
has_shape c =
    (c.schema_version == 1)
    && ltb 0 c.chain_id
    && not (is_bad_address c.maker)
    && not (is_bad_address c.router)
    && leb 2 (length c.tokens)
    && leb (length c.tokens) 8
    && leb 1 (length c.tick_keys)
    && leb (length c.tick_keys) 8
    && (length c.decimals == length c.tokens)
    && (length c.initial_amounts_raw == length c.tokens)
    && (length c.radii_internal == length c.tick_keys)

-- `i>0&&BigInt(a)<=BigInt(c.tokens[i-1]!)`
abbrev pub is_unsorted : Option ℕ → ℕ → Bool
is_unsorted none v = false
is_unsorted (some previous) v = leb v previous

-- The loop over the tokens, with the one before. The lists are of one length.
unfoldable pub check_tokens : Option ℕ → List Address → List ℕ → List ℕ → Result Error (Unit {0})
check_tokens previous [] ds rs = ok tt
check_tokens previous (a ∷ ts) [] rs = err undefined_value
check_tokens previous (a ∷ ts) (d ∷ ds) [] = err undefined_value
check_tokens previous (a ∷ ts) (d ∷ ds) (r ∷ rs) = do
  fail_if (is_bad_address a || is_unsorted previous a.value) unsorted_tokens
  checked (check_decimals d)
  checked (check_uint r)
  fail_if (r == 0) funding_required
  check_tokens (some a.value) ts ds rs

-- The scale of the ticks, and the square of the distance of a tick from the full range.
abbrev pub grid : ℕ
grid = 2 ^ 32

abbrev pub distance_squared : ℕ → ℕ → ℕ
distance_squared n key = let d = n * grid - key in d * d

-- Whether a tick is a cap of the sphere of `n` tokens. The differences are positive where they count.
abbrev pub is_cap : ℕ → ℕ → Bool
is_cap n key =
    ltb key ((n - 1) * grid)
    && ltb (distance_squared n key) (n * grid * grid)
    && leb (n * grid * grid) ((n * grid * grid - distance_squared n key) * grid)

-- The loop over all ticks but the last, with the one before.
unfoldable pub check_ticks : ℕ → Option ℕ → List ℕ → Result Error (Unit {0})
check_ticks n previous [] = ok tt
check_ticks n previous (key ∷ []) = ok tt
check_ticks n previous (key ∷ next ∷ keys) = do
  fail_if (is_unsorted previous key) tick_ordering
  fail_if (not (is_cap n key)) invalid_cap
  check_ticks n (some key) (next ∷ keys)

abbrev pub check_all : (ℕ → Result Error (Unit {0})) → List ℕ → Result Error (Unit {0})
check_all check [] = ok tt
check_all check (v ∷ vs) = check v >> check_all check vs

abbrev pub sum : List ℕ → ℕ
sum [] = 0
sum (v ∷ vs) = v + sum vs

-- One radius.
abbrev pub check_radius : ℕ → Result Error (Unit {0})
check_radius r = check_max (2 ^ 192 - 1) r >> fail_if (ltb r (10 ^ 12 * 2 ^ 64)) radius_range

-- An amount of a token of `d` decimals, in the units of the pool.
abbrev pub normalized : ℕ → ℕ → ℕ
normalized r d = r * 10 ^ (18 - d) * 2 ^ 64

abbrev pub is_overfunded : List ℕ → List ℕ → Bool
is_overfunded (r ∷ rs) (d ∷ ds) = leb (2 ^ 160) (normalized r d) || is_overfunded rs ds
is_overfunded _ _ = false

-- `c.tickKeys[t-1]!==((1n<<64n)-1n)`
abbrev pub is_full_range : Option ℕ → Bool
is_full_range none = false
is_full_range (some key) = key == 2 ^ 64 - 1

-- `validateConfig`
unfoldable pub validate_config : Config → Result Error (Unit {0})
validate_config c = do
  fail_if (not (has_shape c)) invalid_shape
  checked (check_uint c.chain_id)
  check_max (2 ^ 64 - 1) c.maker_nonce
  fee ← checked (fee_in 0 c.fee_ppm)
  check_tokens none c.tokens c.decimals c.initial_amounts_raw
  fail_if (not (is_full_range (get_last? c.tick_keys))) full_range_tick_required
  check_ticks (length c.tokens) none c.tick_keys
  check_all (check_max (2 ^ 64 - 1)) c.tick_keys
  check_all check_radius c.radii_internal
  fail_if (leb (2 ^ 160) (sum c.radii_internal)) radius_range
  fail_if (is_overfunded c.initial_amounts_raw c.decimals) normalized_funding_range

-- `hashConfig`
unfoldable pub hash_config : Abi → Config → Result Error ℕ
hash_config lib c = do
  validate_config c
  bytes ← or_fail (lib.config c) encoding_failed
  ok (lib.keccak bytes)

abbrev pub first_two : List Address → List ℕ
first_two (a ∷ b ∷ ts) = big_endian 20 a.value ++ big_endian 20 b.value
first_two _ = []

-- `(1n<<254n)|(indices<<160n)`: the parts have no bit in common.
abbrev pub order_traits : ℕ
order_traits = 2 ^ 254 + 40 * (1 + 2 ^ 16 + 2 ^ 32 + 2 ^ 48) * 2 ^ 160

-- `buildOrder`
unfoldable pub build_order : Abi → Config → Result Error Order
build_order lib c = do
  hash ← hash_config lib c
  code ← program hash
  ok (record { maker = c.maker; traits = order_traits; data_bytes = first_two c.tokens ++ code })

-- `encodeOrder` and `hashOrder`
abbrev pub encode_order : Abi → Order → Result Error (List ℕ)
encode_order lib o = or_fail (lib.order o) encoding_failed

abbrev pub hash_order : Abi → Order → Result Error ℕ
hash_order lib o = do bytes ← encode_order lib o; ok (lib.keccak bytes)

-- The texts that a plan is labelled with.
pub data Label : Type 0 where
  approve_amount swap_amount activate retire ship_strategy dock_strategy : Label
  create_invoice pay_directly swap_and_pay cancel : Label
  claim : (symbol : List ℕ) → Label

-- `TransactionPlan`
pub record Plan : Type 0 where
  pub chain_id : ℕ
  pub account : Address
  pub to : Address
  pub data_bytes : List ℕ
  pub value : ℕ
  pub label : Label

-- `[31337,5042002].includes(chainId)`
abbrev pub is_supported : ℕ → Bool
is_supported n = includes n (31337 ∷ 5042002 ∷ [])

-- `approvalPlan`
unfoldable pub approval_plan : Abi → Manifest → Address → Address → Address → ℕ → Result Error Plan
approval_plan lib m account token spender amount = do
  fail_if (not (is_manifest m)) invalid_manifest
  fail_if (not m.verified) not_verified
  fail_if (not (is_supported m.chain_id)) unsupported_network
  fail_if (is_bad_address account) invalid_account
  fail_if
      (not (includes token.value (token_values m.tokens))
        || not (includes spender.value (contract_values m)))
      unknown_token_or_spender
  checked (check_uint amount)
  bytes ← or_fail (lib.call (approve spender amount)) encoding_failed
  ok (record {
    chain_id = m.chain_id;
    account = account;
    to = token;
    data_bytes = bytes;
    value = 0;
    label = approve_amount;
  })
