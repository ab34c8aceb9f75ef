-- ===== src/Sdk/Codec.antt =====
-- The orders of packages/sdk/src/codec.ts: a strategy's configuration, its canonical order, the bytes
-- that a taker passes to the router, and an approval. Bytes are lists of numbers below 256. The ABI
-- encoding and the hash are the library's: an encoding answers `none` where it throws.
pub mod Orders
use aqua_orbital.Prelude.{
  ℕ, zero, suc, ◌+◌, ◌-◌, ◌*◌, ◌/◌, ◌%◌, ◌^◌, Bool, true, false, ◌&&◌, ◌||◌, not, List, [], ◌∷◌,
  ◌++◌, Option, none, some, ltb, leb, ◌==◌, any, length, get_last?, includes, if◌then◌else◌, Result,
  ok, err, ◌>>=◌, ◌>>◌, fail_if, or_fail,
}
use aqua_orbital.Shared.{
  Address, same, is_hash, Manifest, is_manifest, token_values, contract_values,
}
use aqua_orbital.Sdk.Amount.{check_uint, out_of_range}
use aqua_orbital.Sdk.Errors.{
  Error, amount_error, invalid_config_hash, invalid_pair_or_crossing, invalid_recipient,
  deadline_required, checked,
}

-- `Config`
pub record Config : Type 0 where
  pub schema_version : ℕ
  pub chain_id : ℕ
  pub router : Address
  pub maker : Address
  pub maker_nonce : ℕ
  pub tokens : List Address
  pub decimals : List ℕ
  pub tick_keys : List ℕ
  pub radii_internal : List ℕ
  pub fee_ppm : ℕ
  pub initial_amounts_raw : List ℕ

-- `Order`
pub record Order : Type 0 where
  pub maker : Address
  pub traits : ℕ
  pub data_bytes : List ℕ

-- The calls of contracts that are encoded, with their arguments.
pub data Call : Type 0 where
  approve : (spender : Address) (amount : ℕ) → Call
  faucet : Call
  swap : (order : Order) (amount : ℕ) (taker_bytes : List ℕ) → Call
  activate_strategy : (config : Config) (order : Order) → Call
  retire_strategy : (order_hash : ℕ) → Call
  ship : (app : Address) (order : List ℕ) (tokens : List Address) (amounts : List ℕ) → Call
  dock : (app : Address) (order_hash : ℕ) (tokens : List Address) → Call
  create_invoice :
      (due expires : ℕ) (recipients : List Address) (bps : List ℕ) (memo_hash : ℕ) → Call
  pay_with_usdc : (invoice : ℕ) → Call
  pay_with_swap : (invoice : ℕ) (order : Order) (input amount minimum deadline crossings : ℕ) → Call
  cancel_invoice : (invoice : ℕ) → Call

-- `encodeAbiParameters`, `encodeFunctionData` and `keccak256`.
pub record Abi : Type 0 where
  pub keccak : List ℕ → ℕ
  pub config : Config → Option (List ℕ)
  pub order : Order → Option (List ℕ)
  pub invoice : (chain_id : ℕ) (adapter merchant : Address) (nonce : ℕ) → Option (List ℕ)
  pub call : Call → Option (List ℕ)

-- The library's test of an address.
abbrev pub is_address : Address → Bool
is_address a = a.is_checked && ltb a.value (2 ^ 160)

-- `!isAddress(a)||BigInt(a)===0n`
abbrev pub is_bad_address : Address → Bool
is_bad_address a = not (is_address a) || (a.value == 0)

-- `uint(v,max)`
abbrev pub check_max : ℕ → ℕ → Result Error (Unit {0})
check_max max v = fail_if (ltb max v) (amount_error out_of_range)

-- The big-endian bytes of a number.
unfoldable pub big_endian : ℕ → ℕ → List ℕ
big_endian zero v = []
big_endian (suc n) v = v / 256 ^ n % 256 ∷ big_endian n v

-- `program`
unfoldable pub program : ℕ → Result Error (List ℕ)
program hash = do
  fail_if (not (is_hash hash)) invalid_config_hash
  ok (114 ∷ 32 ∷ big_endian 32 hash ++ 82 ∷ 32 ∷ big_endian 32 hash)

-- `max=16`
abbrev pub or_sixteen : Option ℕ → ℕ
or_sixteen none = 16
or_sixteen (some n) = n

-- `instructionsArgs`
unfoldable pub instructions_args : ℕ → ℕ → ℕ → Result Error (List ℕ)
instructions_args input output max = do
  fail_if (leb 8 input || leb 8 output || (input == output) || ltb 16 max) invalid_pair_or_crossing
  ok (1 ∷ input ∷ output ∷ max ∷ [])

pub record TakerArgs : Type 0 where
  pub taker : Address
  pub recipient : Address
  pub minimum : ℕ
  pub deadline : ℕ
  pub input : ℕ
  pub output : ℕ
  pub max_crossings : Option ℕ

-- The recipient is left out where it is the taker.
abbrev pub recipient_bytes : TakerArgs → List ℕ
recipient_bytes a = if same a.recipient a.taker then [] else big_endian 20 a.recipient.value

-- The ends of the ten slices of the data, the last one first, in two bytes each.
abbrev pub slice_ends : ℕ → List ℕ
slice_ends recipient_size =
    let i1 = 32 + recipient_size in
    let i2 = i1 + 5 in
    let e2 = big_endian 2 i2 in
    big_endian 2 (i2 + 4)
    ++ e2
    ++ e2
    ++ e2
    ++ e2
    ++ e2
    ++ e2
    ++ e2
    ++ big_endian 2 i1
    ++ big_endian 2 32

-- `takerData`
unfoldable pub taker_data : TakerArgs → Result Error (List ℕ)
taker_data a = do
  fail_if (not (is_address a.taker) || is_bad_address a.recipient) invalid_recipient
  checked (check_uint a.minimum)
  check_max (2 ^ 40 - 1) a.deadline
  fail_if (a.deadline == 0) deadline_required
  let recipient = recipient_bytes a
  args ← instructions_args a.input a.output (or_sixteen a.max_crossings)
  ok (
      slice_ends (length recipient)
      ++ 0 ∷ 225 ∷ big_endian 32 a.minimum
      ++ recipient
      ++ big_endian 5 a.deadline
      ++ args)
