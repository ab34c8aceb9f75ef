-- ===== src/Indexer/Events.antt =====
-- The events of a block, decoded and projected (apps/indexer/src/materializer.ts: `decode`,
-- `authenticateConfig`, `projection`, `prepareProjections`). The ABI encodings are the library's.

use aqua_orbital.Prelude.{
  ℕ, ◌+◌, ◌*◌, ◌/◌, ◌^◌, Bool, true, false, ◌&&◌, ◌||◌, not, List, [], ◌∷◌, Option, none, some, ltb,
  leb, ◌==◌, any, map, length, distinct, find, if◌then◌else◌, Result, ok, err, ◌>>=◌, ◌>>◌, fail_if,
  or_fail,
}
use aqua_orbital.Shared.{Address, Token, Manifest}
use aqua_orbital.Sdk.Codec.{Config, Abi}
use aqua_orbital.Sdk.Codec.Orders.{hash_config, build_order, hash_order}
use aqua_orbital.Sdk.Errors as SdkErrors
use aqua_orbital.Indexer.Canonical.{RawLog, same, same_option, same_topics}
use aqua_orbital.Projections.{Config as StoredConfig}
use aqua_orbital.Projections.Strategies.{Swap, strategy_activated, strategy_retired, strategy_swap}
use aqua_orbital.Projections.Invoices.{Payment, invoice_created, invoice_cancelled, invoice_paid}
use aqua_orbital.Projections.Blocks.{Scope, Kind, strategy_kind, invoice_kind, Projection}

pub data Error : Type 0 where
  emitter_mismatch invalid_event_abi invalid_event_arguments : Error
  activation_config_mismatch block_hydration_limit rpc_failed : Error

-- The events of `allEvents`.
pub data Name : Type 0 where
  strategy_activated_name strategy_retired_name : Name
  invoice_cancelled_name invoice_created_name invoice_paid_name : Name
  orbital_swap_executed_name : Name

abbrev pub all_events : List Name
all_events =
    strategy_activated_name ∷ strategy_retired_name ∷ invoice_cancelled_name ∷ invoice_created_name
    ∷ invoice_paid_name ∷ orbital_swap_executed_name ∷ []

-- The arguments of an `InvoiceCreated`.
pub record Created : Type 0 where
  pub invoice_id : ℕ
  pub merchant : ℕ
  pub amount_due : ℕ
  pub expires_at : ℕ
  pub recipients : List ℕ
  pub bps : List ℕ
  pub memo_hash : ℕ

-- A decoded event.
pub data Decoded : Type 0 where
  activated : (order_hash maker config_hash : ℕ) → Decoded
  retired : (order_hash maker version : ℕ) → Decoded
  swapped : (order_hash maker : ℕ) → Swap → Decoded
  created : Created → Decoded
  cancelled : (invoice_id merchant : ℕ) → Decoded
  paid : (invoice_id merchant : ℕ) → Payment → Decoded

-- viem's functions and `JSON.stringify`, on the values that are used here. A function answers `none`
-- where it throws. `payload_log` has the topics and the data of a payload that has version 1 and a list
-- of topics, and `config_of` the fields of a stored configuration of the schema's shape.
pub record Library : Type 0 where
  pub abi : Abi
  pub selector : Name → ℕ
  pub decode_event : Name → RawLog → Option Decoded
  pub encode_data : Decoded → Option (ℕ × ℕ)
  pub encode_topics : Decoded → Option (List (Option ℕ))
  pub decode_config : ℕ → Option Config
  pub payload_text : RawLog → ℕ
  pub payload_log : ℕ → Option (List (Option ℕ) × Option ℕ × ℕ)
  pub config_of : ℕ → Option Config
  pub config_text : Config → ℕ
  pub tokens_text : List Address → ℕ
  pub recipients_text : List ℕ → List ℕ → ℕ
  pub projection_text : (entity maker tx_hash log_index : ℕ) → Kind → ℕ

-- `entry.name.startsWith('Strategy')||entry.name==='OrbitalSwapExecuted'`
abbrev pub is_router_event : Name → Bool
is_router_event strategy_activated_name = true
is_router_event strategy_retired_name = true
is_router_event orbital_swap_executed_name = true
is_router_event _ = false

abbrev pub emitter_for : Scope → Name → ℕ
emitter_for scope name = if is_router_event name then scope.router else scope.payments

abbrev pub first_topic : List (Option ℕ) → Option ℕ
first_topic [] = none
first_topic (t ∷ ts) = t

-- `allEvents.find(…)`
abbrev pub event_of : Library → RawLog → Option Name
event_of lib l = find (λ (n : Name). same (some (lib.selector n)) (first_topic l.topics)) all_events

-- The data and the topics of the event, encoded again.
abbrev pub has_data : Option (ℕ × ℕ) → RawLog → Bool
has_data none l = false
has_data (some (count, bytes)) l = same_option (some count) l.byte_count && (bytes == l.bytes)

abbrev pub has_topics : Option (List (Option ℕ)) → RawLog → Bool
has_topics none l = false
has_topics (some ts) l = same_topics ts l.topics

abbrev pub decode_as : Library → Scope → RawLog → Name → Result Error Decoded
decode_as lib scope l name = do
  fail_if (not (l.address == emitter_for scope name)) emitter_mismatch
  decoded ← or_fail (lib.decode_event name l) invalid_event_abi
  fail_if (not (has_data (lib.encode_data decoded) l)) invalid_event_abi
  fail_if (not (has_topics (lib.encode_topics decoded) l)) invalid_event_abi
  ok decoded

-- `decode`: none where the log is of another event.
unfoldable pub decode : Library → Scope → RawLog → Result Error (Option Decoded)
decode lib scope l = elim (event_of lib l) [
  | none ↦ ok none
  | some name ↦ decode_as lib scope l name >>= λ d. ok (some d)
]

-- A call of the codec, inside the `try` of a hydration.
abbrev pub checked {ℓ} : {A : Type ℓ} → Result SdkErrors.Error A → Result Error A
checked (err e) = err activation_config_mismatch
checked (ok a) = ok a

-- `config.tokens.some((token,i)=>!manifest.tokens.some(…))`, with the decimals of the tokens left.
abbrev pub has_unlisted : List Token → List Address → List ℕ → Bool
has_unlisted listed [] ds = false
has_unlisted listed (t ∷ ts) [] = true
has_unlisted listed (t ∷ ts) (d ∷ ds) =
    not (any (λ (a : Token). (a.address.value == t.value) && (a.decimals == d)) listed)
    || has_unlisted listed ts ds

-- `authenticateConfig`, for an activation.
unfoldable pub authenticate_config :
    Library
    → Scope
    → Manifest
    → Config
    → (order_hash maker config_hash : ℕ) → Result Error (Unit {0})
authenticate_config lib scope m c order_hash maker config_hash = do
  fail_if
      (not (c.chain_id == m.chain_id)
        || not (c.router.value == scope.router)
        || not (c.maker.value == maker))
      activation_config_mismatch
  known ← checked (hash_config lib.abi c)
  fail_if (not (known == config_hash)) activation_config_mismatch
  order ← checked (build_order lib.abi c)
  hash ← checked (hash_order lib.abi order)
  fail_if (not (hash == order_hash) || has_unlisted m.tokens c.tokens c.decimals)
      activation_config_mismatch

-- `validAddress`, of an address that the library has decoded.
abbrev pub is_valid_address : ℕ → Bool
is_valid_address a = not (a == 0)

-- The configurations by order, the newest first.
abbrev pub config_at : ℕ → List (ℕ × Config) → Option Config
config_at hash [] = none
config_at hash ((h, c) ∷ cs) = if h == hash then some c else config_at hash cs

abbrev pub total : List ℕ → ℕ
total [] = 0
total (b ∷ bs) = b + total bs

-- What `InvoiceCreated` is tested for.
abbrev pub is_bad_invoice : Scope → Created → Bool
is_bad_invoice scope a =
    (a.amount_due == 0)
    || leb (2 ^ 160 / (10 ^ 12 * 2 ^ 64)) a.amount_due
    || (a.expires_at == 0)
    || ltb (length a.recipients) 1
    || ltb 3 (length a.recipients)
    || not (length a.recipients == length a.bps)
    || not (distinct a.recipients)
    || any (λ r. not (is_valid_address r) || (r == scope.payments)) a.recipients
    || any (λ b. b == 0) a.bps
    || not (total a.bps == 10000)

-- What the route of `InvoicePaid` is tested for.
abbrev pub is_bad_route : Manifest → Payment → Bool
is_bad_route m p =
    if p.route_hash == 0
    then not (p.token_in == m.usdc.value) || not (p.input == p.received) || not (p.refund == 0)
    else p.token_in == m.usdc.value

abbrev pub is_bad_payment : Manifest → Payment → Bool
is_bad_payment m p =
    not (is_valid_address p.payer)
    || not (any (λ (t : Token). t.address.value == p.token_in) m.tokens)
    || (p.input == 0)
    || is_bad_route m p

-- `configToDTO`, with the fields that a swap reads.
abbrev pub stored_config : Library → Config → StoredConfig
stored_config lib c = record {
  text = lib.config_text c;
  tokens = map (λ (a : Address). a.value) c.tokens;
  decimals = c.decimals;
  fee_ppm = c.fee_ppm;
  tick_keys = c.tick_keys;
}

abbrev pub maker_of : Decoded → ℕ
maker_of (activated order_hash maker config_hash) = maker
maker_of (retired order_hash maker version) = maker
maker_of (swapped order_hash maker s) = maker
maker_of (created a) = a.merchant
maker_of (cancelled id merchant) = merchant
maker_of (paid id merchant p) = merchant

abbrev pub entity_of : Decoded → ℕ
entity_of (activated order_hash maker config_hash) = order_hash
entity_of (retired order_hash maker version) = order_hash
entity_of (swapped order_hash maker s) = order_hash
entity_of (created a) = a.invoice_id
entity_of (cancelled id merchant) = id
entity_of (paid id merchant p) = id

-- The cases of `projection`.
unfoldable pub kind_of :
    Library → Scope → Manifest → List (ℕ × Config) → Decoded → Result Error Kind
kind_of lib scope m configs (activated order_hash maker config_hash) = do
  config ← or_fail (config_at order_hash configs) activation_config_mismatch
  ok (
      strategy_kind (
        strategy_activated config_hash (stored_config lib config) config.maker_nonce
          (lib.tokens_text config.tokens)))
kind_of lib scope m configs (retired order_hash maker version) =
    fail_if (ltb version 2) invalid_event_arguments
    >> ok (strategy_kind (strategy_retired (some version)))
kind_of lib scope m configs (swapped order_hash maker s) =
    fail_if (not (is_valid_address s.taker) || not (is_valid_address s.recipient))
      invalid_event_arguments
    >> ok (strategy_kind (strategy_swap s))
kind_of lib scope m configs (created a) =
    fail_if (is_bad_invoice scope a) invalid_event_arguments
    >> ok (
        invoice_kind (
          invoice_created (record {
            amount_due = a.amount_due;
            expires_at = a.expires_at;
            recipients = lib.recipients_text a.recipients a.bps;
            memo_hash = a.memo_hash;
          })))
kind_of lib scope m configs (cancelled id merchant) = ok (invoice_kind invoice_cancelled)
kind_of lib scope m configs (paid id merchant p) =
    fail_if (is_bad_payment m p) invalid_event_arguments >> ok (invoice_kind (invoice_paid p))

-- A hash that `is_log` has tested.
abbrev pub hash_or_zero : Option ℕ → ℕ
hash_or_zero none = 0
hash_or_zero (some h) = h

abbrev pub projection_of : Library → RawLog → Decoded → Kind → Projection
projection_of lib l d k = record {
  entity = entity_of d;
  maker = maker_of d;
  tx_hash = hash_or_zero l.transaction_hash;
  log_index = l.log_index;
  kind = k;
  text =
      lib.projection_text (entity_of d) (maker_of d) (hash_or_zero l.transaction_hash) l.log_index
        k;
}

-- `projection`
unfoldable pub projection :
    Library → Scope → Manifest → List (ℕ × Config) → RawLog → Decoded → Result Error Projection
projection lib scope m configs l d = do
  fail_if (not (is_valid_address (maker_of d))) invalid_event_arguments
  k ← kind_of lib scope m configs d
  ok (projection_of lib l d k)

-- The logs with what they are decoded to.
unfoldable pub decode_all :
    Library → Scope → List RawLog → Result Error (List (RawLog × Option Decoded))
decode_all lib scope [] = ok []
decode_all lib scope (l ∷ ls) = do
  d ← decode lib scope l
  rest ← decode_all lib scope ls
  ok ((l, d) ∷ rest)

-- `decoded.filter(item=>item.event?.eventName==='StrategyActivated')`, with the arguments.
abbrev pub activations : List (RawLog × Option Decoded) → List (ℕ × ℕ × ℕ)
activations [] = []
activations ((l, some (activated order_hash maker config_hash)) ∷ ds) =
    (order_hash, maker, config_hash) ∷ activations ds
activations ((l, d) ∷ ds) = activations ds

-- `MAX_BLOCK_HYDRATIONS`
abbrev pub max_block_hydrations : ℕ
max_block_hydrations = 32

-- The loop over the activations. `call` is asked by the number of calls made before, and with the order;
-- where several of one group of four fail, the error is the first one's.
unfoldable pub hydrate :
    Library
    → Scope
    → Manifest
    → (ℕ → ℕ → Option ℕ)
    → ℕ
    → List (ℕ × ℕ × ℕ)
    → List (ℕ × Config)
    → Result Error (ℕ × List (ℕ × Config))
hydrate lib scope m call clock [] configs = ok (clock, configs)
hydrate lib scope m call clock ((order_hash, maker, config_hash) ∷ as1) configs = do
  raw ← or_fail (call clock order_hash) rpc_failed
  config ← or_fail (lib.decode_config raw) activation_config_mismatch
  authenticate_config lib scope m config order_hash maker config_hash
  hydrate lib scope m call (clock + 1) as1 ((order_hash, config) ∷ configs)

-- `decoded.filter(item=>item.event).map(…)`
unfoldable pub project_all :
    Library
    → Scope
    → Manifest
    → List (ℕ × Config)
    → List (RawLog × Option Decoded)
    → Result Error (List Projection)
project_all lib scope m configs [] = ok []
project_all lib scope m configs ((l, none) ∷ ds) = project_all lib scope m configs ds
project_all lib scope m configs ((l, some d) ∷ ds) = do
  p ← projection lib scope m configs l d
  rest ← project_all lib scope m configs ds
  ok (p ∷ rest)

-- `prepareProjections`, with the number of calls made before and after.
unfoldable pub prepare_projections :
    Library
    → Scope
    → Manifest
    → (ℕ → ℕ → Option ℕ)
    → ℕ
    → List RawLog
    → Result Error (ℕ × List Projection)
prepare_projections lib scope m call clock ls = do
  decoded ← decode_all lib scope ls
  fail_if (ltb max_block_hydrations (length (activations decoded))) block_hydration_limit
  (after, configs) ← hydrate lib scope m call clock (activations decoded) []
  ps ← project_all lib scope m configs decoded
  ok (after, ps)
