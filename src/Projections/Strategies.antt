-- ===== src/Projections/Strategies.antt =====
-- `strategyEvent` and `swapEvent` of packages/db/src/materialization.ts.
pub mod Paths
pub mod Lives
pub mod Histories
mod Tests
use aqua_orbital.Prelude.{
  ℕ, suc, ◌+◌, ◌*◌, ◌/◌, ◌^◌, Bool, true, false, ◌&&◌, ◌||◌, not, List, [], ◌∷◌, Option, none, some,
  ltb, leb, ◌==◌, any, includes, length, get_elem?, if◌then◌else◌, Result, ok, err, ◌>>=◌, ◌>>◌,
  fail_if, or_fail,
}
use aqua_orbital.Projections.{
  Error, invalid_strategy_transition, invalid_swap_transition, conflicting_strategy_snapshot,
  unique_violation, check_violation, Scope, Source, is_before, same_source, Config, uint,
}

pub data Lifecycle : Type 0 where
  active retired : Lifecycle

abbrev pub is_active : Lifecycle → Bool
is_active active = true
is_active retired = false

abbrev pub same_lifecycle : Lifecycle → Lifecycle → Bool
same_lifecycle active active = true
same_lifecycle retired retired = true
same_lifecycle _ _ = false

-- A row of strategy_snapshots.
pub record Snapshot : Type 0 where
  pub order_hash : ℕ
  pub maker : ℕ
  pub config_hash : ℕ
  pub config : Config
  pub maker_nonce : ℕ
  pub tokens : ℕ
  pub lifecycle : Lifecycle
  pub version : ℕ
  pub source : Source

-- What `strategy_swap` adds to an event.
pub record Swap : Type 0 where
  pub taker : ℕ
  pub recipient : ℕ
  pub token_in_index : ℕ
  pub token_out_index : ℕ
  pub gross_input : Option ℕ
  pub net_input : Option ℕ
  pub fee : Option ℕ
  pub amount_out : Option ℕ
  pub version : Option ℕ
  pub crossings : List (Option ℕ × Bool)

-- The strategy events of `ProjectionEvent`.
pub data Kind : Type 0 where
  strategy_activated : (config_hash : ℕ) (config : Config) (maker_nonce tokens : ℕ) → Kind
  strategy_retired : (version : Option ℕ) → Kind
  strategy_swap : Swap → Kind

pub record Event : Type 0 where
  pub entity : ℕ
  pub maker : ℕ
  pub source : Source
  pub kind : Kind

-- A row of swap_receipts.
pub record Receipt : Type 0 where
  pub order_hash : ℕ
  pub version : ℕ
  pub gross_input : ℕ
  pub net_input : ℕ
  pub fee : ℕ
  pub fee_ppm : ℕ
  pub amount_out : ℕ
  pub token_in : ℕ
  pub token_out : ℕ
  pub source : Source

-- The tables, the newest row first.
pub record Tables : Type 0 where
  pub snapshots : List Snapshot
  pub receipts : List Receipt

-- ORDER BY block_number DESC, log_index DESC LIMIT 1
abbrev pub later : Snapshot → Option Snapshot → Snapshot
later r none = r
later r (some q) = if is_before r.source q.source then q else r

abbrev pub is_prior : ℕ → Source → Snapshot → Bool
is_prior order at r = (r.order_hash == order) && is_before r.source at

-- The latest row of an order before an event.
unfoldable pub prior_of : ℕ → Source → List Snapshot → Option Snapshot
prior_of order at [] = none
prior_of order at (r ∷ rs) =
    let rest = prior_of order at rs in if is_prior order at r then some (later r rest) else rest

-- `!prior||prior.lifecycle!=='active'||prior.maker!==event.maker||uint(event.version,64)!==…`
-- It gives the event's version, which is what is stored, and the prior row.
unfoldable pub follows : Error → Event → Option ℕ → Option Snapshot → Result Error (ℕ × Snapshot)
follows e event version none = err e
follows e event version (some prior) = do
  fail_if (not (is_active prior.lifecycle) || not (prior.maker == event.maker)) e
  v ← uint version 64
  fail_if (not (v == prior.version + 1)) e
  ok (v, prior)

-- `ordinary`, the tick keys less the last one, and `ordinary.indexOf(key)`
abbrev pub ordinary : List ℕ → List ℕ
ordinary [] = []
ordinary (k ∷ []) = []
ordinary (k ∷ l ∷ ks) = k ∷ ordinary (l ∷ ks)

abbrev pub index_of : ℕ → List ℕ → Option ℕ
index_of key [] = none
index_of key (k ∷ ks) =
    if k == key then some 0 else elim (index_of key ks) [ none ↦ none | some i ↦ some (suc i) ]

-- `prefix!==undefined&&keyIndex!==(inward?prefix-1:prefix)`
abbrev pub leaves_path : Option ℕ → Bool → ℕ → Bool
leaves_path none inward i = false
leaves_path (some prefix) true i = not (i + 1 == prefix)
leaves_path (some prefix) false i = not (i == prefix)

-- The loop over the crossings, with the prefix that it has reached.
unfoldable pub check_path : List ℕ → Option ℕ → List (Option ℕ × Bool) → Result Error (Unit {0})
check_path keys prefix [] = ok tt
check_path keys prefix ((key, inward) ∷ crossings) = do
  k ← uint key 64
  i ← or_fail (index_of k keys) invalid_swap_transition
  fail_if (leaves_path prefix inward i) invalid_swap_transition
  check_path keys (some (if inward then i else i + 1)) crossings

-- The tests of the indices and of the fee.
abbrev pub is_bad_pair : Config → Swap → Bool
is_bad_pair c s =
    (s.token_in_index == s.token_out_index)
    || leb (length c.tokens) s.token_in_index
    || leb (length c.tokens) s.token_out_index
    || not (includes c.fee_ppm (100 ∷ 500 ∷ 1000 ∷ []))

-- The tests of the taker and of the recipient. An address is below 2^160.
abbrev pub is_bad_party : Scope → ℕ → ℕ → Bool
is_bad_party scope maker a =
    (a == 0) || leb (2 ^ 160) a || includes a (maker ∷ scope.router ∷ scope.aqua ∷ [])

-- The tests of the amounts.
abbrev pub is_bad_money : (fee_ppm gross net fee out : ℕ) → Bool
is_bad_money fee_ppm gross net fee out =
    (gross == 0)
    || (net == 0)
    || (out == 0)
    || (fee == 0)
    || not (net + fee == gross)
    || not (fee == (gross * fee_ppm + 999999) / 1000000)

-- The keys of swap_receipts: the source, and (order_hash, version).
abbrev pub same_receipt : Receipt → Receipt → Bool
same_receipt a b =
    same_source a.source b.source || (a.order_hash == b.order_hash) && (a.version == b.version)

-- The row's check that the tokens differ and that their indices are below 8.
abbrev pub is_bad_row : Swap → Receipt → Bool
is_bad_row s r = leb 8 s.token_in_index || leb 8 s.token_out_index || (r.token_in == r.token_out)

-- INSERT INTO swap_receipts
unfoldable pub insert_receipt : Swap → Receipt → List Receipt → Result Error (List Receipt)
insert_receipt s r rs = do
  fail_if (is_bad_row s r) check_violation
  fail_if (any (same_receipt r) rs) unique_violation
  ok (r ∷ rs)

-- What `swapEvent` stores once its prior row is known, under the event's version.
unfoldable pub swap_rows :
    Scope → Event → Swap → (version : ℕ) → Snapshot → List Receipt → Result Error (List Receipt)
swap_rows scope event s version prior receipts = do
  let c = prior.config
  fail_if (is_bad_pair c s) invalid_swap_transition
  fail_if (is_bad_party scope event.maker s.taker || is_bad_party scope event.maker s.recipient)
      invalid_swap_transition
  gross ← uint s.gross_input 256
  net ← uint s.net_input 256
  fee ← uint s.fee 256
  out ← uint s.amount_out 256
  fail_if (is_bad_money c.fee_ppm gross net fee out) invalid_swap_transition
  fail_if (ltb 16 (length s.crossings)) invalid_swap_transition
  check_path (ordinary c.tick_keys) none s.crossings
  token_in ← or_fail (get_elem? c.tokens s.token_in_index) invalid_swap_transition
  token_out ← or_fail (get_elem? c.tokens s.token_out_index) invalid_swap_transition
  insert_receipt s
      (record {
        order_hash = event.entity;
        version = version;
        gross_input = gross;
        net_input = net;
        fee = fee;
        fee_ppm = c.fee_ppm;
        amount_out = out;
        token_in = token_in;
        token_out = token_out;
        source = event.source;
      })
      receipts

-- `swapEvent`: the event's version and the prior row, and the receipts.
unfoldable pub swap_event :
    Scope
    → Event
    → Swap
    → Option Snapshot
    → List Receipt
    → Result Error ((ℕ × Snapshot) × List Receipt)
swap_event scope event s found receipts = do
  (version, prior) ← follows invalid_swap_transition event s.version found
  rows ← swap_rows scope event s version prior receipts
  ok ((version, prior), rows)

-- The row that follows another, under the event's version and source.
abbrev pub next_of : Event → Lifecycle → ℕ × Snapshot → Snapshot
next_of event lifecycle (version, prior) = record {
  order_hash = event.entity;
  maker = event.maker;
  config_hash = prior.config_hash;
  config = prior.config;
  maker_nonce = prior.maker_nonce;
  tokens = prior.tokens;
  lifecycle = lifecycle;
  version = version;
  source = event.source;
}

-- Whether a row is stored with the same values.
abbrev pub same_row : Snapshot → Snapshot → Bool
same_row a b =
    (a.order_hash == b.order_hash)
    && same_source a.source b.source
    && (a.maker == b.maker)
    && (a.config_hash == b.config_hash)
    && (a.config.text == b.config.text)
    && (a.maker_nonce == b.maker_nonce)
    && (a.tokens == b.tokens)
    && same_lifecycle a.lifecycle b.lifecycle
    && (a.version == b.version)
    && (a.source.block_number == b.source.block_number)

abbrev pub same_key : Snapshot → Snapshot → Bool
same_key a b = (a.order_hash == b.order_hash) && same_source a.source b.source

-- INSERT … ON CONFLICT DO NOTHING, and the query whether the row is stored.
unfoldable pub insert_snapshot : Snapshot → List Snapshot → Result Error (List Snapshot)
insert_snapshot r rs =
    if any (same_key r) rs
    then (fail_if (not (any (same_row r) rs)) conflicting_strategy_snapshot >> ok rs)
    else ok (r ∷ rs)

-- The value that `strategyEvent` stores, and the receipts.
unfoldable pub strategy_value :
    Scope → Event → Kind → Option Snapshot → List Receipt → Result Error (Snapshot × List Receipt)
strategy_value scope event (strategy_activated config_hash config maker_nonce tokens) none rs = ok (
  record {
    order_hash = event.entity;
    maker = event.maker;
    config_hash = config_hash;
    config = config;
    maker_nonce = maker_nonce;
    tokens = tokens;
    lifecycle = active;
    version = 1;
    source = event.source;
  },
  rs,
)
strategy_value scope event (strategy_activated config_hash config nonce tokens) (some prior) rs =
    err invalid_strategy_transition
strategy_value scope event (strategy_retired version) found rs = do
  prior ← follows invalid_strategy_transition event version found
  ok (next_of event retired prior, rs)
strategy_value scope event (strategy_swap s) found rs = do
  swapped ← swap_event scope event s found rs
  ok (next_of event active swapped.0, swapped.1)

-- `strategyEvent`
unfoldable pub strategy_event : Scope → Event → Tables → Result Error Tables
strategy_event scope event t = do
  value ←
      strategy_value scope event event.kind (prior_of event.entity event.source t.snapshots)
        t.receipts
  snapshots ← insert_snapshot value.0 t.snapshots
  ok (record { snapshots = snapshots; receipts = value.1 })

-- The strategy events of a block in the loop over its projections, or of several blocks.
unfoldable pub strategy_events : Scope → List Event → Tables → Result Error Tables
strategy_events scope [] t = ok t
strategy_events scope (event ∷ events) t = do
  next ← strategy_event scope event t
  strategy_events scope events next
