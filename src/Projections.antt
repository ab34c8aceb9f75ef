-- ===== src/Projections.antt =====
-- packages/db/src/materialization.ts: the rows that the events of a deployment are projected to. The
-- model has one deployment of one chain, so that no row names either. Hashes, addresses and JSON texts
-- are only compared, so they are numbers. A numeral is its number, and `none` where the text is none.
pub mod Strategies
pub mod Invoices
pub mod Blocks
pub mod Empty
use aqua_orbital.Prelude.{
  ℕ, ◌^◌, Bool, ◌&&◌, ◌||◌, List, Option, none, some, ltb, leb, ◌==◌, Result, ok, err, fail_if,
  ◌>>◌, ◌>>=◌,
}

pub data Error : Type 0 where
  invalid_strategy_transition invalid_swap_transition invalid_invoice_transition : Error
  conflicting_strategy_snapshot unique_violation check_violation : Error

-- The addresses of `DeploymentScope` that the projections compare.
pub record Scope : Type 0 where
  pub aqua : ℕ
  pub router : ℕ

-- Where an event stands: its block, and what `EventIdentity` and `RawEvent` say of it.
pub record Source : Type 0 where
  pub block_number : ℕ
  pub block_hash : ℕ
  pub tx_hash : ℕ
  pub log_index : ℕ

-- `block_number<$4 OR (block_number=$4 AND log_index<$5)`
abbrev pub is_before : Source → Source → Bool
is_before a b =
    ltb a.block_number b.block_number
    || (a.block_number == b.block_number) && ltb a.log_index b.log_index

-- The primary keys end in the block, the transaction and the log.
abbrev pub same_source : Source → Source → Bool
same_source a b =
    (a.block_hash == b.block_hash) && (a.tx_hash == b.tx_hash) && (a.log_index == b.log_index)

-- The configuration that an activation stores, as far as a swap reads it.
pub record Config : Type 0 where
  pub text : ℕ
  pub tokens : List ℕ
  pub decimals : List ℕ
  pub fee_ppm : ℕ
  pub tick_keys : List ℕ

-- `uint(value,bits)`
abbrev pub uint : Option ℕ → ℕ → Result Error ℕ
uint none bits = err invalid_swap_transition
uint (some v) bits = fail_if (leb (2 ^ bits) v) invalid_swap_transition >> ok v
