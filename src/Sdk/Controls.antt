-- ===== src/Sdk/Controls.antt =====
-- packages/sdk/src/swap-controls.ts: the swap settings, and the largest input that leaves enough of a
-- balance that also pays for gas. Amounts are naturals.
pub mod Laws
mod Tests
use aqua_orbital.Prelude.{
  ℕ, zero, suc, ◌+◌, ◌-◌, ◌*◌, ◌/◌, ◌^◌, Bool, true, false, ◌||◌, not, List, [], ◌∷◌, Option, none,
  some, ltb, leb, ◌==◌, if◌then◌else◌, Result, ok, err, ◌>>=◌, ◌>>◌, fail_if, or_fail,
}

pub data Error : Type 0 where
  invalid_settings invalid_balance balance_too_small approval_needed estimates_changed : Error
  estimate_failed : Error

pub record SwapSettings : Type 0 where
  pub slippage_bps : ℕ
  pub deadline_seconds : ℕ

-- `[60,180,600].includes(seconds)`
abbrev pub is_deadline : ℕ → Bool
is_deadline seconds = (seconds == 60) || (seconds == 180) || (seconds == 600)

-- `swapSettings`, on integers.
unfoldable pub swap_settings : ℕ → ℕ → Result Error SwapSettings
swap_settings bps seconds = do
  fail_if (ltb bps 1 || ltb 500 bps || not (is_deadline seconds)) invalid_settings
  ok (record { slippage_bps = bps; deadline_seconds = seconds })

abbrev pub default_settings : SwapSettings
default_settings = record { slippage_bps = 10; deadline_seconds = 180 }

-- `remainingGasNative.reduce((a,b)=>a+b,0n)`
abbrev pub total : List ℕ → ℕ
total [] = 0
total (x ∷ xs) = x + total xs

-- Native gas, of eighteen decimals, in the token's six, rounded up.
abbrev pub gas_raw : List ℕ → ℕ
gas_raw costs = (total costs + 999999999999) / 1000000000000

abbrev pub reserve : List ℕ → ℕ
reserve costs = if ltb 50000 (2 * gas_raw costs) then 2 * gas_raw costs else 50000

-- The last line of `maximumSwapInput`.
abbrev pub after_reserve : ℕ → List ℕ → ℕ
after_reserve balance costs = if ltb (reserve costs) balance then balance - reserve costs else 0

-- `maximumSwapInput`, which answers null where a gas estimate is missing.
unfoldable pub maximum_swap_input : ℕ → Bool → Option (List ℕ) → Result Error (Option ℕ)
maximum_swap_input balance false remaining = do
  fail_if (leb (2 ^ 256) balance) invalid_balance
  ok (some balance)
maximum_swap_input balance true none = do fail_if (leb (2 ^ 256) balance) invalid_balance; ok none
maximum_swap_input balance true (some []) = do
  fail_if (leb (2 ^ 256) balance) invalid_balance
  ok none
maximum_swap_input balance true (some (c ∷ cs)) = do
  fail_if (leb (2 ^ 256) balance) invalid_balance
  ok (some (after_reserve balance (c ∷ cs)))

pub data Stage : Type 0 where
  approval swap : Stage

abbrev pub is_swap : Stage → Bool
is_swap approval = false
is_swap swap = true

-- `maximumSwapInput(balanceRaw,true,[cost])!`
abbrev pub candidate_at : ℕ → ℕ → Result Error ℕ
candidate_at balance cost = do
  o ← maximum_swap_input balance true (some (cost ∷ []))
  or_fail o invalid_balance

-- The estimate that the caller supplies is asked by the number of steps left and the candidate, and
-- answers `none` where it rejects.
module _ (estimate : ℕ → ℕ → Option (Stage × ℕ)) (balance : ℕ) where
  -- The loop of `estimateMaximumSwap`.
  unfoldable pub try_candidates : ℕ → ℕ → Result Error ℕ
  try_candidates zero candidate = err estimates_changed
  try_candidates (suc left) candidate = do
    fail_if (candidate == 0) balance_too_small
    (stage, cost) ← or_fail (estimate left candidate) estimate_failed
    fail_if (not (is_swap stage)) approval_needed
    next ← candidate_at balance cost
    let rest = try_candidates left next
    if leb candidate next then ok candidate else rest

  -- `estimateMaximumSwap`
  unfoldable pub estimate_maximum_swap : Result Error ℕ
  estimate_maximum_swap = do first ← candidate_at balance 0; try_candidates 3 first
