-- ===== src/Sdk/Plans/Makers.antt =====
-- The maker's plans of packages/sdk/src/plans.ts: a strategy is funded, shipped and activated, and later
-- retired and docked.
use aqua_orbital.Prelude.{
  ℕ, ◌-◌, ◌*◌, ◌^◌, Bool, true, false, ◌&&◌, ◌||◌, not, List, [], ◌∷◌, ◌++◌, Option, none, some,
  ltb, leb, ◌==◌, length, get_elem?, if◌then◌else◌, Result, ok, err, ◌>>=◌, ◌>>◌, fail_if, or_fail,
}
use aqua_orbital.Shared.{Address}
use aqua_orbital.Sdk.Errors.{
  Error, undefined_value, nonce_exhausted, invalid_approval, invalid_observations,
  inconsistent_observations, needs_fresh_nonce,
}
use aqua_orbital.Sdk.Codec.{Abi, activate_strategy, retire_strategy, ship, dock}
use aqua_orbital.Sdk.Codec.Orders.{
  encode_order, hash_order, approval_plan, activate, retire, ship_strategy, dock_strategy, Plan,
}
use aqua_orbital.Sdk.Plans.{max_amount, check_amount, Context, plan_call, Strategy, check_strategy}
use aqua_orbital.Sdk.Plans.Swaps.{index_of}

-- `buildActivateTx`
unfoldable pub build_activate_tx : Abi → Context → Strategy → Result Error Plan
build_activate_tx lib ctx s = do
  m ← check_strategy lib true ctx s
  fail_if (s.config.maker_nonce == 2 ^ 64 - 1) nonce_exhausted
  plan_call lib ctx m.router (activate_strategy s.config s.order) activate

-- `buildRetireTx`
unfoldable pub build_retire_tx : Abi → Context → Strategy → Result Error Plan
build_retire_tx lib ctx s = do
  m ← check_strategy lib true ctx s
  hash ← hash_order lib s.order
  plan_call lib ctx m.router (retire_strategy hash) retire

-- `buildShipTx`
unfoldable pub build_ship_tx : Abi → Context → Strategy → Result Error Plan
build_ship_tx lib ctx s = do
  m ← check_strategy lib true ctx s
  order ← encode_order lib s.order
  plan_call lib ctx m.aqua (ship m.router order s.config.tokens s.config.initial_amounts_raw)
      ship_strategy

-- `buildDockTx`
unfoldable pub build_dock_tx : Abi → Context → Strategy → Result Error Plan
build_dock_tx lib ctx s = do
  m ← check_strategy lib true ctx s
  hash ← hash_order lib s.order
  plan_call lib ctx m.aqua (dock m.router hash s.config.tokens) dock_strategy

-- `input.reset?0n:amount(input.config.initialAmountsRaw[index]!*4n)`
abbrev pub approved_amount : Bool → Option ℕ → Result Error ℕ
approved_amount true initial = ok 0
approved_amount false none = err undefined_value
approved_amount false (some r) = check_amount max_amount true (r * 4) >> ok (r * 4)

-- `buildMakerApprovalTx`, of a token and whether its allowance is reset.
unfoldable pub build_maker_approval_tx :
    Abi → Context → Strategy → Address → Bool → Result Error Plan
build_maker_approval_tx lib ctx s token reset = do
  m ← check_strategy lib true ctx s
  index ← or_fail (index_of token s.config.tokens) invalid_approval
  amount ← approved_amount reset (get_elem? s.config.initial_amounts_raw index)
  approval_plan lib m ctx.account token m.aqua amount

pub data Lifecycle : Type 0 where
  unknown active retired : Lifecycle

-- What `MakerInput` adds to a strategy: what was observed in one block.
pub record Observed : Type 0 where
  pub allowances : List ℕ
  pub reset_required : List Bool
  pub shipped : Bool
  pub docked : Bool
  pub lifecycle : Lifecycle

abbrev pub is_unknown : Lifecycle → Bool
is_unknown unknown = true
is_unknown _ = false

abbrev pub is_retired : Lifecycle → Bool
is_retired retired = true
is_retired _ = false

abbrev pub check_allowances : List ℕ → Result Error (Unit {0})
check_allowances [] = ok tt
check_allowances (v ∷ vs) = check_amount max_amount false v >> check_allowances vs

-- The tests of the observations.
abbrev pub check_observed : Strategy → Observed → Result Error (Unit {0})
check_observed s seen = do
  fail_if
      (not (length seen.allowances == length s.config.tokens)
        || not (length seen.reset_required == length s.config.tokens))
      invalid_observations
  check_allowances seen.allowances
  fail_if ((not (is_unknown seen.lifecycle) || seen.docked) && not seen.shipped)
      inconsistent_observations
  fail_if (seen.docked || is_retired seen.lifecycle) needs_fresh_nonce

-- The approvals of one token, none where its allowance is four times the funding.
unfoldable pub token_approvals :
    Abi → Context → Strategy → Address → ℕ → ℕ → Bool → Result Error (List Plan)
token_approvals lib ctx s token initial allowance needs_reset =
    let reset = build_maker_approval_tx lib ctx s token true in
    let raise = build_maker_approval_tx lib ctx s token false in
    check_amount max_amount true (initial * 4)
    >> (if leb (initial * 4) allowance
        then ok []
        else (if needs_reset && ltb 0 allowance
            then (reset >>= λ first. raise >>= λ second. ok (first ∷ second ∷ []))
            else (raise >>= λ only. ok (only ∷ []))))

-- The loop over the tokens. The lists are of one length.
unfoldable pub all_approvals :
    Abi → Context → Strategy → List Address → List ℕ → List ℕ → List Bool → Result Error (List Plan)
all_approvals lib ctx s (token ∷ tokens) (initial ∷ initials) (allowance ∷ allowances)
      (reset ∷ resets) =
    do
      first ← token_approvals lib ctx s token initial allowance reset
      rest ← all_approvals lib ctx s tokens initials allowances resets
      ok (first ++ rest)
all_approvals lib ctx s _ _ _ _ = ok []

-- `if(!input.shipped)steps.push(buildShipTx(ctx,input))`
abbrev pub step_unless : Bool → Result Error Plan → Result Error (List Plan)
step_unless true build = ok []
step_unless false build = build >>= λ step. ok (step ∷ [])

-- What follows the observations.
abbrev pub maker_steps : Abi → Context → Strategy → Observed → Lifecycle → Result Error (List Plan)
maker_steps lib ctx s seen active = ok []
maker_steps lib ctx s seen _ = do
  approvals ←
      all_approvals lib ctx s s.config.tokens s.config.initial_amounts_raw seen.allowances
        seen.reset_required
  shipping ← step_unless seen.shipped (build_ship_tx lib ctx s)
  activation ← build_activate_tx lib ctx s
  ok (approvals ++ shipping ++ activation ∷ [])

-- `buildMakerPlan`
unfoldable pub build_maker_plan : Abi → Context → Strategy → Observed → Result Error (List Plan)
build_maker_plan lib ctx s seen = do
  m ← check_strategy lib true ctx s
  check_observed s seen
  maker_steps lib ctx s seen seen.lifecycle

-- `buildRetireAndDockPlan`
unfoldable pub build_retire_and_dock_plan :
    Abi → Context → Strategy → (is_off is_docked : Bool) → Result Error (List Plan)
build_retire_and_dock_plan lib ctx s is_off is_docked = do
  m ← check_strategy lib true ctx s
  first ← step_unless is_off (build_retire_tx lib ctx s)
  rest ← step_unless is_docked (build_dock_tx lib ctx s)
  ok (first ++ rest)
