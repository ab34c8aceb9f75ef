-- ===== src/PaymentSearch/Search.antt =====
-- `searchPaymentInput` of apps/api/src/payment-search.ts. An order hash is a number, since the search
-- only compares hashes; the amounts are naturals.
pub mod Outcomes
pub mod Stages
pub mod Invariant
pub mod Refining
pub mod Laws
pub mod Promises
pub mod Errors
mod Tests
use aqua_orbital.Prelude.{
  ℕ, zero, suc, ◌+◌, ◌*◌, ◌/◌, ◌^◌, min, Bool, true, false, ◌||◌, not, List, [], ◌∷◌, map, Option,
  none, some, ltb, leb, ◌==◌, length, distinct, if◌then◌else◌, Result, ok, err, ◌>>=◌, ◌>>◌,
  fail_if, or_fail,
}
use aqua_orbital.PaymentSearch.Retain.{Value, retain}
use Outcomes.{Outcome, Tally, fresh, record_outcomes}

pub data Error : Type 0 where
  search_invalid : Error
  budget : Error
  stage_invalid : Error
  value_invalid : Error
  aborted : Error
  probe_failed : Error
  out_of_fuel : Error

-- A `PaymentSearchStage`. A reply of any other shape is malformed.
pub data Reply : Type 0 where
  malformed : Reply
  staged : List Outcome → Option Value → Reply

-- What the caller supplies. Each function is asked by the number of checkpoints passed so far, which
-- grows between any two calls, so an answer may depend on all that went before. A probe that rejects
-- answers `none`.
pub record Oracle : Type 0 where
  pub checkpoint : ℕ → Bool
  pub probe : ℕ → ℕ → Option Reply
  pub should_refine : Option (ℕ → Bool)

pub data StopReason : Type 0 where
  no_eligible_strategies search_exhausted adjacent_cursor : StopReason
  refinement_limit aggregate_limit refinement_skipped : StopReason

-- The mutable `result`, with the number of checkpoints passed.
pub record Search : Type 0 where
  pub selected : Option (ℕ × Value)
  pub stages_used : ℕ
  pub expansion_stages : ℕ
  pub refinement_stages : ℕ
  pub quote_calls_used : ℕ
  pub quote_batches_used : ℕ
  pub outcomes : List Tally
  pub stop_reason : StopReason
  pub clock : ℕ

abbrev pub max_expansions : ℕ
max_expansions = 8

abbrev pub max_refinements : ℕ
max_refinements = 8

abbrev pub max_stages : ℕ
max_stages = 16

abbrev pub max_quote_calls : ℕ
max_quote_calls = 128

abbrev pub batch_size : ℕ
batch_size = 8

abbrev pub max_eligible : ℕ
max_eligible = 32

pub data Kind : Type 0 where
  expansion refinement : Kind

-- `result.selected !== null`
abbrev pub is_selected {ℓ} : {A : Type ℓ} → Option A → Bool
is_selected none = false
is_selected (some a) = true

-- `Math.ceil(count/limits.batchSize)`
abbrev pub batches : ℕ → ℕ
batches count = (count + 7) / batch_size

-- What `stage` adds to the counters before it asks the probe.
abbrev pub charge_kind : Kind → Search → Search
charge_kind expansion s = record s { expansion_stages = s.expansion_stages + 1 }
charge_kind refinement s = record s { refinement_stages = s.refinement_stages + 1 }

abbrev pub charge : ℕ → Kind → Search → Search
charge count kind s = charge_kind kind (record s {
  stages_used = s.stages_used + 1;
  quote_calls_used = s.quote_calls_used + count;
  quote_batches_used = s.quote_batches_used + batches count;
})

-- A value is kept as its bounded copy.
abbrev pub keep_value : ℕ → Option Value → Search → Result Error Search
keep_value amount none s = ok s
keep_value amount (some v) s = do
  copied ← or_fail (retain v) value_invalid
  ok (record s { selected = some (amount, copied) })

-- `(quoted>0)!==(response.value!==null)`
abbrev pub inconsistent : ℕ → Option Value → Bool
inconsistent n none = ltb 0 n
inconsistent n (some v) = not (ltb 0 n)

-- The reply's outcomes, checked and counted, and its value.
pub settle : ℕ → ℕ → Reply → Search → Result Error (ℕ × Search)
settle count amount malformed s = err stage_invalid
settle count amount (staged outcomes value) s = do
  fail_if (not (length outcomes == count)) stage_invalid
  (quoted, tallies) ← or_fail (record_outcomes outcomes [] 0 s.outcomes) stage_invalid
  fail_if (inconsistent quoted value) stage_invalid
  s' ← keep_value amount value (record s { outcomes = tallies })
  ok (quoted, s')

-- `result.selected.input`, which is read only when there is one.
abbrev pub high_of : Search → ℕ
high_of s = elim s.selected [ none ↦ 0 | some (input, v) ↦ input ]

abbrev pub stop : StopReason → Search → Search
stop reason s = record s { stop_reason = reason }

-- `Math.min(limits.maxStages,Math.floor(limits.maxQuoteCalls/count))`
abbrev pub stage_cap_of : ℕ → ℕ
stage_cap_of count = min max_stages (max_quote_calls / count)

abbrev pub start : List ℕ → Search
start orders = record {
  selected = none;
  stages_used = 0;
  expansion_stages = 0;
  refinement_stages = 0;
  quote_calls_used = 0;
  quote_batches_used = 0;
  outcomes = map fresh orders;
  stop_reason = no_eligible_strategies;
  clock = 0;
}

-- The tests of the arguments.
abbrev pub invalid_search : ℕ → ℕ → List ℕ → Bool
invalid_search seed bound orders =
    ltb seed 1
    || ltb bound 2
    || leb (2 ^ 256) bound
    || ltb max_eligible (length orders)
    || not (distinct orders)

module _ (o : Oracle) where
  -- `checkpoint()`
  abbrev pub pass : Search → Result Error Search
  pass s = if o.checkpoint s.clock then ok (record s { clock = s.clock + 1 }) else err aborted

  -- `shouldRefine&&!shouldRefine()`
  abbrev pub refuses : Search → Bool
  refuses s = elim o.should_refine [ none ↦ false | some f ↦ not (f s.clock) ]

  -- The tests at the head of the second loop, in their order.
  abbrev pub why_stop : ℕ → ℕ → Search → Option StopReason
  why_stop stage_cap cursor s =
      if leb (high_of s) (cursor + 1)
      then some adjacent_cursor
      else (if leb stage_cap s.stages_used
          then some aggregate_limit
          else (if leb max_refinements s.refinement_stages
              then some refinement_limit
              else (if refuses s then some refinement_skipped else none)))

  module _ (count stage_cap bound : ℕ) where
    -- The inner function `stage`: whether a route was quoted, and the new state.
    pub stage : ℕ → Kind → Search → Result Error (Bool × Search)
    stage amount kind s = do
      s ← pass s
      fail_if (ltb amount 2 || ltb bound amount || leb stage_cap s.stages_used) budget
      let charged = charge count kind s
      reply ← or_fail (o.probe charged.clock amount) probe_failed
      s ← pass charged
      (quoted, s) ← settle count amount reply s
      s ← pass s
      ok (ltb 0 quoted, s)

    -- The first loop, on the number of steps left: the cursor and the state.
    pub expand : ℕ → ℕ → ℕ → Search → Result Error (ℕ × Search)
    expand zero amount cursor s = ok (cursor, s)
    expand (suc left) amount cursor s = do
      let asked = if left == 0 then bound else amount
      (found, s) ← stage asked expansion s
      let rest = expand left (if ltb (bound / 2) asked then bound else asked * 2) asked s
      if found then ok (cursor, s) else if asked == bound then ok (asked, s) else rest

    -- The second loop, on fuel.
    pub refine : ℕ → ℕ → Search → Result Error Search
    refine zero cursor s = err out_of_fuel
    refine (suc fuel) cursor s = do
      s ← pass s
      elim (why_stop stage_cap cursor s) [
        | some reason ↦ ok (stop reason s)
        | none ↦ do
          (found, t) ← stage ((cursor + high_of s) / 2) refinement s
          refine fuel (if found then cursor else (cursor + high_of s) / 2) t
      ]

  -- What follows the first loop, given the second one.
  abbrev pub finish : (Search → Result Error Search) → Search → Result Error Search
  finish refined s = elim s.selected [
    | none ↦ do s' ← pass s; ok (stop search_exhausted s')
    | some found ↦ do s' ← refined s; pass s'
  ]

  -- The two loops, once there is an order to ask.
  pub run : ℕ → ℕ → ℕ → Search → Result Error Search
  run count seed bound s = do
    let cap = stage_cap_of count
    let first = if ltb seed 2 then 2 else if ltb bound seed then bound else seed
    (cursor, s) ← expand count cap bound (min max_expansions cap) first 1 s
    finish (refine count cap bound (max_refinements + 1) cursor) s

  -- `searchPaymentInput`
  pub search_payment_input : ℕ → ℕ → List ℕ → Result Error Search
  search_payment_input seed bound orders = do
    fail_if (invalid_search seed bound orders) search_invalid
    s ← pass (start orders)
    if length orders == 0 then ok s else run (length orders) seed bound s
