-- ===== src/PaymentSearch/Search/Promises.antt =====
-- What `searchPaymentInput` (apps/api/src/payment-search.ts) promises to its caller.
use native.Mathlib.Nat.{le_trans, le_of_eq, mul-le-mul_right}
use aqua_orbital.Prelude.{
  ℕ, ◌+◌, ◌*◌, ◌≤◌, ◌<◌, max, ◌≡◌, ap, sym, ◌∙◌, ◌⊎◌, inl, inr, List, Option, none, some, arith,
  leb, ◌==◌, length, ok, Bool-cases, ok-injective, >>=-elim, fail_if->>-eq-ok,
}
use aqua_orbital.PaymentSearch.Retain.{Value}
use aqua_orbital.PaymentSearch.Search.{
  Oracle, staged, Search, is_selected, adjacent_cursor, search_exhausted, batches, max_stages,
  max_expansions, max_refinements, max_quote_calls, max_eligible, high_of, pass, start,
  search_payment_input,
}
use aqua_orbital.PaymentSearch.Search.Outcomes.{Outcome}
use aqua_orbital.PaymentSearch.Search.Stages.{pass_lem}
use aqua_orbital.PaymentSearch.Search.Invariant.{Answered, IsCursor}
use aqua_orbital.PaymentSearch.Search.Laws.{
  IsFinished, exhausted, chosen, bounds_lem, run_lem, stage_cap_lem,
}

-- The counters stay within the limits, and agree with one another.
pub record IsWithinBudget (count : ℕ) (s : Search) : Type 0 where
  pub stages : s.stages_used ≤ max_stages
  pub expansions : s.expansion_stages ≤ max_expansions
  pub refinements : s.refinement_stages ≤ max_refinements
  pub calls : s.quote_calls_used ≤ max_quote_calls
  pub total : s.stages_used ≡ s.expansion_stages + s.refinement_stages
  pub calls_total : s.quote_calls_used ≡ s.stages_used * count
  pub batches_total : s.quote_batches_used ≡ s.stages_used * batches count

empty_budget :
    (orders : List ℕ) → IsWithinBudget (length orders) (record (start orders) { clock = 1 })
empty_budget orders = omega arith

finished_budget :
    (o : Oracle) (bound count : ℕ) (s : Search)
    → 0 < count
    → count ≤ max_eligible
    → IsFinished o bound count s
    → IsWithinBudget count s
finished_budget o bound count s pos few f =
    let (_, cost) = stage_cap_lem count pos few in
    record {
      stages = omega (arith, f.valid.capped);
      expansions = omega (arith, f.expanded);
      refinements = f.refined;
      calls =
          le_trans (le_of_eq f.valid.calls) (le_trans (mul-le-mul_right count f.valid.capped) cost);
      total = f.valid.total;
      calls_total = f.valid.calls;
      batches_total = f.valid.batched;
    }

module _ (o : Oracle) (threshold bound count : ℕ) (s : Search)
    (law : (k amount : ℕ) (outs : List Outcome) (v : Option Value)
      → o.probe k amount ≡ some (staged outs v)
      → is_selected v ≡ leb threshold amount) where
  Answered-threshold :
      (amount : ℕ) (v : Option Value) → Answered o amount v → is_selected v ≡ leb threshold amount
  Answered-threshold amount v (k, outs, a) = law k amount outs v a

  IsCursor-threshold : (c : ℕ) → IsCursor o bound c → (c ≡ 1) ⊎ (c < threshold)
  IsCursor-threshold c (inl one) = inl one
  IsCursor-threshold c (inr (lo, hi, a)) =
      let missed = Answered-threshold c none a in inr (ground arith)

  verdict_threshold :
      IsFinished o bound count s
      → (s.stop_reason ≡ adjacent_cursor → (v : Value) × (s.selected ≡ some (max 2 threshold, v)))
        × (s.stop_reason ≡ search_exhausted → (s.selected ≡ none) × (bound < threshold))
  verdict_threshold f = elim f.verdict [
    | exhausted missed why a ↦
        let failed = Answered-threshold bound none a in
        (λ h. ground arith, λ h. (missed, ground arith))
    | chosen cursor v found at gap adjacent selecting ↦
        let (lo, hi, a) = rw found at f.valid.observed in
        let quoted = Answered-threshold (high_of s) (some v) a in
        let below = IsCursor-threshold cursor at in
        (
          λ h.
              let near = adjacent h in
              let least : high_of s ≡ max 2 threshold = ground arith in
              (v, found ∙ ap (λ (n : ℕ). some (n, v)) least),
          λ h. absurd (selecting h),
        )
  ]

module _ (o : Oracle) (seed bound : ℕ) (orders : List ℕ) {s : Search}
    (e : search_payment_input o seed bound orders ≡ ok s) where
  search_cases :
      (2 ≤ bound)
      × (length orders ≤ max_eligible)
      × (((length orders ≡ 0) × (s ≡ record (start orders) { clock = 1 }))
          ⊎ ((0 < length orders) × IsFinished o bound (length orders) s))
  unfolding search_payment_input
  search_cases =
      let (valid, rest) = fail_if->>-eq-ok _ _ _ e in
      let (lo, few) = bounds_lem seed bound orders valid in
      >>=-elim (pass o (start orders)) _ rest (λ s1 passed rest'.
        let same = pass_lem o 0 0 0 (start orders) s1 passed in
        elim (Bool-cases (length orders == 0)) [
          | inl empty ↦ (lo, few, inl (ground arith, sym (ok-injective (rw empty at rest')) ∙ same))
          | inr more ↦
              let pos : 0 < length orders = ground arith in
              let running = rw same at (rw more at rest') in
              (lo, few, inr (pos, run_lem o seed bound orders lo pos few s running))
        ])

-- The search stays within its limits: at most 8 expansions, 8 refinements, 16 stages and 128 quote
-- calls; the stages are the expansions and the refinements, and each costs one call for each eligible
-- order, in batches of eight.
pub search-IsWithinBudget :
    (o : Oracle) (seed bound : ℕ) (orders : List ℕ) (s : Search)
    → search_payment_input o seed bound orders ≡ ok s
    → IsWithinBudget (length orders) s
search-IsWithinBudget o seed bound orders s e = elim (search_cases o seed bound orders e).2 [
  | inl (none_eligible, same) ↦ rw same (empty_budget orders)
  | inr (pos, f) ↦
      finished_budget o bound (length orders) s pos (search_cases o seed bound orders e).1 f
]

-- A selected input lies between 2 and the bound, and its value is one that the probe gave at exactly
-- this input.
pub search-IsObserved :
    (o : Oracle) (seed bound : ℕ) (orders : List ℕ) (s : Search) (input : ℕ) (v : Value)
    → search_payment_input o seed bound orders ≡ ok s
    → s.selected ≡ some (input, v)
    → (2 ≤ input) × (input ≤ bound) × Answered o input (some v)
search-IsObserved o seed bound orders s input v e h = elim (search_cases o seed bound orders e).2 [
  | inl (none_eligible, same) ↦ ground arith
  | inr (pos, f) ↦ rw h at f.valid.observed
]

-- Against a probe that quotes exactly the inputs from a threshold on, the search that stops with
-- adjacent_cursor has selected the least input of at least 2 that is quoted, and the one that stops
-- with search_exhausted had a bound below the threshold.
pub search_threshold :
    (o : Oracle) (threshold seed bound : ℕ) (orders : List ℕ) (s : Search)
    → ((k amount : ℕ) (outs : List Outcome) (v : Option Value)
        → o.probe k amount ≡ some (staged outs v)
        → is_selected v ≡ leb threshold amount)
    → search_payment_input o seed bound orders ≡ ok s
    → (s.stop_reason ≡ adjacent_cursor → (v : Value) × (s.selected ≡ some (max 2 threshold, v)))
      × (s.stop_reason ≡ search_exhausted → (s.selected ≡ none) × (bound < threshold))
search_threshold o threshold seed bound orders s law e =
    elim (search_cases o seed bound orders e).2 [
      | inl (none_eligible, same) ↦ (λ h. ground arith, λ h. ground arith)
      | inr (pos, f) ↦ verdict_threshold o threshold bound (length orders) s law f
    ]
