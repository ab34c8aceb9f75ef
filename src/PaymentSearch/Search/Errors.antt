-- ===== src/PaymentSearch/Search/Errors.antt =====
-- Which errors `searchPaymentInput` (apps/api/src/payment-search.ts) can end with.
use aqua_orbital.Prelude.{
  ℕ, zero, suc, ◌+◌, ◌*◌, ◌/◌, ◌≤◌, ◌<◌, min, ◌≡◌, refl, ap, inl, inr, Bool, true, false, ◌||◌, not,
  List, [], Option, none, some, arith, ltb, leb, ◌==◌, length, if◌then◌else◌, Result, ok, err,
  ◌>>=◌, fail_if, or_fail, Bool-cases, Option-cases, fail_if-eq-ok,
}
use aqua_orbital.PaymentSearch.Retain.{Value, retain}
use aqua_orbital.PaymentSearch.Search.{
  Error, search_invalid, budget, stage_invalid, value_invalid, probe_failed, out_of_fuel, Reply,
  malformed, staged, Oracle, Search, Kind, expansion, refinement, keep_value, inconsistent, settle,
  pass, stage, expand, refine, run, start, finish, stage_cap_of, charge, stop, why_stop, high_of,
  search_exhausted, max_expansions, max_refinements, max_eligible, search_payment_input,
  invalid_search,
}
use aqua_orbital.PaymentSearch.Search.Outcomes.{record_outcomes}
use aqua_orbital.PaymentSearch.Search.Stages.{stage_lem, pass_lem}
use aqua_orbital.PaymentSearch.Search.Invariant.{IsCursor, Expanded}
use aqua_orbital.PaymentSearch.Search.Refining.{IsOpen, IsOpen-stop, IsOpen-stage, why_stop-none}
use aqua_orbital.PaymentSearch.Search.Laws.{bounds_lem, Expanded-IsOpen, first_loop_lem}

-- The errors that come from the caller: its arguments, its checkpoint, its probe and the replies.
abbrev pub IsExpected : Error → Type 0
IsExpected budget = ⊥
IsExpected out_of_fuel = ⊥
IsExpected _ = Unit

-- A result that is no internal error.
abbrev pub IsSafe : {A : Type 0} → Result Error A → Type 0
IsSafe (ok a) = Unit
IsSafe (err e) = IsExpected e

IsSafe->>= :
    {A B : Type 0} (m : Result Error A) (f : A → Result Error B)
    → IsSafe m
    → ((a : A) → m ≡ ok a → IsSafe (f a))
    → IsSafe (m >>= f)
IsSafe->>= (ok a) f h k = k a refl
IsSafe->>= (err e) f h k = h

fail_if-IsSafe : (t : Bool) (e : Error) → (t ≡ true → IsExpected e) → IsSafe (fail_if t e)
fail_if-IsSafe true e h = h refl
fail_if-IsSafe false e h = tt

or_fail-IsSafe : {A : Type 0} (m : Option A) (e : Error) → IsExpected e → IsSafe (or_fail m e)
or_fail-IsSafe none e h = h
or_fail-IsSafe (some a) e h = tt

keep_value-IsSafe :
    (amount : ℕ) (value : Option Value) (s : Search) → IsSafe (keep_value amount value s)
keep_value-IsSafe amount none s = tt
keep_value-IsSafe amount (some v) s =
    IsSafe->>= (or_fail (retain v) value_invalid) _ (or_fail-IsSafe (retain v) value_invalid tt)
      (λ w e. tt)

settle-IsSafe :
    (count amount : ℕ) (reply : Reply) (s : Search) → IsSafe (settle count amount reply s)
unfolding settle
settle-IsSafe count amount malformed s = tt
settle-IsSafe count amount (staged outcomes value) s =
    IsSafe->>= (fail_if (not (length outcomes == count)) stage_invalid) _
      (fail_if-IsSafe _ stage_invalid (λ e. tt))
      (λ _ _.
        IsSafe->>= (or_fail (record_outcomes outcomes [] 0 s.outcomes) stage_invalid) _
          (or_fail-IsSafe _ stage_invalid tt)
          (λ q _.
            IsSafe->>= (fail_if (inconsistent q.0 value) stage_invalid) _
              (fail_if-IsSafe _ stage_invalid (λ e. tt))
              (λ _ _.
                IsSafe->>= (keep_value amount value (record s { outcomes = q.1 })) _
                  (keep_value-IsSafe amount value (record s { outcomes = q.1 })) (λ t e. tt))))

branch-IsSafe :
    {A : Type 0} (t : Bool) (m n : Result Error A)
    → IsSafe m
    → IsSafe n
    → IsSafe (if t then m else n)
branch-IsSafe true m n h k = h
branch-IsSafe false m n h k = k

pass-IsSafe : (o : Oracle) (s : Search) → IsSafe (pass o s)
pass-IsSafe o s = elim (Bool-cases (o.checkpoint s.clock)) [
  | inl going ↦ rw going tt
  | inr stopped ↦ rw stopped tt
]

module _ (o : Oracle) (count stage_cap bound : ℕ) where
  stage-IsSafe :
      (amount : ℕ) (kind : Kind) (s : Search)
      → 2 ≤ amount
      → amount ≤ bound
      → s.stages_used < stage_cap
      → IsSafe (stage o count stage_cap bound amount kind s)
  unfolding stage
  stage-IsSafe amount kind s lo hi room = IsSafe->>= (pass o s) _ (pass-IsSafe o s) (λ s1 passed.
      let same = pass_lem o count stage_cap bound s s1 passed in
      IsSafe->>= (fail_if (ltb amount 2 || ltb bound amount || leb stage_cap s1.stages_used) budget)
        _ (fail_if-IsSafe _ budget (λ e. ground arith))
        (λ _ _.
          IsSafe->>= (or_fail (o.probe (charge count kind s1).clock amount) probe_failed) _
            (or_fail-IsSafe _ probe_failed tt)
            (λ reply _. IsSafe->>= (pass o (charge count kind s1)) _ (pass-IsSafe o _) (λ s2 _.
              IsSafe->>= (settle count amount reply s2) _ (settle-IsSafe count amount reply s2)
                (λ q _. IsSafe->>= (pass o q.1) _ (pass-IsSafe o q.1) (λ s4 _. tt))))))

  -- The first loop asks in range and stays within the budget.
  expand-IsSafe :
      (left amount cursor : ℕ) (s : Search)
      → 2 ≤ amount
      → amount ≤ bound
      → s.stages_used + left ≤ stage_cap
      → IsSafe (expand o count stage_cap bound left amount cursor s)
  unfolding expand
  expand-IsSafe zero amount cursor s lo hi room = tt
  expand-IsSafe (suc left) amount cursor s lo hi room =
      let asked : ℕ = if left == 0 then bound else amount in
      let lo' : 2 ≤ asked = ground arith in
      let hi' : asked ≤ bound = ground arith in
      IsSafe->>= (stage o count stage_cap bound asked expansion s) _
        (stage-IsSafe asked expansion s lo' hi' (omega arith))
        (λ q staged_as.
          let r = stage_lem o count stage_cap bound asked expansion s staged_as in
          let used : q.1.stages_used ≡ s.stages_used + 1 =
            ap (λ (x : Search). x.stages_used) r.after in
          let ih =
            expand-IsSafe left (if ltb (bound / 2) asked then bound else asked * 2) asked q.1
              (ground arith) (ground arith) (omega (arith, used)) in
          branch-IsSafe q.0 _ _ tt (branch-IsSafe (asked == bound) _ _ tt ih))

  IsOpen-midpoint :
      (cursor : ℕ) (s : Search)
      → IsOpen o bound count stage_cap cursor s
      → cursor + 1 < high_of s
      → (2 ≤ (cursor + high_of s) / 2) × ((cursor + high_of s) / 2 ≤ bound)
  IsOpen-midpoint cursor s h far =
      let (lo, hi, _) = rw h.chosen at h.valid.observed in
      let above : 1 ≤ cursor = IsCursor-pos cursor h.at in (omega arith, omega arith)
    where
      IsCursor-pos : (c : ℕ) → IsCursor o bound c → 1 ≤ c
      IsCursor-pos c (inl one) = omega arith
      IsCursor-pos c (inr (lo, hi, a)) = omega arith

  refine-IsSafe :
      (fuel cursor : ℕ) (s : Search)
      → IsOpen o bound count stage_cap cursor s
      → max_refinements < fuel + s.refinement_stages
      → IsSafe (refine o count stage_cap bound fuel cursor s)
  unfolding refine
  refine-IsSafe zero cursor s h room = absurd (omega (arith, h.refined))
  refine-IsSafe (suc fuel) cursor s h room = IsSafe->>= (pass o s) _ (pass-IsSafe o s) (λ s1 passed.
      let same = pass_lem o count stage_cap bound s s1 passed in
      let h1 : IsOpen o bound count stage_cap cursor s1 =
        rw same (IsOpen-stop o bound count stage_cap cursor s s.stop_reason (s.clock + 1) h) in
      elim (Option-cases (why_stop o stage_cap cursor s1)) [
        | inr (reason, why) ↦ rw why tt
        | inl go ↦
            let (far, free, few) = why_stop-none o bound count stage_cap cursor s1 go in
            let inside = IsOpen-midpoint cursor s1 h1 far in
            let mid : ℕ = (cursor + high_of s1) / 2 in
            let asked = stage-IsSafe mid refinement s1 inside.0 inside.1 free in
            rw go (
              IsSafe->>= (stage o count stage_cap bound mid refinement s1) _ asked (λ q staged_as.
                let r = stage_lem o count stage_cap bound mid refinement s1 staged_as in
                let h2 = IsOpen-stage o bound count stage_cap cursor s1 q.0 q.1 h1 far few r in
                refine-IsSafe fuel (if q.0 then cursor else mid) q.1 h2 (
                  omega (
                    arith,
                    ap (λ (x : Search). x.refinement_stages) r.after,
                    ap (λ (x : Search). x.refinement_stages) same,
                  ))))
      ])

-- After the first loop.
finish-IsSafe :
    (o : Oracle) (bound count cursor : ℕ) (s : Search)
    → Expanded o bound count
        (stage_cap_of count)
        (min max_expansions (stage_cap_of count))
        (start [])
        cursor
        s
    → IsSafe (finish o (refine o count (stage_cap_of count) bound (max_refinements + 1) cursor) s)
finish-IsSafe o bound count cursor s h = go s.selected refl
  where
    refined : Search → Result Error Search
    refined = refine o count (stage_cap_of count) bound (max_refinements + 1) cursor

    after : Option (ℕ × Value) → Result Error Search
    after sel = elim sel [
      | none ↦ pass o s >>= λ s'. ok (stop search_exhausted s')
      | some found ↦ refined s >>= λ s'. pass o s'
    ]

    go : (sel : Option (ℕ × Value)) → s.selected ≡ sel → IsSafe (after sel)
    go none missed = IsSafe->>= (pass o s) _ (pass-IsSafe o s) (λ s' passed. tt)
    go (some (a, v)) found =
        IsSafe->>= (refined s) _
          (refine-IsSafe o count (stage_cap_of count) bound (max_refinements + 1) cursor s
            (Expanded-IsOpen o bound count cursor s a v h found) (omega arith))
          (λ s' _. pass-IsSafe o s')

run-IsSafe :
    (o : Oracle) (seed bound : ℕ) (orders : List ℕ)
    → 2 ≤ bound
    → 0 < length orders
    → length orders ≤ max_eligible
    → IsSafe (run o (length orders) seed bound (record (start orders) { clock = 1 }))
unfolding run
run-IsSafe o seed bound orders lo pos few =
    let count = length orders in
    let cap = stage_cap_of count in
    let first : ℕ = if ltb seed 2 then 2 else if ltb bound seed then bound else seed in
    let s0 : Search = record (start orders) { clock = 1 } in
    IsSafe->>= (expand o count cap bound (min max_expansions cap) first 1 s0) _
      (expand-IsSafe o count cap bound (min max_expansions cap) first 1 s0 (ground arith)
        (ground arith) (omega arith))
      (λ q expanded.
        finish-IsSafe o bound count q.0 q.1
          (first_loop_lem o seed bound orders lo pos few q.0 q.1 expanded))

-- The search never ends with PAYMENT_SEARCH_BUDGET, and the model never runs out of fuel: every error is
-- the caller's, whatever the checkpoint and the probe answer.
pub search-IsSafe :
    (o : Oracle) (seed bound : ℕ) (orders : List ℕ)
    → IsSafe (search_payment_input o seed bound orders)
unfolding search_payment_input
search-IsSafe o seed bound orders =
    IsSafe->>= (fail_if (invalid_search seed bound orders) search_invalid) _
      (fail_if-IsSafe _ search_invalid (λ _. tt))
      (λ _ valid.
        let (lo, few) = bounds_lem seed bound orders (fail_if-eq-ok _ _ valid) in
        IsSafe->>= (pass o (start orders)) _ (pass-IsSafe o (start orders)) (λ s1 passed.
          let same = pass_lem o 0 0 0 (start orders) s1 passed in
          elim (Bool-cases (length orders == 0)) [
            | inl empty ↦ rw empty tt
            | inr more ↦
                let safe = run-IsSafe o seed bound orders lo (ground arith) few in
                rw (more, same) safe
          ]))
