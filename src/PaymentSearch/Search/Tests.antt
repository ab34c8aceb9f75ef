-- ===== src/PaymentSearch/Search/Tests.antt =====
-- Runs of `searchPaymentInput` (apps/api/src/payment-search.ts) on a probe with a threshold.
use aqua_orbital.Prelude.{
  ℕ, ◌≡◌, refl, ap, sym, true, false, List, [], ◌∷◌, Option, none, some, leb, if◌then◌else◌, ok,
  Bool-cases, inl, inr, ◌≤◌, ◌<◌, max,
}
use aqua_orbital.PaymentSearch.Retain.{Value, integer, retain, copy}
use aqua_orbital.PaymentSearch.Search.{
  Oracle, Reply, staged, Search, search_payment_input, stage, expand, refine, settle, run,
  adjacent_cursor, search_exhausted, is_selected,
}
use aqua_orbital.PaymentSearch.Search.Outcomes.{Outcome, outcome, Status, record_outcomes}
use aqua_orbital.PaymentSearch.Search.Invariant.{Answered}
use aqua_orbital.PaymentSearch.Search.Promises.{
  IsWithinBudget, search-IsWithinBudget, search-IsObserved, search_threshold,
}
use aqua_orbital.PaymentSearch.Search.Errors.{IsSafe, search-IsSafe}

-- One strategy, which quotes from an input of 5 on.
abbrev reply_at : ℕ → Reply
reply_at amount =
    if leb 5 amount
    then staged (outcome 7 Status.quoted ∷ []) (some (integer false amount))
    else staged (outcome 7 Status.unavailable ∷ []) none

abbrev oracle : Oracle
oracle = record {
  checkpoint = λ k. true;
  probe = λ k amount. some (reply_at amount);
  should_refine = none;
}

abbrev found : Search
found = record {
  selected = some (5, integer false 5);
  stages_used = 5;
  expansion_stages = 3;
  refinement_stages = 2;
  quote_calls_used = 5;
  quote_batches_used = 5;
  outcomes = record { order_hash = 7; quoted = 3; unavailable = 2 } ∷ [];
  stop_reason = adjacent_cursor;
  clock = 20;
}

finds : search_payment_input oracle 1 20 (7 ∷ []) ≡ ok found
unfolding search_payment_input stage expand refine settle run record_outcomes retain copy
finds = refl

value_injective :
    {xs ys : List Outcome} {v w : Option Value}
    → ◌≡◌ {A = Option Reply} (some (staged xs v)) (some (staged ys w))
    → v ≡ w
value_injective e = cc

oracle_lem :
    (k amount : ℕ) (outs : List Outcome) (v : Option Value)
    → oracle.probe k amount ≡ some (staged outs v)
    → is_selected v ≡ leb 5 amount
oracle_lem k amount outs v e = elim (Bool-cases (leb 5 amount)) [
  | inl quotes ↦
      let same : ◌≡◌ {A = Option Reply}
          (some (staged (outcome 7 Status.quoted ∷ []) (some (integer false amount))))
          (some (staged outs v)) =
        rw quotes at e in
      rw quotes (ap is_selected (sym (value_injective same)))
  | inr short ↦
      let same : ◌≡◌ {A = Option Reply} (some (staged (outcome 7 Status.unavailable ∷ []) none))
          (some (staged outs v)) =
        rw short at e in
      rw short (ap is_selected (sym (value_injective same)))
]

search-IsWithinBudget_example : IsWithinBudget 1 found
search-IsWithinBudget_example = search-IsWithinBudget oracle 1 20 (7 ∷ []) found finds

search-IsObserved_example : (2 ≤ 5) × (5 ≤ 20) × Answered oracle 5 (some (integer false 5))
search-IsObserved_example =
    search-IsObserved oracle 1 20 (7 ∷ []) found 5 (integer false 5) finds refl

search_threshold_example :
    (adjacent_cursor ≡ adjacent_cursor → (v : Value) × (found.selected ≡ some (max 2 5, v)))
    × (adjacent_cursor ≡ search_exhausted → (found.selected ≡ none) × (20 < 5))
search_threshold_example = search_threshold oracle 5 1 20 (7 ∷ []) found oracle_lem finds

search-IsSafe_example : IsSafe (search_payment_input oracle 1 20 (7 ∷ []))
search-IsSafe_example = search-IsSafe oracle 1 20 (7 ∷ [])
