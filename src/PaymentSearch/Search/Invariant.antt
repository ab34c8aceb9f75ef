-- ===== src/PaymentSearch/Search/Invariant.antt =====
-- The invariant of the two loops of `searchPaymentInput` (apps/api/src/payment-search.ts).
use mathlib.Core.Path.{subst₂}
use aqua_orbital.Prelude.{
  ℕ, zero, suc, ◌+◌, ◌*◌, ◌/◌, ◌≤◌, ◌<◌, ◌≡◌, ap, ◌∙◌, ◌≢◌, ◌⊎◌, inl, inr, Bool, true, false, List,
  Option, none, some, arith, ltb, ◌==◌, if◌then◌else◌, Result, ok, Bool-cases, ==_iff, >>=-elim,
}
use aqua_orbital.PaymentSearch.Retain.{Value}
use aqua_orbital.PaymentSearch.Search.Outcomes.{Outcome}
use aqua_orbital.PaymentSearch.Search.{
  Error, Oracle, staged, Search, is_selected, Kind, expansion, refinement, charge, batches, stage,
  expand,
}
use aqua_orbital.PaymentSearch.Search.Stages.{kept, Staged, stage_lem}

product_step : (m x k : ℕ) {n y : ℕ} → y ≡ x + k → n ≡ m + 1 → x ≡ m * k → y ≡ n * k
product_step m x k e f h = rw (e, f) (omega arith)

module _ (o : Oracle) where
  -- The probe answered at `amount`, at some time, with the value `v`.
  abbrev pub Answered : ℕ → Option Value → Type 0
  Answered amount v = (k : ℕ) × (outs : List Outcome) × (o.probe k amount ≡ some (staged outs v))

  module _ (bound : ℕ) where
    -- What is selected was observed at that input, within the range.
    abbrev pub IsObserved : Option (ℕ × Value) → Type 0
    IsObserved none = Unit
    IsObserved (some (a, v)) = (2 ≤ a) × (a ≤ bound) × Answered a (some v)

    -- The cursor is 1, or an input of the range at which no order was quoted.
    abbrev pub IsCursor : ℕ → Type 0
    IsCursor c = (c ≡ 1) ⊎ ((2 ≤ c) × (c ≤ bound) × Answered c none)

    module _ (count stage_cap : ℕ) where
      pub record IsValid (s : Search) : Type 0 where
        pub total : s.stages_used ≡ s.expansion_stages + s.refinement_stages
        pub calls : s.quote_calls_used ≡ s.stages_used * count
        pub batched : s.quote_batches_used ≡ s.stages_used * batches count
        pub capped : s.stages_used ≤ stage_cap
        pub observed : IsObserved s.selected

      -- What a stage adds to the invariant, by what was found.
      abbrev pub Moved : ℕ → Bool → Search → Search → Type 0
      Moved amount true s t = (v : Value) × (t.selected ≡ some (amount, v))
      Moved amount false s t = (t.selected ≡ s.selected) × Answered amount none

      kept-Moved :
          (amount : ℕ) (value : Option Value) (s t : Search)
          → t.selected ≡ kept amount value s.selected
          → Answered amount value
          → Moved amount (is_selected value) s t
      kept-Moved amount none s t e a = (e, a)
      kept-Moved amount (some v) s t e a = (v, e)

      kept-IsObserved :
          (amount : ℕ) (value : Option Value) (old : Option (ℕ × Value))
          → 2 ≤ amount
          → amount ≤ bound
          → Answered amount value
          → IsObserved old
          → IsObserved (kept amount value old)
      kept-IsObserved amount none old lo hi a h = h
      kept-IsObserved amount (some v) old lo hi a h = (lo, hi, a)

      module _ (amount : ℕ) (kind : Kind) (s : Search) (found : Bool) (t : Search)
          (r : Staged o count stage_cap bound amount kind s found t) where
        Staged-selected : t.selected ≡ kept amount r.value s.selected
        Staged-selected = charged kind r.after
          where
            charged :
                (k : Kind)
                → t ≡ record (charge count k s) {
                  outcomes = t.outcomes;
                  selected = kept amount r.value s.selected;
                  clock = s.clock + 3;
                }
                → t.selected ≡ kept amount r.value s.selected
            charged expansion e = ap (λ (x : Search). x.selected) e
            charged refinement e = ap (λ (x : Search). x.selected) e

        Staged-IsObserved : IsValid s → IsObserved t.selected
        Staged-IsObserved h = rw Staged-selected (
            kept-IsObserved amount r.value s.selected r.above r.below
              (r.time, r.outcomes, r.answered) h.observed)

        Staged-Moved : Moved amount found s t
        Staged-Moved =
            rw r.decided
              (kept-Moved amount r.value s t Staged-selected (r.time, r.outcomes, r.answered))

      pub Staged-IsValid :
          (amount : ℕ) (kind : Kind) (s : Search) (found : Bool) (t : Search)
          → Staged o count stage_cap bound amount kind s found t
          → IsValid s
          → IsValid t × Moved amount found s t
      Staged-IsValid amount expansion s found t r h = (
        record {
          total = ground arith;
          calls = product_step _ _ count (ground arith) (ground arith) h.calls;
          batched = product_step _ _ (batches count) (ground arith) (ground arith) h.batched;
          capped = ground arith;
          observed = Staged-IsObserved amount expansion s found t r h;
        },
        Staged-Moved amount expansion s found t r,
      )
      Staged-IsValid amount refinement s found t r h = (
        record {
          total = ground arith;
          calls = product_step _ _ count (ground arith) (ground arith) h.calls;
          batched = product_step _ _ (batches count) (ground arith) (ground arith) h.batched;
          capped = ground arith;
          observed = Staged-IsObserved amount refinement s found t r h;
        },
        Staged-Moved amount refinement s found t r,
      )

      -- What the first loop has done when it returns: no route at the bound, or one above the cursor.
      abbrev pub Ended : ℕ → Option (ℕ × Value) → Type 0
      Ended cursor none = Answered bound none
      Ended cursor (some (a, v)) = cursor < a

      pub record Expanded (left : ℕ) (s : Search) (cursor : ℕ) (t : Search) : Type 0 where
        pub valid : IsValid t
        pub at : IsCursor cursor
        pub unrefined : t.refinement_stages ≡ s.refinement_stages
        pub within : t.expansion_stages ≤ s.expansion_stages + left
        pub ended : Ended cursor t.selected

      -- One round, given what the rest of the loop does.
      module _ (left amount cursor : ℕ) (s : Search) (h : IsValid s) (new : s.selected ≡ none)
          (c : IsCursor cursor) (lo : cursor < amount) (hi : amount ≤ bound) where
        expand_found :
            (t : Search)
            → Staged o count stage_cap bound amount expansion s true t
            → Expanded (suc left) s cursor t
        expand_found t r =
            let (valid, (v, e)) = Staged-IsValid amount expansion s true t r h in
            record {
              valid = valid;
              at = c;
              unrefined = ground arith;
              within = ground arith;
              ended = rw e lo;
            }

        expand_last :
            (t : Search)
            → Staged o count stage_cap bound amount expansion s false t
            → amount ≡ bound
            → Expanded (suc left) s amount t
        expand_last t r e =
            let (valid, (same, a)) = Staged-IsValid amount expansion s false t r h in
            record {
              valid = valid;
              at = inr (r.above, hi, a);
              unrefined = ground arith;
              within = ground arith;
              ended = rw (same ∙ new) (rw e at a);
            }

        expand_more :
            (t : Search) (c' : ℕ) (u : Search)
            → Staged o count stage_cap bound amount expansion s false t
            → Expanded left t c' u
            → Expanded (suc left) s c' u
        expand_more t c' u r p = record {
          valid = p.valid;
          at = p.at;
          unrefined = ground (arith, p.unrefined);
          within = ground (arith, p.within);
          ended = p.ended;
        }

        expand_round :
            (found : Bool) (u : Search) (rest : Result Error (ℕ × Search)) {c' : ℕ} {t : Search}
            → Staged o count stage_cap bound amount expansion s found u
            → (if found then ok (cursor, u) else if amount == bound then ok (amount, u) else rest)
              ≡ ok (c', t)
            → (amount ≢ bound
                → Staged o count stage_cap bound amount expansion s false u
                → rest ≡ ok (c', t)
                → Expanded left u c' t)
            → Expanded (suc left) s c' t
        expand_round true u rest {c'} {t} r e next =
            let both : (cursor ≡ c') × (u ≡ t) = ground arith in
            subst₂ (λ x y. Expanded (suc left) s x y) both.0 both.1 (expand_found u r)
        expand_round false u rest {c'} {t} r e next = elim (Bool-cases (amount == bound)) [
          | inl last ↦
              let both : (amount ≡ c') × (u ≡ t) = ground arith in
              subst₂ (λ x y. Expanded (suc left) s x y) both.0 both.1
                (expand_last u r ((==_iff amount bound).0 last))
          | inr more ↦ expand_more u c' t r (next (ground arith) r (ground arith))
        ]

      pub expand_lem :
          (left amount cursor : ℕ) (s : Search) {c : ℕ} {t : Search}
          → 0 < left
          → IsValid s
          → s.selected ≡ none
          → IsCursor cursor
          → cursor < amount
          → amount ≤ bound
          → expand o count stage_cap bound left amount cursor s ≡ ok (c, t)
          → Expanded left s c t
      unfolding expand
      expand_lem zero amount cursor s pos h new at lo hi e = absurd (omega arith)
      expand_lem (suc left) amount cursor s pos h new at lo hi e =
          let asked : ℕ = if left == 0 then bound else amount in
          let lo' : cursor < asked = ground arith in
          let hi' : asked ≤ bound = ground arith in
          >>=-elim (stage o count stage_cap bound asked expansion s) _ e (λ q staged_as rest.
            expand_round left asked cursor s h new at lo' hi' q.0 q.1 _
              (stage_lem o count stage_cap bound asked expansion s staged_as) rest
              (λ more moved again.
                let (valid, (same, a)) = Staged-IsValid asked expansion s false q.1 moved h in
                expand_lem left (if ltb (bound / 2) asked then bound else asked * 2) asked q.1
                  (ground arith) valid (same ∙ new) (inr (moved.above, hi', a)) (ground arith)
                  (ground arith) again))
