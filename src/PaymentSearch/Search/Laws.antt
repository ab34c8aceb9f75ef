-- ===== src/PaymentSearch/Search/Laws.antt =====
-- What a returned `searchPaymentInput` (apps/api/src/payment-search.ts) has done.
use mathlib.Core.Path.{subst}
use native.Mathlib.Nat.{div-add-mod, mod-lt}
use aqua_orbital.Prelude.{
  ℕ, ◌+◌, ◌*◌, ◌≤◌, ◌<◌, min, ◌≡◌, refl, ap, sym, ◌∙◌, ◌≢◌, inl, false, List, [], Option, none,
  some, arith, ltb, length, if◌then◌else◌, Result, ok, ◌>>=◌, ok-injective, >>=-elim,
}
use aqua_orbital.PaymentSearch.Retain.{Value}
use aqua_orbital.PaymentSearch.Search.{
  Error, Oracle, Search, adjacent_cursor, search_exhausted, max_expansions, max_refinements,
  max_quote_calls, max_eligible, high_of, stop, pass, expand, refine, start, stage_cap_of, finish,
  run, invalid_search,
}
use aqua_orbital.PaymentSearch.Search.Stages.{pass_lem}
use aqua_orbital.PaymentSearch.Search.Invariant.{Answered, IsCursor, IsValid, Expanded, expand_lem}
use aqua_orbital.PaymentSearch.Search.Refining.{IsOpen, IsClosed, refine_lem}

module _ (o : Oracle) (bound count : ℕ) where
  -- How the loops have ended.
  pub data Verdict (s : Search) : Type 0 where
    exhausted :
        s.selected ≡ none → s.stop_reason ≡ search_exhausted → Answered o bound none → Verdict s
    chosen :
        (cursor : ℕ) (v : Value)
        → s.selected ≡ some (high_of s, v)
        → IsCursor o bound cursor
        → cursor < high_of s
        → (s.stop_reason ≡ adjacent_cursor → high_of s ≤ cursor + 1)
        → s.stop_reason ≢ search_exhausted
        → Verdict s

  pub record IsFinished (s : Search) : Type 0 where
    pub valid : IsValid o bound count (stage_cap_of count) s
    pub expanded : s.expansion_stages ≤ min max_expansions (stage_cap_of count)
    pub refined : s.refinement_stages ≤ max_refinements
    pub verdict : Verdict s

  finish_exhausted :
      (cursor : ℕ) (s t : Search)
      → Expanded o bound count
          (stage_cap_of count)
          (min max_expansions (stage_cap_of count))
          (start [])
          cursor
          s
      → s.selected ≡ none
      → t ≡ stop search_exhausted (record s { clock = s.clock + 1 })
      → IsFinished t
  finish_exhausted cursor s t h none_found e =
      let ended : Answered o bound none = rw none_found at h.ended in
      subst IsFinished (sym e) (record {
        valid = record {
          total = h.valid.total;
          calls = h.valid.calls;
          batched = h.valid.batched;
          capped = h.valid.capped;
          observed = h.valid.observed;
        };
        expanded = omega (arith, h.within);
        refined = omega (arith, h.unrefined);
        verdict = exhausted none_found refl ended;
      })

  IsFinished-pass :
      (s : Search) (k : ℕ)
      → IsClosed o bound count (stage_cap_of count) s s
      → s.expansion_stages ≤ min max_expansions (stage_cap_of count)
      → IsFinished (record s { clock = k })
  IsFinished-pass s k h few = record {
    valid = record {
      total = h.open_at.valid.total;
      calls = h.open_at.valid.calls;
      batched = h.open_at.valid.batched;
      capped = h.open_at.valid.capped;
      observed = h.open_at.valid.observed;
    };
    expanded = few;
    refined = h.open_at.refined;
    verdict =
        chosen h.cursor h.open_at.value h.open_at.chosen h.open_at.at h.open_at.gap h.adjacent
          h.selecting;
  }

  -- The state in which the second loop begins.
  pub Expanded-IsOpen :
      (cursor : ℕ) (s : Search) (a : ℕ) (v : Value)
      → Expanded o bound count
          (stage_cap_of count)
          (min max_expansions (stage_cap_of count))
          (start [])
          cursor
          s
      → s.selected ≡ some (a, v)
      → IsOpen o bound count (stage_cap_of count) cursor s
  Expanded-IsOpen cursor s a v h found = record {
    valid = h.valid;
    at = h.at;
    value = v;
    chosen = ground arith;
    gap = ground (arith, h.ended);
    refined = omega (arith, h.unrefined);
  }

  finish_lem :
      (cursor : ℕ) (s t : Search)
      → Expanded o bound count
          (stage_cap_of count)
          (min max_expansions (stage_cap_of count))
          (start [])
          cursor
          s
      → finish o (refine o count (stage_cap_of count) bound (max_refinements + 1) cursor) s ≡ ok t
      → IsFinished t
  finish_lem cursor s t h e = go s.selected refl e
    where
      refined : Search → Result Error Search
      refined = refine o count (stage_cap_of count) bound (max_refinements + 1) cursor

      after : Option (ℕ × Value) → Result Error Search
      after sel = elim sel [
        | none ↦ pass o s >>= λ s'. ok (stop search_exhausted s')
        | some found ↦ refined s >>= λ s'. pass o s'
      ]

      go : (sel : Option (ℕ × Value)) → s.selected ≡ sel → after sel ≡ ok t → IsFinished t
      go none missed e' = >>=-elim (pass o s) _ e' (λ s' passed done.
          finish_exhausted cursor s t h missed (
            sym (ok-injective done)
            ∙ ap (stop search_exhausted) (pass_lem o count bound bound s s' passed)))
      go (some (a, v)) found e' = >>=-elim (refined s) _ e' (λ s' looped passed.
          let opened = Expanded-IsOpen cursor s a v h found in
          let c =
            refine_lem o bound count (stage_cap_of count) (max_refinements + 1) cursor s opened
              looped in
          subst IsFinished (sym (pass_lem o count bound bound s' t passed)) (
            IsFinished-pass s' (s'.clock + 1)
              (record {
                cursor = c.cursor;
                open_at = c.open_at;
                adjacent = c.adjacent;
                selecting = c.selecting;
                expanded = refl;
              })
              (omega (arith, c.expanded, h.within))))

-- With 1 to 32 orders there is room for a stage, and the stages cost at most 128 calls.
pub stage_cap_lem :
    (count : ℕ)
    → 0 < count
    → count ≤ max_eligible
    → (0 < min max_expansions (stage_cap_of count)) × (stage_cap_of count * count ≤ max_quote_calls)
stage_cap_lem count pos few =
    let whole = div-add-mod 128 count in let part = mod-lt 128 pos in (grind arith, grind arith)

-- What the tests of the arguments leave.
pub bounds_lem :
    (seed bound : ℕ) (orders : List ℕ)
    → invalid_search seed bound orders ≡ false
    → (2 ≤ bound) × (length orders ≤ max_eligible)
bounds_lem seed bound orders h = ground arith

module _ (o : Oracle) (seed bound : ℕ) (orders : List ℕ) (lo : 2 ≤ bound) (pos : 0 < length orders)
    (few : length orders ≤ max_eligible) where
  -- What the first loop has done, as `finish` takes it.
  pub first_loop_lem :
      (cursor : ℕ) (s : Search)
      → expand o
          (length orders)
          (stage_cap_of (length orders))
          bound
          (min max_expansions (stage_cap_of (length orders)))
          (if ltb seed 2 then 2 else if ltb bound seed then bound else seed)
          1
          (record (start orders) { clock = 1 })
        ≡ ok (cursor, s)
      → Expanded o bound
          (length orders)
          (stage_cap_of (length orders))
          (min max_expansions (stage_cap_of (length orders)))
          (start [])
          cursor
          s
  first_loop_lem cursor s e =
      let count = length orders in
      let cap = stage_cap_of count in
      let s0 : Search = record (start orders) { clock = 1 } in
      let first : ℕ = if ltb seed 2 then 2 else if ltb bound seed then bound else seed in
      let valid : IsValid o bound count cap s0 = record {
        total = omega arith;
        calls = omega arith;
        batched = omega arith;
        capped = omega arith;
        observed = tt;
      } in
      let x =
        expand_lem o bound count cap (min max_expansions cap) first 1 s0
          (stage_cap_lem count pos few).0 valid refl (inl refl) (ground arith) (ground arith) e in
      record {
        valid = x.valid;
        at = x.at;
        unrefined = x.unrefined;
        within = x.within;
        ended = x.ended;
      }

  pub run_lem :
      (t : Search)
      → run o (length orders) seed bound (record (start orders) { clock = 1 }) ≡ ok t
      → IsFinished o bound (length orders) t
  unfolding run
  run_lem t e = >>=-elim _ _ e (λ q expanded rest.
      finish_lem o bound (length orders) q.0 q.1 t (first_loop_lem q.0 q.1 expanded) rest)
