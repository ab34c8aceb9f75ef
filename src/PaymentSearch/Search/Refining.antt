-- ===== src/PaymentSearch/Search/Refining.antt =====
-- The second loop of `searchPaymentInput` (apps/api/src/payment-search.ts), which halves the gap
-- between the cursor and the selected input.
use mathlib.Core.Path.{subst}
use aqua_orbital.Prelude.{
  ℕ, zero, suc, ◌+◌, ◌/◌, ◌≤◌, ◌<◌, ◌≡◌, ap, ◌∙◌, ◌≢◌, inl, inr, Bool, true, false, none, some,
  arith, if◌then◌else◌, ok, Option-cases, ok-injective, >>=-elim,
}
use aqua_orbital.PaymentSearch.Retain.{Value}
use aqua_orbital.PaymentSearch.Search.{
  Oracle, Search, StopReason, adjacent_cursor, search_exhausted, refinement, max_refinements,
  high_of, stop, pass, why_stop, stage, refine,
}
use aqua_orbital.PaymentSearch.Search.Stages.{Staged, stage_lem, pass_lem}
use aqua_orbital.PaymentSearch.Search.Invariant.{IsCursor, IsValid, Staged-IsValid}

module _ (o : Oracle) (bound count stage_cap : ℕ) where
  -- The state between two rounds.
  pub record IsOpen (cursor : ℕ) (s : Search) : Type 0 where
    pub valid : IsValid o bound count stage_cap s
    pub at : IsCursor o bound cursor
    pub value : Value
    pub chosen : s.selected ≡ some (high_of s, value)
    pub gap : cursor < high_of s
    pub refined : s.refinement_stages ≤ max_refinements

  -- The state when the loop returns, with the last cursor.
  pub record IsClosed (s t : Search) : Type 0 where
    pub cursor : ℕ
    pub open_at : IsOpen cursor t
    pub adjacent : t.stop_reason ≡ adjacent_cursor → high_of t ≤ cursor + 1
    pub selecting : t.stop_reason ≢ search_exhausted
    pub expanded : t.expansion_stages ≡ s.expansion_stages

  why_stop-adjacent :
      (cursor : ℕ) (s : Search) (reason : StopReason)
      → why_stop o stage_cap cursor s ≡ some reason
      → reason ≡ adjacent_cursor
      → high_of s ≤ cursor + 1
  why_stop-adjacent cursor s reason e h = ground arith

  why_stop-selecting :
      (cursor : ℕ) (s : Search) (reason : StopReason)
      → why_stop o stage_cap cursor s ≡ some reason
      → reason ≢ search_exhausted
  why_stop-selecting cursor s reason e h = ground arith

  pub why_stop-none :
      (cursor : ℕ) (s : Search)
      → why_stop o stage_cap cursor s ≡ none
      → (cursor + 1 < high_of s)
        × (s.stages_used < stage_cap)
        × (s.refinement_stages < max_refinements)
  why_stop-none cursor s e = ground arith

  -- A checkpoint and the reason to stop change nothing that the invariant reads.
  pub IsOpen-stop :
      (cursor : ℕ) (s : Search) (reason : StopReason) (k : ℕ)
      → IsOpen cursor s
      → IsOpen cursor (record s { stop_reason = reason; clock = k })
  IsOpen-stop cursor s reason k h = record {
    valid = record {
      total = h.valid.total;
      calls = h.valid.calls;
      batched = h.valid.batched;
      capped = h.valid.capped;
      observed = h.valid.observed;
    };
    at = h.at;
    value = h.value;
    chosen = h.chosen;
    gap = h.gap;
    refined = h.refined;
  }

  -- One round that asks the probe.
  pub IsOpen-stage :
      (cursor : ℕ) (s : Search) (found : Bool) (t : Search)
      → IsOpen cursor s
      → cursor + 1 < high_of s
      → s.refinement_stages < max_refinements
      → Staged o count stage_cap bound ((cursor + high_of s) / 2) refinement s found t
      → IsOpen (if found then cursor else (cursor + high_of s) / 2) t
  IsOpen-stage cursor s true t h far few r =
      let (valid, (v, e)) =
        Staged-IsValid o bound count stage_cap _ refinement s true t r h.valid in
      let high : high_of t ≡ (cursor + high_of s) / 2 = rw (e, high_of) in
      record {
        valid = valid;
        at = h.at;
        value = v;
        chosen = rw high e;
        gap = rw high (omega arith);
        refined = ground arith;
      }
  IsOpen-stage cursor s false t h far few r =
      let (valid, (same, a)) =
        Staged-IsValid o bound count stage_cap _ refinement s false t r h.valid in
      let high : high_of t ≡ high_of s = rw (same, high_of) in
      record {
        valid = valid;
        at = inr (r.above, r.below, a);
        value = h.value;
        chosen = rw high (same ∙ h.chosen);
        gap = rw high (omega arith);
        refined = ground arith;
      }

  -- The round that ends the loop.
  close :
      (cursor : ℕ) (s s1 : Search) (reason : StopReason)
      → IsOpen cursor s1
      → s1.expansion_stages ≡ s.expansion_stages
      → why_stop o stage_cap cursor s1 ≡ some reason
      → IsClosed s (stop reason s1)
  close cursor s s1 reason h e why = record {
    cursor = cursor;
    open_at = IsOpen-stop cursor s1 reason s1.clock h;
    adjacent = why_stop-adjacent cursor s1 reason why;
    selecting = why_stop-selecting cursor s1 reason why;
    expanded = e;
  }

  pub refine_lem :
      (fuel cursor : ℕ) (s : Search) {t : Search}
      → IsOpen cursor s
      → refine o count stage_cap bound fuel cursor s ≡ ok t
      → IsClosed s t
  unfolding refine
  refine_lem zero cursor s h e = cc
  refine_lem (suc fuel) cursor s h e = >>=-elim (pass o s) _ e (λ s1 passed rest.
      let same = pass_lem o count stage_cap bound s s1 passed in
      let h1 : IsOpen cursor s1 = rw same (IsOpen-stop cursor s s.stop_reason (s.clock + 1) h) in
      elim (Option-cases (why_stop o stage_cap cursor s1)) [
        | inr (reason, why) ↦
            let here =
              close cursor s s1 reason h1 (ap (λ (x : Search). x.expansion_stages) same) why in
            subst (IsClosed s) (ok-injective (rw why at rest)) here
        | inl go ↦
            let (far, room, few) = why_stop-none cursor s1 go in
            >>=-elim (stage o count stage_cap bound ((cursor + high_of s1) / 2) refinement s1) _
              (rw go at rest)
              (λ q asked again.
                let r =
                  stage_lem o count stage_cap bound ((cursor + high_of s1) / 2) refinement s1
                    asked in
                let h2 = IsOpen-stage cursor s1 q.0 q.1 h1 far few r in
                let c =
                  refine_lem fuel (if q.0 then cursor else (cursor + high_of s1) / 2) q.1 h2
                    again in
                record {
                  cursor = c.cursor;
                  open_at = c.open_at;
                  adjacent = c.adjacent;
                  selecting = c.selecting;
                  expanded = omega (
                    arith,
                    c.expanded,
                    ap (λ (x : Search). x.expansion_stages) same,
                    ap (λ (x : Search). x.expansion_stages) r.after,
                  );
                })
      ])
