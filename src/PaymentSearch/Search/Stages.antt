-- ===== src/PaymentSearch/Search/Stages.antt =====
-- What one stage of `searchPaymentInput` (apps/api/src/payment-search.ts) does when it returns.
use aqua_orbital.Prelude.{
  ℕ, ◌+◌, ◌≤◌, ◌<◌, ◌≡◌, refl, ◌∙◌, ap, Bool, false, ◌||◌, not, List, [], Option, none, some, arith,
  ltb, leb, ◌==◌, length, ok, fail_if, or_fail, >>=-eq-ok, fail_if-eq-ok, fail_if->>-eq-ok,
  Option-cases, inl, inr, >>=-elim,
}
use aqua_orbital.PaymentSearch.Retain.{Value, retain}
use aqua_orbital.PaymentSearch.Retain.Laws.{retain_iff}
use aqua_orbital.PaymentSearch.Search.Outcomes.{Outcome, record_outcomes}
use aqua_orbital.PaymentSearch.Search.{
  Error, Reply, malformed, staged, Oracle, Search, is_selected, Kind, expansion, refinement, charge,
  keep_value, inconsistent, settle, stage, pass, stage_invalid, probe_failed,
}

-- The input that is kept after a stage: the value's, if there is one.
abbrev pub kept : ℕ → Option Value → Option (ℕ × Value) → Option (ℕ × Value)
kept amount none old = old
kept amount (some v) old = some (amount, v)

module _ (count amount : ℕ) (s : Search) where
  -- What an accepted reply has done to the state.
  pub record Settled (outcomes : List Outcome) (value : Option Value) (quoted : ℕ) (t : Search)
      : Type 0 where
    pub complete : length outcomes ≡ count
    pub counted : record_outcomes outcomes [] 0 s.outcomes ≡ some (quoted, t.outcomes)
    pub consistent : ltb 0 quoted ≡ is_selected value
    pub after : t ≡ record s { outcomes = t.outcomes; selected = kept amount value s.selected }

  keep_value_lem :
      (value : Option Value) (u t : Search)
      → keep_value amount value u ≡ ok t
      → t ≡ record u { selected = kept amount value u.selected }
  keep_value_lem none u t h = ground arith
  keep_value_lem (some v) u t h = elim (Option-cases (retain v)) [
    | inl refused ↦ ground arith
    | inr (w, kept_as) ↦ ground (arith, (retain_iff v w).0 kept_as)
  ]

  consistent_lem :
      (value : Option Value) (quoted : ℕ)
      → inconsistent quoted value ≡ false
      → ltb 0 quoted ≡ is_selected value
  consistent_lem none quoted h = h
  consistent_lem (some v) quoted h = ground arith

  settle_lem :
      (outcomes : List Outcome) (value : Option Value) {quoted : ℕ} {t : Search}
      → settle count amount (staged outcomes value) s ≡ ok (quoted, t)
      → Settled outcomes value quoted t
  unfolding settle
  settle_lem outcomes value h =
      let (_, sized, rest) =
        >>=-eq-ok (fail_if (not (length outcomes == count)) stage_invalid) _ h in
      let ((quoted, tallies), recorded, rest') =
        >>=-eq-ok (or_fail (record_outcomes outcomes [] 0 s.outcomes) stage_invalid) _ rest in
      let (_, agreed, rest'') =
        >>=-eq-ok (fail_if (inconsistent quoted value) stage_invalid) _ rest' in
      let (u, kept_it, done) =
        >>=-eq-ok (keep_value amount value (record s { outcomes = tallies })) _ rest'' in
      let after = keep_value_lem value (record s { outcomes = tallies }) u kept_it in
      record {
        complete = ground arith;
        counted = ground arith;
        consistent = ground (arith, consistent_lem value quoted (fail_if-eq-ok _ _ agreed));
        after = ground arith;
      }

module _ (o : Oracle) (count stage_cap bound : ℕ) where
  -- What a stage that returns has done: it was within the budget and the range, the probe answered at
  -- `amount`, and the state changed accordingly.
  pub record Staged (amount : ℕ) (kind : Kind) (s : Search) (found : Bool) (t : Search)
      : Type 0 where
    pub above : 2 ≤ amount
    pub below : amount ≤ bound
    pub allowed : s.stages_used < stage_cap
    pub time : ℕ
    pub outcomes : List Outcome
    pub value : Option Value
    pub answered : o.probe time amount ≡ some (staged outcomes value)
    pub quoted : ℕ
    pub complete : length outcomes ≡ count
    pub counted : record_outcomes outcomes [] 0 s.outcomes ≡ some (quoted, t.outcomes)
    pub decided : found ≡ is_selected value
    pub after : t ≡ record (charge count kind s) {
      outcomes = t.outcomes;
      selected = kept amount value s.selected;
      clock = s.clock + 3;
    }

  pub pass_lem : (s t : Search) → pass o s ≡ ok t → t ≡ record s { clock = s.clock + 1 }
  pass_lem s t h = ground arith

  or_fail_lem :
      (m : Option Reply) (e : Error) (reply : Reply) → or_fail m e ≡ ok reply → m ≡ some reply
  or_fail_lem m e reply h = ground arith

  guard_lem :
      (amount used : ℕ)
      → (ltb amount 2 || ltb bound amount || leb stage_cap used) ≡ false
      → (2 ≤ amount) × (amount ≤ bound) × (used < stage_cap)
  guard_lem amount used h = ground arith

  settle_reply :
      (amount : ℕ) (reply : Reply) (s : Search) {quoted : ℕ} {t : Search}
      → settle count amount reply s ≡ ok (quoted, t)
      → (outcomes : List Outcome) × (value : Option Value) × (reply ≡ staged outcomes value)
        × Settled count amount s outcomes value quoted t
  unfolding settle
  settle_reply amount malformed s h = cc
  settle_reply amount (staged outcomes value) s h =
      (outcomes, value, refl, settle_lem count amount s outcomes value h)

  -- The last step, from the facts about the earlier ones.
  assemble :
      (amount : ℕ) (kind : Kind) (s s1 s2 s3 s4 t : Search) (quoted : ℕ) (found : Bool)
      (outcomes : List Outcome) (value : Option Value)
      → (2 ≤ amount) × (amount ≤ bound) × (s1.stages_used < stage_cap)
      → o.probe (charge count kind s1).clock amount ≡ some (staged outcomes value)
      → s1 ≡ record s { clock = s.clock + 1 }
      → s2 ≡ record (charge count kind s1) { clock = (charge count kind s1).clock + 1 }
      → Settled count amount s2 outcomes value quoted s3
      → s4 ≡ record s3 { clock = s3.clock + 1 }
      → found ≡ ltb 0 quoted
      → t ≡ s4
      → Staged amount kind s found t
  assemble amount expansion s s1 s2 s3 s4 t quoted found outcomes value g a e1 e2 r e4 f e =
      record {
        above = g.0;
        below = g.1;
        allowed = ground arith;
        time = s1.clock;
        outcomes = outcomes;
        value = value;
        answered = a;
        quoted = quoted;
        complete = r.complete;
        counted = ground arith;
        decided = ground arith;
        after = ground arith;
      }
  assemble amount refinement s s1 s2 s3 s4 t quoted found outcomes value g a e1 e2 r e4 f e =
      record {
        above = g.0;
        below = g.1;
        allowed = ground arith;
        time = s1.clock;
        outcomes = outcomes;
        value = value;
        answered = a;
        quoted = quoted;
        complete = r.complete;
        counted = ground arith;
        decided = ground arith;
        after = ground arith;
      }

  pub stage_lem :
      (amount : ℕ) (kind : Kind) (s : Search) {found : Bool} {t : Search}
      → stage o count stage_cap bound amount kind s ≡ ok (found, t)
      → Staged amount kind s found t
  unfolding stage
  stage_lem amount kind s {found} {t} h = >>=-elim (pass o s) _ h (λ s1 passed rest.
      let (guarded, rest') = fail_if->>-eq-ok _ _ _ rest in
      >>=-elim (or_fail (o.probe (charge count kind s1).clock amount) probe_failed) _ rest'
        (λ reply asked rest2. >>=-elim (pass o (charge count kind s1)) _ rest2 (λ s2 passed2 rest3.
          >>=-elim (settle count amount reply s2) _ rest3 (λ q settled rest4.
            >>=-elim (pass o q.1) _ rest4 (λ s4 passed4 done.
              let (outcomes, value, shape, r) = settle_reply amount reply s2 settled in
              assemble amount kind s s1 s2 q.1 s4 t q.0 found outcomes value
                (guard_lem amount s1.stages_used guarded) (or_fail_lem _ _ _ asked ∙ ap some shape)
                (pass_lem s s1 passed) (pass_lem _ s2 passed2) r (pass_lem q.1 s4 passed4)
                (ground arith) (ground arith))))))
