-- ===== src/Projections/Blocks/Laws.antt =====
-- What `atomicDeploymentBlock` (packages/db/src/materialization.ts) keeps and reaches.
use mathlib.Core.Path.{subst, ap₂}
use aqua_orbital.Prelude.{
  ℕ, ◌+◌, ◌≡◌, refl, sym, ap, ◌∙◌, true, false, not, List, [], ◌∷◌, Option, none, some, ◌==◌,
  ==_iff, Bool-cases, inl, inr, &&-eq-true, ||-eq-false, ok, >>=-elim, ok-injective,
  fail_if->>-eq-ok,
}
use aqua_orbital.Chain.Table.{Block, Cursor, resync_required, needs_resync}
use aqua_orbital.Chain.Ingest.{already_at, touch_state}
use aqua_orbital.Projections.Strategies.Lives.{not-eq-false}
use aqua_orbital.Projections.Blocks.{
  resync_required, configuration_changed, reorg_requires_replay, unique_violation, Scope, RawEvent,
  Projection, Covered, Store, identity_of, is_misplaced, check_place, store_logs, apply_all,
  is_covered, append_block, atomic_deployment_block,
}

abbrev pub cursor_at : Block → Cursor
cursor_at b = record { height = b.number; hash = b.hash }

-- The covered blocks, the newest first, count down to the deployment's first block.
abbrev pub IsCount : ℕ → List Covered → Type 0
IsCount start [] = Unit
IsCount start (c ∷ []) = c.height ≡ start
IsCount start (c ∷ d ∷ cs) = (c.height ≡ d.height + 1) × IsCount start (d ∷ cs)

abbrev pub tip_of : List Covered → Option Cursor
tip_of [] = none
tip_of (c ∷ cs) = some (record { height = c.height; hash = c.hash })

-- The coverage has no gap, and the cursor is at its tip.
pub record IsIndexed (scope : Scope) (s : Store) : Type 0 where
  pub tip : s.cursor ≡ tip_of s.coverage
  pub counted : IsCount scope.start_block s.coverage

some-injective : {a b : Cursor} → ◌≡◌ {A = Option Cursor} (some a) (some b) → a ≡ b
some-injective h = cc

cursor_of : ℕ → ℕ → Cursor
cursor_of h k = record { height = h; hash = k }

pub already_at-cursor_at :
    (b : Block) (c : Option Cursor) → already_at b c ≡ true → c ≡ some (cursor_at b)
unfolding cursor_of
already_at-cursor_at b none h = cc
already_at-cursor_at b (some c) h =
    let (height, hash) = &&-eq-true (c.height == b.number) (c.hash == b.hash) h in
    ap some (ap₂ cursor_of ((==_iff c.height b.number).0 height) ((==_iff c.hash b.hash).0 hash))

-- The next block of a counted coverage.
pub is_misplaced-IsCount :
    (scope : Scope) (b : Block) (cursor : Option Cursor) (cs : List Covered)
    → is_misplaced scope b cursor ≡ false
    → cursor ≡ tip_of cs
    → IsCount scope.start_block cs
    → IsCount scope.start_block (record { height = b.number; hash = b.hash } ∷ cs)
is_misplaced-IsCount scope b none [] placed tip counted =
    (==_iff b.number scope.start_block).0 (not-eq-false _ placed)
is_misplaced-IsCount scope b none (c ∷ cs) placed tip counted = cc
is_misplaced-IsCount scope b (some c) [] placed tip counted = cc
is_misplaced-IsCount scope b (some c) (d ∷ cs) placed tip counted =
    let (height, hash) =
      ||-eq-false (not (c.height + 1 == b.number)) (not (c.hash == b.parent_hash)) placed in
    let same_height = ap (λ (x : Cursor). x.height + 1) (some-injective tip) in
    (sym ((==_iff (c.height + 1) b.number).0 (not-eq-false _ height)) ∙ same_height, counted)

-- What is known of the tables after a block that was not there before.
pub record Appended (scope : Scope) (b : Block) (s t : Store) : Type 0 where
  pub placed : is_misplaced scope b s.cursor ≡ false
  pub cursor : t.cursor ≡ some (cursor_at b)
  pub coverage : t.coverage ≡ record { height = b.number; hash = b.hash } ∷ s.coverage
  pub state : t.state ≡ touch_state s.state
  pub deployment : t.deployment ≡ some (identity_of scope s.deployment)

append_block-Appended :
    (scope : Scope) (b : Block) (es : List RawEvent) (ps : List Projection) (s t : Store)
    → append_block scope b es ps s ≡ ok t
    → Appended scope b s t
unfolding append_block check_place
append_block-Appended scope b es ps s t e = >>=-elim (check_place scope b s) _ e (λ u stands e1.
    let (placed, rest) =
      fail_if->>-eq-ok (is_misplaced scope b s.cursor) reorg_requires_replay _ stands in
    >>=-elim (store_logs b.hash ps es s.logs) _ e1 (λ logs logged e2.
      >>=-elim (apply_all scope b es ps (s.strategies, s.invoices)) _ e2 (λ rows applied e3.
        let (new, done) = fail_if->>-eq-ok (is_covered b.number s.coverage) unique_violation _ e3 in
        subst (λ x. Appended scope b s x) (ok-injective done)
          (record {
            placed = placed;
            cursor = refl;
            coverage = refl;
            state = refl;
            deployment = refl;
          }))))

-- The branches of a call that does not throw.
module _ (scope : Scope) (b : Block) (es : List RawEvent) (ps : List Projection) (s t : Store) where
  pub atomic_deployment_block-cases :
      (P : Store → Type 0)
      → atomic_deployment_block scope b es ps s ≡ ok t
      → (needs_resync s.state ≡ false
          → (identity_of scope s.deployment == scope.identity) ≡ true
          → s.cursor ≡ some (cursor_at b)
          → P (record s { deployment = some (identity_of scope s.deployment) }))
      → (needs_resync s.state ≡ false
          → (identity_of scope s.deployment == scope.identity) ≡ true
          → Appended scope b s t
          → P t)
      → P t
  unfolding atomic_deployment_block
  atomic_deployment_block-cases P e there new =
      let (synced, e1) = fail_if->>-eq-ok (needs_resync s.state) resync_required _ e in
      let (known, e2) =
        fail_if->>-eq-ok (not (identity_of scope s.deployment == scope.identity))
          configuration_changed _ e1 in
      elim (Bool-cases (already_at b s.cursor)) [
        | inl here ↦
            subst P (ok-injective (rw here at e2))
              (there synced (not-eq-false _ known) (already_at-cursor_at b s.cursor here))
        | inr away ↦
            new synced (not-eq-false _ known)
              (append_block-Appended scope b es ps s t (rw away at e2))
      ]
