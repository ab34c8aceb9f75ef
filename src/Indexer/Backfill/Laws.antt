-- ===== src/Indexer/Backfill/Laws.antt =====
-- What a backfill of swaps (packages/db/src/materialization.ts) leaves of the index.
use mathlib.Core.Path.{subst}
use aqua_orbital.Prelude.{
  ◌≡◌, refl, false, any, Bool-cases, inl, inr, sym, ap, ◌∙◌, ◌||◌, not, true, List, [], ◌∷◌, some,
  ◌==◌, ok, or_fail, >>=-elim, ok-injective, fail_if->>-eq-ok,
}
use aqua_orbital.Chain.Table.{Block, needs_resync, filter_by}
use aqua_orbital.Indexer.Canonical.{same_option}
use aqua_orbital.Projections.Blocks.{Scope, RawEvent, Projection, Covered, Store, apply_kind}
use aqua_orbital.Projections.Blocks.Laws.{IsIndexed, tip_of, IsCount}
use aqua_orbital.Indexer.Backfill.{
  is_at, resync_required, configuration_changed, reorg_requires_replay, source_changed,
  no_canonical_source, conflicting_log, lowest_row, retained, same_events, source_of, decode_row,
  is_strategy, blocked, backfill_one, backfill_all, atomic_swap_backfill,
}

-- The cursor and the coverage stay.
pub record IsUntouched (s t : Store) : Type 0 where
  pub cursor : t.cursor ≡ s.cursor
  pub coverage : t.coverage ≡ s.coverage

pub IsUntouched-IsIndexed :
    (scope : Scope) (s t : Store) → IsUntouched s t → IsIndexed scope s → IsIndexed scope t
IsUntouched-IsIndexed scope s t u h = record {
  tip = u.cursor ∙ h.tip ∙ ap tip_of (sym u.coverage);
  counted = subst (IsCount scope.start_block) (sym u.coverage) h.counted;
}

module _ (scope : Scope) (b : Block) (es : List RawEvent) where
  backfill_one-IsUntouched :
      (p : Projection) (s t : Store) → backfill_one scope b es p s ≡ ok t → IsUntouched s t
  unfolding backfill_one
  backfill_one-IsUntouched p s t e =
      >>=-elim (or_fail (source_of p es) no_canonical_source) _ e (λ source found e1.
        let (known, e2) =
          fail_if->>-eq-ok (not (source.emitter == scope.router) || not (is_strategy p.kind))
            no_canonical_source _ e1 in
        >>=-elim (or_fail (decode_row scope b.hash source p s.logs) conflicting_log) _ e2
          (λ logs stored e3.
            >>=-elim (blocked (apply_kind scope b p p.kind (s.strategies, s.invoices))) _ e3
              (λ rows applied e4.
                subst (IsUntouched s) (ok-injective e4)
                  (record { cursor = refl; coverage = refl }))))

  backfill_all-IsUntouched :
      (ps : List Projection) (s t : Store) → backfill_all scope b es ps s ≡ ok t → IsUntouched s t
  unfolding backfill_all
  backfill_all-IsUntouched [] s t e =
      subst (IsUntouched s) (ok-injective e) (record { cursor = refl; coverage = refl })
  backfill_all-IsUntouched (p ∷ ps) s t e =
      >>=-elim (backfill_one scope b es p s) _ e (λ next made e1.
        let first = backfill_one-IsUntouched p s next made in
        let rest = backfill_all-IsUntouched ps next t e1 in
        record { cursor = rest.cursor ∙ first.cursor; coverage = rest.coverage ∙ first.coverage })

  -- The rows that are backfilled are no longer pending.
  filter_by-none :
      (rows : List Covered)
      → any (is_at b.number) (filter_by (λ (c : Covered). not (is_at b.number c)) rows) ≡ false
  filter_by-none [] = refl
  filter_by-none (c ∷ cs) = elim (Bool-cases (c.height == b.number)) [
    | inl here ↦ rw here (filter_by-none cs)
    | inr other ↦ rw other (rw other (filter_by-none cs))
  ]

  -- What a backfill leaves: the index, and no row of its block to backfill.
  pub record IsBackfilled (s t : Store) : Type 0 where
    pub untouched : IsUntouched s t
    pub settled : any (is_at b.number) t.unswapped ≡ false

  pub atomic_swap_backfill-IsBackfilled :
      (ps : List Projection) (s t : Store)
      → atomic_swap_backfill scope b es ps s ≡ ok t
      → IsBackfilled s t
  unfolding atomic_swap_backfill
  atomic_swap_backfill-IsBackfilled ps s t e =
      let (live, e1) = fail_if->>-eq-ok (needs_resync s.state) resync_required _ e in
      let (same, e2) =
        fail_if->>-eq-ok (not (same_option s.deployment (some scope.identity)))
          configuration_changed _ e1 in
      >>=-elim (or_fail (lowest_row (λ c. true) s.unswapped) reorg_requires_replay) _ e2
        (λ next found e3.
          let (here, e4) =
            fail_if->>-eq-ok (not (next.height == b.number) || not (next.hash == b.hash))
              reorg_requires_replay _ e3 in
          let (whole, e5) =
            fail_if->>-eq-ok (not (same_events (retained scope b.hash s.logs) es)) source_changed _
              e4 in
          >>=-elim (backfill_all scope b es ps s) _ e5 (λ u made e6.
            let kept = backfill_all-IsUntouched ps s u made in
            subst (IsBackfilled s) (ok-injective e6) (record {
              untouched = record { cursor = kept.cursor; coverage = kept.coverage };
              settled = filter_by-none u.unswapped;
            })))
