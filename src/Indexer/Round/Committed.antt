-- ===== src/Indexer/Round/Committed.antt =====
-- The commits of a round of `syncDeploymentOnce` (apps/indexer/src/materializer.ts).
use mathlib.Core.Path.{subst}
use aqua_orbital.Prelude.{
  ℕ, ◌≡◌, refl, sym, List, [], ◌∷◌, ◌++◌, Option, none, some, ◌==◌, length, Bool-cases, inl, inr,
  ok, err, Result,
}
use aqua_orbital.Shared.{Manifest}
use aqua_orbital.Chain.Table.{Block}
use aqua_orbital.Indexer.Events.{Library}
use aqua_orbital.Indexer.Deployment.{Identity}
use aqua_orbital.Projections.Blocks.{Scope, Store, atomic_deployment_block}
use aqua_orbital.Projections.Blocks.Laws.{cursor_at, IsIndexed}
use aqua_orbital.Projections.Blocks.Indexed.{atomic_deployment_block-IsIndexed}
use aqua_orbital.Projections.Empty.{atomic_empty_blocks, last_of}
use aqua_orbital.Projections.Empty.Laws.{atomic_empty_blocks-IsIndexed}
use aqua_orbital.Indexer.Round.{
  MaterializationRpc, Stop, Prepared, committed, then_commit, commit_stop, empty_stop, flush,
  commit_block, commit_all,
}
use aqua_orbital.Indexer.Round.Prefix.{prepared_blocks}

-- The last of some blocks, after a tip.
abbrev pub tip_after : Option Block → List Block → Option Block
tip_after o [] = o
tip_after o (b ∷ bs) = tip_after (some b) bs

tip_after-last_of : (b : Block) (bs : List Block) → tip_after (some b) bs ≡ some (last_of b bs)
tip_after-last_of b [] = refl
tip_after-last_of b (c ∷ cs) = tip_after-last_of c cs

tip_after-snoc :
    (o : Option Block) (bs : List Block) (b : Block) → tip_after o (bs ++ b ∷ []) ≡ some b
tip_after-snoc o [] b = refl
tip_after-snoc o (c ∷ cs) b = tip_after-snoc (some c) cs b

abbrev pub AtTip : Option Block → Store → Type 0
AtTip none s = Unit
AtTip (some b) s = s.cursor ≡ some (cursor_at b)

-- Whether it stops or not, a part of the round leaves an index without a gap; if it does not stop, the
-- cursor is at the tip.
abbrev pub IsKept : Scope → Option Block → Result Stop (Unit {0}) × Store → Type 0
IsKept scope o (err e, s) = IsIndexed scope s
IsKept scope o (ok u, s) = IsIndexed scope s × AtTip o s

committed-IsKept {ℓ} :
    {E : Type ℓ} (scope : Scope) (b : Block) (f : E → Stop) (s : Store) (r : Result E Store)
    → IsIndexed scope s
    → ((t : Store) → r ≡ ok t → IsIndexed scope t × (t.cursor ≡ some (cursor_at b)))
    → IsKept scope (some b) (committed f s r)
committed-IsKept scope b f s (err e) h k = h
committed-IsKept scope b f s (ok t) h k = k t refl

then_commit-IsKept :
    (scope : Scope) (o o' : Option Block) (r : Result Stop (Unit {0}) × Store)
    (next : Store → Result Stop (Unit {0}) × Store)
    → IsKept scope o r
    → ((t : Store) → IsIndexed scope t → AtTip o t → IsKept scope o' (next t))
    → IsKept scope o' (then_commit r next)
then_commit-IsKept scope o o' (err e, s) next h k = h
then_commit-IsKept scope o o' (ok u, s) next h k = k s h.0 h.1

module _ (lib : Library) (text : Identity → ℕ) (manifest : Manifest) (rpc : MaterializationRpc)
    (meanwhile : ℕ → Store → Store) (scope : Scope)
    (kept : (n : ℕ) (s : Store) → IsIndexed scope s → IsIndexed scope (meanwhile n s)) where
  flush-IsKept :
      (clock : ℕ) (o : Option Block) (waiting : List Block) (s : Store)
      → IsIndexed scope s
      → AtTip o s
      → IsKept scope
          (tip_after o waiting)
          (flush lib text manifest rpc meanwhile scope clock waiting s)
  flush-IsKept clock o [] s h a = (h, a)
  flush-IsKept clock o (b ∷ bs) s h a =
      let before = meanwhile clock s in
      let still = kept clock s h in
      subst
        (λ t.
          IsKept scope t (committed empty_stop before (atomic_empty_blocks scope (b ∷ bs) before)))
        (sym (tip_after-last_of b bs))
        (committed-IsKept scope (last_of b bs) empty_stop before
          (atomic_empty_blocks scope (b ∷ bs) before) still
          (λ t e. atomic_empty_blocks-IsIndexed scope b bs before t e still))

  commit_block-IsKept :
      (clock : ℕ) (p : Prepared) (s : Store)
      → IsIndexed scope s
      → IsKept scope (some p.block) (commit_block lib text manifest rpc meanwhile scope clock p s)
  commit_block-IsKept clock p s h =
      let before = meanwhile clock s in
      let still = kept clock s h in
      committed-IsKept scope p.block commit_stop before
        (atomic_deployment_block scope p.block p.events p.projections before) still
        (λ t e.
          atomic_deployment_block-IsIndexed scope p.block p.events p.projections before t e still)

  pub commit_all-IsKept :
      (clock : ℕ) (o : Option Block) (waiting : List Block) (ps : List Prepared) (s : Store)
      → IsIndexed scope s
      → AtTip o s
      → IsKept scope
          (tip_after (tip_after o waiting) (prepared_blocks ps))
          (commit_all lib text manifest rpc meanwhile scope clock waiting ps s)
  unfolding commit_all
  commit_all-IsKept clock o waiting [] s h a = flush-IsKept clock o waiting s h a
  commit_all-IsKept clock o waiting (p ∷ ps) s h a = elim (Bool-cases (length p.events == 0)) [
    | inl empty ↦ rw empty (
        subst
          (λ t.
            IsKept scope (tip_after t (prepared_blocks ps)) (
              commit_all lib text manifest rpc meanwhile scope clock (waiting ++ p.block ∷ []) ps
                s))
          (tip_after-snoc o waiting p.block)
          (commit_all-IsKept clock o (waiting ++ p.block ∷ []) ps s h a))
    | inr full ↦ rw full (
        then_commit-IsKept scope (tip_after o waiting) _ _ _ (flush-IsKept clock o waiting s h a)
          (λ t good there.
            then_commit-IsKept scope (some p.block) _ _ _ (commit_block-IsKept clock p t good)
              (λ u better here. commit_all-IsKept clock (some p.block) [] ps u better here)))
  ]
