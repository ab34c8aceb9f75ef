-- ===== src/Projections/Blocks/Indexed.antt =====
-- A deployment's index grows by its next block, and a block that is given again changes nothing
-- (packages/db/src/materialization.ts, `atomicDeploymentBlock`).
use mathlib.Core.Path.{subst}
use aqua_orbital.Prelude.{
  ℕ, ◌≡◌, refl, sym, ap, ◌∙◌, Bool, true, false, List, Option, none, some, ◌==◌, ==_iff, ok,
}
use aqua_orbital.Chain.Table.{Block, Status, needs_resync}
use aqua_orbital.Chain.Ingest.{already_at, touch_state}
use aqua_orbital.Projections.Blocks.{
  Scope, RawEvent, Projection, Store, identity_of, atomic_deployment_block,
}
use aqua_orbital.Projections.Blocks.Laws.{
  cursor_at, IsCount, tip_of, IsIndexed, is_misplaced-IsCount, atomic_deployment_block-cases,
}

-- If `atomicDeploymentBlock` does not throw on tables whose coverage has no gap from the deployment's
-- first block to its cursor, then the coverage has none after it, and the cursor is at the block.
pub atomic_deployment_block-IsIndexed :
    (scope : Scope) (b : Block) (es : List RawEvent) (ps : List Projection) (s t : Store)
    → atomic_deployment_block scope b es ps s ≡ ok t
    → IsIndexed scope s
    → IsIndexed scope t × (t.cursor ≡ some (cursor_at b))
atomic_deployment_block-IsIndexed scope b es ps s t e h =
    atomic_deployment_block-cases scope b es ps s t
      (λ u. IsIndexed scope u × (u.cursor ≡ some (cursor_at b))) e
      (λ synced known here. (record { tip = h.tip; counted = h.counted }, here))
      (λ synced known a. (
        record {
          tip = a.cursor ∙ sym (ap tip_of a.coverage);
          counted =
              subst (IsCount scope.start_block) (sym a.coverage)
                (is_misplaced-IsCount scope b s.cursor s.coverage a.placed h.tip h.counted);
        },
        a.cursor,
      ))

touch_state-needs_resync :
    (x : Option (Status × Bool)) → needs_resync x ≡ false → needs_resync (touch_state x) ≡ false
touch_state-needs_resync none h = refl
touch_state-needs_resync (some x) h = h

already_at_self : (b : Block) → already_at b (some (cursor_at b)) ≡ true
already_at_self b = rw ((==_iff b.number b.number).1 refl) ((==_iff b.hash b.hash).1 refl)

-- Tables at which a block is there already.
replayed :
    (scope : Scope) (b : Block) (es : List RawEvent) (ps : List Projection) (t : Store)
    (identity : ℕ)
    → needs_resync t.state ≡ false
    → t.deployment ≡ some identity
    → (identity == scope.identity) ≡ true
    → t.cursor ≡ some (cursor_at b)
    → atomic_deployment_block scope b es ps t ≡ ok t
unfolding atomic_deployment_block
replayed scope b es ps t identity synced deployed known here =
    rw synced (rw deployed (rw known (rw here (rw (already_at_self b) refl))))

-- A block that `atomicDeploymentBlock` has taken is taken again without a change, with whatever logs
-- and projections it is given the second time.
pub atomic_deployment_block-atomic_deployment_block :
    (scope : Scope) (b : Block) (es es' : List RawEvent) (ps ps' : List Projection) (s t : Store)
    → atomic_deployment_block scope b es ps s ≡ ok t
    → atomic_deployment_block scope b es' ps' t ≡ ok t
atomic_deployment_block-atomic_deployment_block scope b es es' ps ps' s t e =
    atomic_deployment_block-cases scope b es ps s t
      (λ u. atomic_deployment_block scope b es' ps' u ≡ ok u) e
      (λ synced known here.
        replayed scope b es' ps' (record s { deployment = some (identity_of scope s.deployment) })
          (identity_of scope s.deployment) synced refl known here)
      (λ synced known a.
        replayed scope b es' ps' t (identity_of scope s.deployment)
          (ap needs_resync a.state ∙ touch_state-needs_resync s.state synced) a.deployment known
          a.cursor)
