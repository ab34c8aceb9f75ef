-- ===== src/Chain/History/Laws.antt =====
-- What holds of the tables whatever is ingested and reconciled.
use mathlib.Core.Path.{subst}
use aqua_orbital.Prelude.{
  ◌≡◌, refl, sym, ap, ◌∙◌, true, List, ok, inl, inr, ok-injective, fail_if->>-eq-ok, Bool-cases,
}
use aqua_orbital.Chain.Table.{Block, Cursor, Db, needs_resync}
use aqua_orbital.Chain.Table.Laws.{IsValid}
use aqua_orbital.Chain.Ingest.{atomic_block}
use aqua_orbital.Chain.Ingest.Laws.{atomic_block-Ingested}
use aqua_orbital.Chain.Reorg.{
  Reconciliation, reconcile, same_cursor, reconcile_rows, inconsistent_canonical_chain,
  invalid_canonical_window,
}
use aqua_orbital.Chain.Reorg.Outcomes.{reconcile-IsSound}
use aqua_orbital.Chain.History.{Step, ingest, reconciled, Reach, here, after}

Step-IsValid : {db db' : Db} → Step db db' → IsValid db → IsValid db'
Step-IsValid {db} {db'} (ingest b logs e) h = (atomic_block-Ingested b logs db db' h e).1
Step-IsValid {db} {db'} (reconciled expected canonical r e) h =
    (reconcile-IsSound expected canonical db db' r h e).1

-- Ingesting blocks and reconciling, in any order and number, keeps a valid store valid.
pub Reach-IsValid : (db db' : Db) → Reach db db' → IsValid db → IsValid db'
Reach-IsValid db db' here h = h
Reach-IsValid db db' (after {mid = mid} s r) h = Reach-IsValid mid db' r (Step-IsValid s h)

reconcile_rows-stuck :
    (expected : Cursor) (canonical : List Block) (db : Db) {x : Reconciliation × Db}
    → needs_resync db.state ≡ true
    → reconcile_rows expected canonical db ≡ ok x
    → db ≡ x.1
unfolding reconcile_rows
reconcile_rows-stuck expected canonical db stuck e =
    elim (Bool-cases (same_cursor db.cursor expected)) [
      | inl same ↦ ap (λ (x : Reconciliation × Db). x.1) (ok-injective (rw (same, stuck) at e))
      | inr other ↦ ap (λ (x : Reconciliation × Db). x.1) (ok-injective (rw other at e))
    ]

Step-stuck : {db db' : Db} → Step db db' → needs_resync db.state ≡ true → db' ≡ db
unfolding atomic_block reconcile
Step-stuck {db} {db'} (ingest b logs e) stuck = absurd (cc (rw stuck at e))
Step-stuck {db} {db'} (reconciled expected canonical r e) stuck =
    let (a, e1) = fail_if->>-eq-ok _ invalid_canonical_window _ e in
    let (b, e2) =
      fail_if->>-eq-ok _ inconsistent_canonical_chain (reconcile_rows expected canonical db) e1 in
    sym (reconcile_rows-stuck expected canonical db stuck e2)

-- A store that waits for a resync is never written again by ingestion or reconciliation.
pub Reach-stuck : (db db' : Db) → Reach db db' → needs_resync db.state ≡ true → db' ≡ db
Reach-stuck db db' here stuck = refl
Reach-stuck db db' (after {mid = mid} s r) stuck =
    let same = Step-stuck s stuck in
    Reach-stuck mid db' r (subst (λ (d : Db). needs_resync d.state ≡ true) (sym same) stuck) ∙ same

pub Reach-Step : {db db' : Db} → Step db db' → Reach db db'
Reach-Step s = after s here

pub Reach-trans : {db mid db' : Db} → Reach db mid → Reach mid db' → Reach db db'
Reach-trans here q = q
Reach-trans (after s r) q = after s (Reach-trans r q)
