-- ===== src/Chain/History/Undo.antt =====
-- Rolling a block back undoes its ingestion: `atomicBlock` (packages/db/src/index.ts), then
-- `reconcileCanonicalChain` (packages/db/src/reorg.ts) with a window that has the parent and not the block.
use mathlib.Core.Path.{subst, ap₂}
use aqua_orbital.Prelude.{
  ℕ, ◌≡◌, refl, sym, ap, ◌∙◌, Bool, true, false, List, [], ◌∷◌, ◌++◌, some, arith, ok, inl, inr,
  length, take, All, ◌==◌, includes,
}
use aqua_orbital.Chain.Table.{Block, Cursor, Db, Event, hashes, needs_resync, filter_by}
use aqua_orbital.Chain.Table.Laws.{Distinct, IsTip, IsValid}
use aqua_orbital.Chain.Ingest.{Log, atomic_block, already_at}
use aqua_orbital.Chain.Ingest.Laws.{atomic_block-Ingested, Appended, atomic_block-IsIngested}
use aqua_orbital.Chain.Reorg.{
  Reconciliation, Outcome, unchanged, rolled_back, resync_needed, cursor_changed, reconcile,
  canonical_at, is_canonical, reorg_window,
}
use aqua_orbital.Chain.Reorg.Laws.{Effect, RolledBack, events_of}
use aqua_orbital.Chain.Reorg.Outcomes.{reconcile-IsSound}

-- The second row is the first one that passes the test.
second_lem :
    (p : Block → Bool) (b t a : Block) (ts upper lower : List Block)
    → b ∷ t ∷ ts ≡ upper ++ a ∷ lower
    → p b ≡ false
    → p t ≡ true
    → p a ≡ true
    → All (λ x. p x ≡ false) upper
    → (length upper ≡ 1) × (a ∷ lower ≡ t ∷ ts)
second_lem p b t a ts [] lower e off on chosen passed = absurd (cc)
second_lem p b t a ts (u ∷ []) lower e off on chosen passed = (refl, cc)
second_lem p b t a ts (u ∷ v ∷ us) lower e off on chosen (pu, rest) = let pv = rest.0 in absurd (cc)

head_eq : {a b : Block} {xs bs : List Block} → ◌≡◌ {A = List Block} (a ∷ xs) (b ∷ bs) → a ≡ b
head_eq e = cc

==_refl : (a : ℕ) → (a == a) ≡ true
==_refl a = ground arith

filter_by-append :
    (p : Event → Bool) (xs ys : List Event)
    → All (λ e. p e ≡ true) xs
    → All (λ e. p e ≡ false) ys
    → filter_by p (xs ++ ys) ≡ xs
filter_by-append p [] [] h k = refl
filter_by-append p [] (y ∷ ys) h (off, k) = rw (off, filter_by-append p [] ys h k)
filter_by-append p (x ∷ xs) ys (on, h) k = rw (on, filter_by-append p xs ys h k)

off_chain :
    (h : ℕ) (hs : List ℕ) (es : List Event)
    → includes h hs ≡ false
    → All (λ (e : Event). e.block_hash ≡ h) es
    → All (λ (e : Event). includes e.block_hash hs ≡ false) es
off_chain h hs [] new a = tt
off_chain h hs (e ∷ es) new (here, rest) = (rw here new, off_chain h hs es new rest)

-- The tip of a store.
module _ (c : Cursor) where
  pub record Tip (bs : List Block) : Type 0 where
    pub top : Block
    pub rest : List Block
    pub whole : bs ≡ top ∷ rest
    pub number : top.number ≡ c.height
    pub hash : top.hash ≡ c.hash

  tip_lem : (bs : List Block) → IsTip (some c) bs → Tip bs
  tip_lem [] t = absurd t
  tip_lem (b ∷ bs) (n, x) = record {
    top = b;
    rest = bs;
    whole = refl;
    number = sym n;
    hash = sym x;
  }

-- One row went, and the store is as it was.
abbrev pub Undone : Db → ℕ → Db → Type 0
Undone db removed db₂ =
    (removed ≡ 1) × (db₂.blocks ≡ db.blocks) × (db₂.events ≡ db.events) × (db₂.cursor ≡ db.cursor)

-- A block that was ingested on a canonical tip, and is not canonical itself.
module _ (b : Block) (logs : List Log) (c : Cursor) (db db₁ : Db) (canonical : List Block)
    (h : IsValid db) (h₁ : IsValid db₁) (at : db.cursor ≡ some c)
    (kept : canonical_at c.height canonical ≡ some c.hash)
    (orphan : is_canonical canonical b ≡ false) (a : Appended b logs db db₁)
    (t : Tip c db.blocks) where
  top_canonical : is_canonical canonical t.top ≡ true
  top_canonical = rw (t.number, t.hash, kept) (ground arith)

  undo-RolledBack :
      (removed : ℕ) (db₂ : Db) → RolledBack canonical db₁ removed db₂ → Undone db removed db₂
  undo-RolledBack removed db₂ r =
      let (one, same) =
        second_lem (is_canonical canonical) b t.top r.ancestor t.rest r.upper r.lower
          (ap (λ (bs : List Block). b ∷ bs) (sym t.whole) ∙ sym a.blocks ∙ r.stored) orphan
          top_canonical r.canonical_ancestor r.highest in
      let kept_blocks : r.ancestor ∷ r.lower ≡ db.blocks = same ∙ sym t.whole in
      let top : r.ancestor ≡ t.top = head_eq same in
      let (added, grown, from_b) = a.events in
      let new : includes b.hash (hashes db.blocks) ≡ false =
        (subst Distinct a.blocks h₁.distinct).0 in
      (
        r.removed_rows ∙ one,
        r.blocks ∙ kept_blocks,
        r.events
            ∙ ap₂ (λ bs es. events_of bs es) kept_blocks grown
            ∙ filter_by-append (λ (e : Event). includes e.block_hash (hashes db.blocks)) db.events
                added h.events_stored (off_chain b.hash (hashes db.blocks) added new from_b),
        r.cursor
            ∙ ap₂ (λ n x. some (record { height = n; hash = x }))
                (ap (λ (x : Block). x.number) top ∙ t.number)
                (ap (λ (x : Block). x.hash) top ∙ t.hash)
            ∙ sym at,
      )

  undo-Effect :
      (o : Outcome) (removed : ℕ) (db₂ : Db)
      → needs_resync db₁.state ≡ false
      → Effect canonical (record { height = b.number; hash = b.hash }) db₁ o removed db₂
      → (o ≡ rolled_back) × Undone db removed db₂
  undo-Effect unchanged removed db₂ sound (same, agreed) =
      absurd (cc (rw (agreed, ==_refl b.hash) at orphan))
  undo-Effect rolled_back removed db₂ sound f = (refl, undo-RolledBack removed db₂ f)
  undo-Effect resync_needed removed db₂ sound (bs, es, cu, co, st, inl stuck) = absurd (cc)
  undo-Effect resync_needed removed db₂ sound (bs, es, cu, co, st, inr none_canonical) =
      let rows : All (λ b. is_canonical canonical b ≡ false)
          (take reorg_window (b ∷ t.top ∷ t.rest)) =
        subst
          (λ (bs : List Block). All (λ b. is_canonical canonical b ≡ false) (take reorg_window bs))
          (a.blocks ∙ ap (λ (bs : List Block). b ∷ bs) t.whole) none_canonical in
      let off : is_canonical canonical t.top ≡ false = rows.1.0 in absurd (cc (top_canonical, off))
  undo-Effect cursor_changed removed db₂ sound (same, other) =
      absurd (cc (rw (a.cursor, ==_refl b.number, ==_refl b.hash) at other))

-- If a block that was not the cursor is ingested on a valid store, and a reconciliation from that block
-- succeeds with a window that has the old cursor and not the block, then it rolls back: one block is
-- removed, and the blocks, the events and the cursor are those before the ingestion.
pub reconcile-atomic_block :
    (b : Block) (logs : List Log) (c : Cursor) (canonical : List Block) (db db₁ db₂ : Db)
    (r : Reconciliation)
    → IsValid db
    → db.cursor ≡ some c
    → already_at b db.cursor ≡ false
    → atomic_block b logs db ≡ ok db₁
    → canonical_at c.height canonical ≡ some c.hash
    → is_canonical canonical b ≡ false
    → reconcile (record { height = b.number; hash = b.hash }) canonical db₁ ≡ ok (r, db₂)
    → (r.status ≡ rolled_back) × Undone db r.removed_blocks db₂
reconcile-atomic_block b logs c canonical db db₁ db₂ r h at new e kept orphan e₂ =
    let (how, h₁) = atomic_block-Ingested b logs db db₁ h e in
    let (effect, h₂) =
      reconcile-IsSound (record { height = b.number; hash = b.hash }) canonical db₁ db₂ r h₁ e₂ in
    let (sound, tip) = atomic_block-IsIngested b logs db db₁ e in
    elim how [
      | inl (same, old) ↦ absurd (cc)
      | inr a ↦
          undo-Effect b logs c db db₁ canonical h h₁ at kept orphan a
            (tip_lem c db.blocks (subst (λ o. IsTip o db.blocks) at h.tip)) r.status
            r.removed_blocks db₂ sound effect
    ]
