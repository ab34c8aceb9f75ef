-- ===== src/Chain/Ingest/Laws.antt =====
-- What `atomicBlock` (packages/db/src/index.ts) stores, and that it keeps the store's invariant.
use mathlib.Core.Path.{subst, subst₂}
use mathlib.Core.List.{append-nil, append_assoc}
use aqua_orbital.Prelude.{
  ℕ, ◌≡◌, refl, ap, sym, ◌∙◌, ◌⊎◌, inl, inr, Bool, true, false, List, [], ◌∷◌, ◌++◌, Option, none,
  some, arith, ◌||◌, any, includes, All, Bool-cases, ok, ok-injective, fail_if->>-eq-ok, All-append,
}
use aqua_orbital.Chain.Table.{
  Block, Cursor, Event, Coverage, Db, Status, hashes, needs_resync, conflicts, insert_block,
}
use aqua_orbital.Chain.Table.Laws.{Linked, IsTip, IsValid}
use aqua_orbital.Chain.Ingest.{
  Log, event_of, same_key, insert_event, insert_events, already_at, breaks_chain, with_block,
  atomic_block, resync_required, reorg_requires_replay, unique_violation, touch_state,
}

-- Whether an event with the key of a log is stored.
abbrev pub is_stored : ℕ → List Event → Log → Bool
is_stored h es l = any (same_key (event_of h l)) es

-- What a block that was not yet the tip leaves.
pub record Appended (b : Block) (logs : List Log) (db db' : Db) : Type 0 where
  pub blocks : db'.blocks ≡ b ∷ db.blocks
  pub cursor : db'.cursor ≡ some (record { height = b.number; hash = b.hash })
  pub events :
      (added : List Event) × (db'.events ≡ db.events ++ added)
      × All (λ (e : Event). e.block_hash ≡ b.hash) added
  pub complete : All (λ l. is_stored b.hash db'.events l ≡ true) logs

no_conflict :
    (b : Block) (bs : List Block) → conflicts b bs ≡ false → includes b.hash (hashes bs) ≡ false
no_conflict b [] e = refl
no_conflict b (c ∷ bs) e = ground (arith, no_conflict b bs)

insert_block_lem :
    (b : Block) (o : Option Cursor) (bs : List Block)
    → IsTip o bs
    → breaks_chain b o ≡ false
    → insert_block b bs ≡ b ∷ bs
insert_block_lem b o [] tip e = refl
insert_block_lem b none (c ∷ bs) tip e = absurd tip
insert_block_lem b (some p) (c ∷ bs) tip e = ground arith

Linked-extend :
    (b : Block) (o : Option Cursor) (bs : List Block)
    → Linked bs
    → IsTip o bs
    → breaks_chain b o ≡ false
    → Linked (b ∷ bs)
Linked-extend b o [] l tip e = tt
Linked-extend b none (c ∷ bs) l tip e = absurd tip
Linked-extend b (some p) (c ∷ bs) l tip e = (ground arith, ground arith, l)

insert_event_lem :
    (e : Event) (es : List Event)
    → (added : List Event) × (insert_event e es ≡ es ++ added)
      × All (λ (x : Event). x.block_hash ≡ e.block_hash) added
insert_event_lem e es = elim (Bool-cases (any (same_key e) es)) [
  | inl old ↦ ([], rw (old, append-nil es), tt)
  | inr new ↦ (e ∷ [], rw new, (refl, tt))
]

insert_events_lem :
    (h : ℕ) (ls : List Log) (es : List Event)
    → (added : List Event) × (insert_events h ls es ≡ es ++ added)
      × All (λ (x : Event). x.block_hash ≡ h) added
insert_events_lem h [] es = ([], rw (append-nil es), tt)
insert_events_lem h (l ∷ ls) es =
    let (first, e1, all1) = insert_event_lem (event_of h l) es in
    let (rest, e2, all2) = insert_events_lem h ls (insert_event (event_of h l) es) in
    (
      first ++ rest,
      e2 ∙ ap (λ (xs : List Event). xs ++ rest) e1 ∙ append_assoc es first rest,
      All-append (λ (x : Event). x.block_hash ≡ h) first rest all1 all2,
    )

any-append : (p : Event → Bool) (xs ys : List Event) → any p (xs ++ ys) ≡ (any p xs || any p ys)
any-append p [] ys = refl
any-append p (x ∷ xs) ys = ground (arith, any-append p xs ys)

insert_event_mono :
    (p : Event → Bool) (e : Event) (es : List Event)
    → any p es ≡ true
    → any p (insert_event e es) ≡ true
insert_event_mono p e es h = ground (arith, any-append p es (e ∷ []))

insert_events_mono :
    (p : Event → Bool) (h : ℕ) (ls : List Log) (es : List Event)
    → any p es ≡ true
    → any p (insert_events h ls es) ≡ true
insert_events_mono p h [] es a = a
insert_events_mono p h (l ∷ ls) es a =
    insert_events_mono p h ls (insert_event (event_of h l) es)
      (insert_event_mono p (event_of h l) es a)

insert_event-stores :
    (h : ℕ) (l : Log) (es : List Event) → is_stored h (insert_event (event_of h l) es) l ≡ true
insert_event-stores h l es =
    ground (arith, any-append (same_key (event_of h l)) es (event_of h l ∷ []))

insert_events-stores :
    (h : ℕ) (ls : List Log) (es : List Event)
    → All (λ l. is_stored h (insert_events h ls es) l ≡ true) ls
insert_events-stores h [] es = tt
insert_events-stores h (l ∷ ls) es = (
  insert_events_mono (same_key (event_of h l)) h ls (insert_event (event_of h l) es)
      (insert_event-stores h l es),
  insert_events-stores h ls (insert_event (event_of h l) es),
)

-- Rows of the old store stay in the new one.
module _ {A : Type 0} (hash_of : A → ℕ) (b : Block) (bs : List Block) where
  stored-extend :
      (es : List A)
      → All (λ e. includes (hash_of e) (hashes bs) ≡ true) es
      → All (λ e. includes (hash_of e) (hashes (b ∷ bs)) ≡ true) es
  stored-extend [] h = tt
  stored-extend (e ∷ es) (here, rest) = (ground (arith, here), stored-extend es rest)

  stored-new :
      (es : List A)
      → All (λ e. hash_of e ≡ b.hash) es
      → All (λ e. includes (hash_of e) (hashes (b ∷ bs)) ≡ true) es
  stored-new [] h = tt
  stored-new (e ∷ es) (here, rest) = (ground (arith, here), stored-new es rest)

module _ (b : Block) (logs : List Log) (db : Db) (h : IsValid db)
    (chained : breaks_chain b db.cursor ≡ false) where
  with_block-Appended : Appended b logs db (with_block b logs db)
  with_block-Appended = record {
    blocks = insert_block_lem b db.cursor db.blocks h.tip chained;
    cursor = refl;
    events = insert_events_lem b.hash logs db.events;
    complete = insert_events-stores b.hash logs db.events;
  }

  with_block-IsValid : conflicts b db.blocks ≡ false → IsValid (with_block b logs db)
  with_block-IsValid free =
      let blocks = insert_block_lem b db.cursor db.blocks h.tip chained in
      let (added, grown, fresh) = insert_events_lem b.hash logs db.events in
      record {
        linked = rw blocks (Linked-extend b db.cursor db.blocks h.linked h.tip chained);
        tip = rw blocks (refl, refl);
        distinct = rw blocks (no_conflict b db.blocks free, h.distinct);
        events_stored =
            subst₂ (λ es bs. All (λ (e : Event). includes e.block_hash (hashes bs) ≡ true) es)
              (sym grown) (sym blocks)
              (All-append _ db.events added
                (stored-extend (λ (e : Event). e.block_hash) b db.blocks db.events h.events_stored)
                (stored-new (λ (e : Event). e.block_hash) b db.blocks added fresh));
        coverage_stored =
            subst (λ bs. All (λ (e : Coverage). includes e.hash (hashes bs) ≡ true) db.coverage)
              (sym blocks)
              (stored-extend (λ (e : Coverage). e.hash) b db.blocks db.coverage h.coverage_stored);
      }

-- A block is stored, or was the tip already.
abbrev pub Ingested : Block → List Log → Db → Db → Type 0
Ingested b logs db db' =
    (((db' ≡ db) × (already_at b db.cursor ≡ true)) ⊎ Appended b logs db db') × IsValid db'

-- From a valid store, ingesting a block that succeeds leaves a valid store. Either the block was the
-- cursor already and nothing is written, or it is put on top of the blocks and becomes the cursor, the
-- old events stay as they are, each event that is added is the block's, and for each log given there
-- is an event of the block with its index.
pub atomic_block-Ingested :
    (b : Block) (logs : List Log) (db db' : Db)
    → IsValid db
    → atomic_block b logs db ≡ ok db'
    → Ingested b logs db db'
unfolding atomic_block
atomic_block-Ingested b logs db db' h e =
    let (sound, e1) = fail_if->>-eq-ok (needs_resync db.state) resync_required _ e in
    elim (Bool-cases (already_at b db.cursor)) [
      | inl old ↦ subst (Ingested b logs db) (ok-injective (rw old at e1)) (inl (refl, old), h)
      | inr new ↦
          let (chained, e2) =
            fail_if->>-eq-ok (breaks_chain b db.cursor) reorg_requires_replay _ (rw new at e1) in
          let (free, e3) = fail_if->>-eq-ok (conflicts b db.blocks) unique_violation _ e2 in
          subst (Ingested b logs db) (ok-injective e3) (
            inr (with_block-Appended b logs db h chained),
            with_block-IsValid b logs db h chained free,
          )
    ]

already_at_own :
    (b : Block) → already_at b (some (record { height = b.number; hash = b.hash })) ≡ true
already_at_own b = ground arith

touch_state_lem :
    (o : Option (Status × Bool)) → needs_resync o ≡ false → needs_resync (touch_state o) ≡ false
touch_state_lem none e = refl
touch_state_lem (some s) e = e

-- After a success the block is the tip, of a chain that is not waiting for a resync.
abbrev pub IsIngested : Block → Db → Type 0
IsIngested b db = (needs_resync db.state ≡ false) × (already_at b db.cursor ≡ true)

pub atomic_block-IsIngested :
    (b : Block) (logs : List Log) (db db' : Db) → atomic_block b logs db ≡ ok db' → IsIngested b db'
unfolding atomic_block
atomic_block-IsIngested b logs db db' e =
    let (sound, e1) = fail_if->>-eq-ok (needs_resync db.state) resync_required _ e in
    elim (Bool-cases (already_at b db.cursor)) [
      | inl old ↦ subst (IsIngested b) (ok-injective (rw old at e1)) (sound, old)
      | inr new ↦
          let (chained, e2) =
            fail_if->>-eq-ok (breaks_chain b db.cursor) reorg_requires_replay _ (rw new at e1) in
          let (free, e3) = fail_if->>-eq-ok (conflicts b db.blocks) unique_violation _ e2 in
          subst (IsIngested b) (ok-injective e3) (touch_state_lem db.state sound, already_at_own b)
    ]

-- After a block is ingested, ingesting it again succeeds and writes nothing, whatever logs are given.
pub atomic_block-atomic_block :
    (b : Block) (logs logs' : List Log) (db db' : Db)
    → atomic_block b logs db ≡ ok db'
    → atomic_block b logs' db' ≡ ok db'
unfolding atomic_block
atomic_block-atomic_block b logs logs' db db' e =
    let (sound, old) = atomic_block-IsIngested b logs db db' e in rw (sound, old)
