-- ===== src/Indexer/Worker/Progress.antt =====
-- What a round of the indexer that reports a new block (`syncOnce`, apps/indexer/src/worker.ts) has done.
use mathlib.Core.Option.{some-injective}
use mathlib.Core.Path.{subst, ap₂}
use aqua_orbital.Prelude.{
  ℕ, ◌+◌, ◌≤◌, ◌≡◌, refl, sym, ap, ◌∙◌, Bool, true, false, not, List, Option, none, some, arith,
  ltb, ◌==◌, length, Bool-cases, inl, inr, Result, ok, err, fail_if, or_fail, Option-cases,
  >>=-elim, fail_if-eq-ok, ok-injective,
}
use aqua_orbital.Chain.Table.{Block, Cursor, Db, Status, indexing, needs_resync}
use aqua_orbital.Chain.Ingest.{Error as IngestError, Log, atomic_block, already_at}
use aqua_orbital.Chain.Ingest.Laws.{IsIngested, atomic_block-IsIngested}
use aqua_orbital.Chain.Reorg.{Snapshot, indexer_snapshot, status_or_indexing}
use aqua_orbital.Indexer.Worker.{
  ReadRpc, Header, header_block, IndexerConfig, Round, stopped, indexed, Stop, returned, thrown,
  is_stuck, follow, next_block, next_height, finish_ingest, append, sync_after, sync_from,
  sync_once, checked_block, breaks_link, accept_logs, idle, retry, rpc_failed, invalid_block_header,
  invalid_block_log,
}

-- A header of a height that the provider gave.
abbrev pub Served : ReadRpc → ℕ → Block → Type 0
Served rpc number b =
    (k : ℕ) × (header : Header) × (rpc.get_block k number ≡ some header)
    × (header_block header ≡ some b)

-- The new cursor, and what was read of the provider.
pub record Advanced (config : IndexerConfig) (rpc : ReadRpc) (before after : Db) (number hash : ℕ)
    : Type 0 where
  pub cursor : after.cursor ≡ some (record { height = number; hash = hash })
  pub live : needs_resync after.state ≡ false
  pub was_live : needs_resync before.state ≡ false
  pub next : number ≡ next_height config before.cursor
  pub head : ℕ
  pub asked : rpc.get_block_number 0 ≡ some head
  pub confirmed : number + 2 ≤ head
  pub block : Block
  pub served : Served rpc number block
  pub identity : (block.number ≡ number) × (block.hash ≡ hash)
  pub linked : breaks_link block before.cursor ≡ false

header_block_lem : (h : Header) {b : Block} → header_block h ≡ some b → b.number ≡ h.number
header_block_lem h e = elim (Option-cases h.hash) [
  | inl empty ↦ absurd (cc (rw empty at e))
  | inr (x, full) ↦ elim (Option-cases h.parent_hash) [
    | inl empty ↦ absurd (cc (rw (full, empty) at e))
    | inr (p, parent) ↦
        sym (ap (λ (c : Block). c.number) (some-injective _ _ (rw (full, parent) at e)))
  ]
]

same_number : (m n : ℕ) → not (m == n) ≡ false → m ≡ n
same_number m n e = ground arith

or_fail-eq-ok : {A : Type 0} (o : Option A) (s : Stop) {a : A} → or_fail o s ≡ ok a → o ≡ some a
or_fail-eq-ok none s e = cc
or_fail-eq-ok (some x) s e = ap some (ok-injective e)

own_cursor :
    (b : Block) (o : Option Cursor)
    → already_at b o ≡ true
    → o ≡ some (record { height = b.number; hash = b.hash })
own_cursor b none e = cc
own_cursor b (some c) e = ground arith

stuck_lem :
    (o : Option (Status × Bool)) → is_stuck (status_or_indexing o) ≡ false → needs_resync o ≡ false
stuck_lem none e = refl
stuck_lem (some (indexing, r)) e = refl
stuck_lem (some (Status.resync_required, r)) e = cc

ltb-false : (m n : ℕ) → ltb m n ≡ false → n ≤ m
ltb-false m n e = ground arith

stopped_lem : {stop : Stop} {n h l : ℕ} → stopped stop ≡ indexed n h l → ⊥
stopped_lem e = cc

indexed_lem : {m x k n h l : ℕ} → indexed m x k ≡ indexed n h l → (m ≡ n) × (x ≡ h)
indexed_lem e = (cc, cc)

module _ (config : IndexerConfig) (rpc : ReadRpc) (meanwhile : ℕ → Db → Db) where
  checked_block_lem :
      (clock number : ℕ) {b : Block}
      → checked_block config rpc meanwhile clock number ≡ ok b
      → (b.number ≡ number) × Served rpc number b
  checked_block_lem clock number e =
      >>=-elim (or_fail (rpc.get_block clock number) (thrown rpc_failed)) _ e (λ h given e1.
        >>=-elim (fail_if (not (h.number == number)) (thrown invalid_block_header)) _ e1
          (λ u named e2.
            let made = or_fail-eq-ok (header_block h) (thrown invalid_block_header) e2 in
            (
              header_block_lem h made ∙ same_number h.number number (fail_if-eq-ok _ _ named),
              (
                clock,
                h,
                or_fail-eq-ok (rpc.get_block clock number) (thrown rpc_failed) given,
                made,
              ),
            )))

  -- What the reads before the ingestion have checked.
  record Read (head : ℕ) (o : Option Cursor) (b : Block) : Type 0 where
    number : b.number ≡ next_height config o
    confirmed : next_height config o + 2 ≤ head
    served : Served rpc (next_height config o) b
    linked : breaks_link b o ≡ false

  next_block_lem :
      (head : ℕ) (o : Option Cursor) (clock : ℕ) {x : ℕ × Block × List Log}
      → next_block config rpc meanwhile head o clock ≡ ok x
      → Read head o x.1
  unfolding next_block
  next_block_lem head o clock {x} e =
      >>=-elim (fail_if (ltb head (next_height config o + 2)) (returned idle)) _ e (λ u enough e1.
        >>=-elim (checked_block config rpc meanwhile clock (next_height config o)) _ e1
          (λ b checked e2.
            >>=-elim (fail_if (breaks_link b o) (returned retry)) _ e2 (λ v linked e3.
              >>=-elim
                (or_fail (rpc.get_logs (clock + 1) (next_height config o)) (thrown rpc_failed)) _ e3
                (λ ls got e4.
                  >>=-elim (or_fail (accept_logs config b ls) (thrown invalid_block_log)) _ e4
                    (λ kept stored e5.
                      >>=-elim
                        (checked_block config rpc meanwhile (clock + 2) (next_height config o)) _ e5
                        (λ again a e6.
                          >>=-elim (fail_if (not (again.hash == b.hash)) (returned retry)) _ e6
                            (λ w same e7.
                              subst (λ (y : ℕ × Block × List Log). Read head o y.1)
                                (ok-injective e7)
                                (record {
                                  number =
                                      (checked_block_lem clock (next_height config o) checked).0;
                                  confirmed =
                                      ltb-false head (next_height config o + 2)
                                        (fail_if-eq-ok _ _ enough);
                                  served =
                                      (checked_block_lem clock (next_height config o) checked).1;
                                  linked = fail_if-eq-ok _ _ linked;
                                }))))))))

  -- The part of `Advanced` that the ingestion gives.
  record Stored (head : ℕ) (o : Option Cursor) (db' : Db) (number hash : ℕ) : Type 0 where
    block : Block
    read : Read head o block
    block_number : block.number ≡ number
    block_hash : block.hash ≡ hash
    ingested : IsIngested block db'

  append_lem :
      (head : ℕ) (o : Option Cursor) (clock : ℕ) (db : Db) (x : Result Stop (ℕ × Block × List Log))
      {number hash logs : ℕ} {db' : Db}
      → next_block config rpc meanwhile head o clock ≡ x
      → append config rpc meanwhile x db ≡ (indexed number hash logs, db')
      → Stored head o db' number hash
  append_lem head o clock db (err stop) read e =
      absurd (stopped_lem (ap (λ (y : Round × Db). y.0) e))
  append_lem head o clock db (ok (k, b, ls)) read e =
      finish (atomic_block b ls (meanwhile k db)) refl e
    where
      finish :
          {number hash logs : ℕ} {db' : Db} (y : Result IngestError Db)
          → atomic_block b ls (meanwhile k db) ≡ y
          → finish_ingest b (length ls) (meanwhile k db) y ≡ (indexed number hash logs, db')
          → Stored head o db' number hash
      finish (err x) done e = absurd (stopped_lem (ap (λ (y : Round × Db). y.0) e))
      finish {number} {hash} {logs} {db'} (ok after) done e =
          let same = indexed_lem (ap (λ (y : Round × Db). y.0) e) in
          record {
            block = b;
            read = next_block_lem head o clock read;
            block_number = same.0;
            block_hash = same.1;
            ingested =
                subst (IsIngested b) (ap (λ (y : Round × Db). y.1) e)
                  (atomic_block-IsIngested b ls (meanwhile k db) after done);
          }

  sync_after_lem :
      (head : ℕ) (o : Option Cursor) (x : Result Stop ℕ × Db) {number hash logs : ℕ} {db' : Db}
      → sync_after config rpc meanwhile head o x ≡ (indexed number hash logs, db')
      → Stored head o db' number hash
  sync_after_lem head o (err stop, db) e = absurd (stopped_lem (ap (λ (y : Round × Db). y.0) e))
  sync_after_lem head o (ok clock, db) e =
      append_lem head o clock db (next_block config rpc meanwhile head o clock) refl e

  sync_from_lem :
      (n : Option ℕ) (s : Snapshot) (db : Db) {number hash logs : ℕ} {db' : Db}
      → sync_from config rpc meanwhile n s db ≡ (indexed number hash logs, db')
      → (head : ℕ) × (n ≡ some head) × Stored head s.cursor db' number hash
  sync_from_lem none s db e = absurd (stopped_lem (ap (λ (y : Round × Db). y.0) e))
  sync_from_lem (some head) s db e = (
    head,
    refl,
    sync_after_lem head s.cursor (follow config rpc meanwhile head s.cursor s.blocks db) e,
  )

  -- A round that reports a new block has made it the cursor of a store that does not wait for a resync.
  -- Its height is the one after the cursor that the round saw (or the configured first one), at least
  -- two below the provider's head; its header is one that the provider gave, and names the old cursor as
  -- its parent.
  pub sync_once-Advanced :
      (db db' : Db) (number hash logs : ℕ)
      → sync_once config rpc meanwhile db ≡ (indexed number hash logs, db')
      → Advanced config rpc db db' number hash
  unfolding sync_once indexer_snapshot
  sync_once-Advanced db db' number hash logs e =
      elim (Bool-cases (is_stuck (indexer_snapshot db).status)) [
        | inl stuck ↦ absurd (stopped_lem (ap (λ (y : Round × Db). y.0) (rw stuck at e)))
        | inr live ↦
            let (head, asked, s) =
              sync_from_lem (rpc.get_block_number 0) (indexer_snapshot db) db (rw live at e) in
            record {
              cursor =
                  own_cursor s.block db'.cursor s.ingested.1
                  ∙ ap₂ (λ n x. some (record { height = n; hash = x })) s.block_number s.block_hash;
              live = s.ingested.0;
              was_live = stuck_lem db.state live;
              next = sym s.block_number ∙ s.read.number;
              head = head;
              asked = asked;
              confirmed = rw (sym (sym s.block_number ∙ s.read.number)) at s.read.confirmed;
              block = s.block;
              served =
                  subst (λ n. Served rpc n s.block) (sym s.read.number ∙ s.block_number)
                    s.read.served;
              identity = (s.block_number, s.block_hash);
              linked = s.read.linked;
            }
      ]
