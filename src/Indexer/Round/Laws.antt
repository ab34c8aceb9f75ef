-- ===== src/Indexer/Round/Laws.antt =====
-- A round of `syncDeploymentOnce` (apps/indexer/src/materializer.ts) as a whole.
use mathlib.Core.Path.{subst}
use aqua_orbital.Prelude.{
  any, false, ℕ, suc, ◌+◌, ◌≤◌, ◌≡◌, refl, sym, ap, ◌∙◌, false, ◌||◌, not, List, [], ◌∷◌, Option,
  none, some, ltb, ◌==◌, length, take, arith, Bool-cases, inl, inr, ok, err, Result, ◌>>=◌, ◌>>◌,
  >>=-elim, fail_if->>-eq-ok, or_fail-eq-ok, ok-injective, or_fail,
}
use aqua_orbital.Shared.{Manifest}
use aqua_orbital.Chain.Table.{Block, Cursor, Db}
use aqua_orbital.Chain.Reorg as Reorg
use aqua_orbital.Chain.Reorg.{
  Reconciliation, Outcome, unchanged, rolled_back, resync_needed, cursor_changed, reconcile,
  status_or_indexing, reorg_window,
}
use aqua_orbital.Indexer.Events.{Library}
use aqua_orbital.Indexer.Deployment.{
  Identity, deployment_scope, deployment_cursor, reconcile_store, store_after, chain_rows,
}
use aqua_orbital.Projections.Blocks.{Scope, RawEvent, Projection, Store}
use aqua_orbital.Indexer.Backfill as Backfill
use aqua_orbital.Indexer.Backfill.{Backfill, is_at, pending_swap_backfill, atomic_swap_backfill}
use aqua_orbital.Indexer.Backfill.Laws.{
  IsBackfilled, IsUntouched-IsIndexed, atomic_swap_backfill-IsBackfilled,
}
use aqua_orbital.Projections.Blocks.Laws.{IsIndexed}
use aqua_orbital.Indexer.Round.{
  MaterializationRpc, Stop, returned, thrown, idle, resync, retry, rewound, rpc_failed,
  rpc_chain_mismatch, scope_error, Round, stopped, indexed, backfilled, committed, backfill_stop,
  finish_backfill, commit_backfill, prepare_backfill, round_with, Fetched, Prepared,
  max_sync_blocks, is_stuck, as_stop, after_outcome, reconciled, last_block, block_count,
  next_height, finish, count_logs, window, follow_window, follow, read_blocks, gather, next_blocks,
  commit_all, commit_round, round_after, read_head, round_from, round_at, sync_scope,
  sync_deployment_once,
}
use aqua_orbital.Indexer.Round.Prefix.{
  IsRange, blocks, prepared_blocks, last_block-number, read_blocks-IsRange, gather-IsGathered,
}
use aqua_orbital.Indexer.Round.Committed.{tip_after, IsKept, commit_all-IsKept}

-- What a round leaves: unless it has rolled the chain back, an index without a gap; and if it has
-- committed blocks, the cursor is at the last one, which is confirmed by two blocks at the head that the
-- provider reported.
abbrev pub IsRound : Scope → MaterializationRpc → Round → Store → Type 0
IsRound scope rpc (stopped (returned (rewound c n))) t = Unit
IsRound scope rpc (stopped (returned idle)) t = IsIndexed scope t
IsRound scope rpc (stopped (returned resync)) t = IsIndexed scope t
IsRound scope rpc (stopped (returned retry)) t = IsIndexed scope t
IsRound scope rpc (stopped (thrown e)) t = IsIndexed scope t
IsRound scope rpc (backfilled number hash logs) t =
    IsIndexed scope t × (any (is_at number) t.unswapped ≡ false)
IsRound scope rpc (indexed number hash logs) t =
    IsIndexed scope t
    × (t.cursor ≡ some (record { height = number; hash = hash }))
    × (head : ℕ) × (rpc.get_block_number 1 ≡ some head)
    × (number + 2 ≤ head)

stopped-IsRound :
    (scope : Scope) (rpc : MaterializationRpc) (e : Stop) (t : Store)
    → IsIndexed scope t
    → IsRound scope rpc (stopped e) t
stopped-IsRound scope rpc (returned idle) t h = h
stopped-IsRound scope rpc (returned resync) t h = h
stopped-IsRound scope rpc (returned retry) t h = h
stopped-IsRound scope rpc (returned (rewound c n)) t h = tt
stopped-IsRound scope rpc (thrown e) t h = h

-- What the first part of a round leaves.
abbrev pub IsFollowed : Scope → MaterializationRpc → Result Stop ℕ × Store → Type 0
IsFollowed scope rpc (err stop, t) = IsRound scope rpc (stopped stop) t
IsFollowed scope rpc (ok clock, t) = IsIndexed scope t

outcome-IsFollowed :
    (scope : Scope) (rpc : MaterializationRpc) (clock : ℕ) (r : Reconciliation) (o : Outcome)
    (s : Store) (db : Db)
    → IsIndexed scope s
    → IsFollowed scope rpc (after_outcome r o >> ok clock, store_after o s db)
outcome-IsFollowed scope rpc clock r unchanged s db h = h
outcome-IsFollowed scope rpc clock r rolled_back s db h = tt
outcome-IsFollowed scope rpc clock r resync_needed s db h = record {
  tip = h.tip;
  counted = h.counted;
}
outcome-IsFollowed scope rpc clock r cursor_changed s db h = h

reconciled-IsFollowed :
    (scope : Scope) (rpc : MaterializationRpc) (clock : ℕ) (s : Store)
    (x : Result Reorg.Error (Reconciliation × Db))
    → IsIndexed scope s
    → IsFollowed scope rpc (reconciled clock s (x >>= λ r. ok (r.0, store_after r.0.status s r.1)))
reconciled-IsFollowed scope rpc clock s (err e) h = h
reconciled-IsFollowed scope rpc clock s (ok (r, db)) h =
    outcome-IsFollowed scope rpc clock r r.status s db h

-- The tip of what is read is the last prepared block, confirmed.
record IsNext (head : ℕ) (r : ℕ × Block × List Prepared) : Type 0 where
  confirmed : r.1.number + 2 ≤ head
  last : tip_after none (prepared_blocks r.2) ≡ some r.1

tip_after-last_block :
    (b : Fetched) (bs : List Fetched)
    → tip_after (some b.block) (blocks bs) ≡ some (last_block b bs)
tip_after-last_block b [] = refl
tip_after-last_block b (c ∷ cs) = tip_after-last_block c cs

counted_tip :
    (next k head max_blocks n number : ℕ)
    → ltb head (next + 2) ≡ false
    → suc n ≡ block_count max_blocks head next
    → number ≡ next + n
    → number + 2 ≤ head
counted_tip next k head max_blocks n number deep count here = ground (arith, deep, count, here)

module _ (lib : Library) (text : Identity → ℕ) (manifest : Manifest) (rpc : MaterializationRpc)
    (meanwhile : ℕ → Store → Store) (scope : Scope) where
  gathered-IsNext :
      (max_blocks head next clock : ℕ) (cursor : Option Cursor) (bs : List Fetched)
      (r : ℕ × Block × List Prepared)
      → ltb head (next + 2) ≡ false
      → IsRange next bs
      → length bs ≡ block_count max_blocks head next
      → gather lib text manifest rpc meanwhile scope cursor next clock bs ≡ ok r
      → IsNext head r
  unfolding gather
  gathered-IsNext max_blocks head next clock cursor [] r deep range count e = cc
  gathered-IsNext max_blocks head next clock cursor (b ∷ bs) r deep range count e =
      let g = gather-IsGathered lib text manifest rpc meanwhile scope cursor next clock b bs r e in
      record {
        confirmed =
            counted_tip next 0 head max_blocks (length bs) r.1.number deep count
              (ap (λ (x : Block). x.number) g.tip ∙ last_block-number next b bs range);
        last =
            ap (tip_after none) g.same
            ∙ tip_after-last_block b bs
            ∙ ap (λ (x : Block). some x) (sym g.tip);
      }

  next_blocks-IsNext :
      (max_blocks head : ℕ) (cursor : Option Cursor) (clock : ℕ) (r : ℕ × Block × List Prepared)
      → next_blocks lib text manifest rpc meanwhile scope max_blocks head cursor clock ≡ ok r
      → IsNext head r
  unfolding next_blocks
  next_blocks-IsNext max_blocks head cursor clock r e =
      let next = next_height scope cursor in
      let (deep, e1) = fail_if->>-eq-ok (ltb head (next + 2)) (returned idle) _ e in
      >>=-elim
        (read_blocks lib text manifest rpc meanwhile clock next (block_count max_blocks head next))
        _ e1
        (λ bs read e2.
          let (range, count) =
            read_blocks-IsRange lib text manifest rpc meanwhile clock next
              (block_count max_blocks head next) bs read in
          gathered-IsNext max_blocks head next bs.0 cursor bs.1 r deep range count e2)

  finish-IsRound :
      (head : ℕ) (tip : Block) (logs : ℕ) (r : Result Stop (Unit {0}) × Store)
      → rpc.get_block_number 1 ≡ some head
      → tip.number + 2 ≤ head
      → IsKept scope (some tip) r
      → IsRound scope rpc (finish tip logs r).0 (finish tip logs r).1
  finish-IsRound head tip logs (err e, s) asked deep h = stopped-IsRound scope rpc e s h
  finish-IsRound head tip logs (ok u, s) asked deep h = (h.0, h.1, head, asked, deep)

  module _ (kept : (n : ℕ) (s : Store) → IsIndexed scope s → IsIndexed scope (meanwhile n s)) where
    commit_round-IsRound :
        (head : ℕ) (x : Result Stop (ℕ × Block × List Prepared)) (s : Store)
        → rpc.get_block_number 1 ≡ some head
        → ((r : ℕ × Block × List Prepared) → x ≡ ok r → IsNext head r)
        → IsIndexed scope s
        → let out = commit_round lib text manifest rpc meanwhile scope x s in
          IsRound scope rpc out.0 out.1
    commit_round-IsRound head (err e) s asked next h = stopped-IsRound scope rpc e s h
    commit_round-IsRound head (ok (clock, tip, ps)) s asked next h =
        let n = next (clock, tip, ps) refl in
        finish-IsRound head tip (count_logs ps)
          (commit_all lib text manifest rpc meanwhile scope clock [] ps s) asked n.confirmed
          (subst
            (λ o. IsKept scope o (commit_all lib text manifest rpc meanwhile scope clock [] ps s))
            n.last
            (commit_all-IsKept lib text manifest rpc meanwhile scope kept clock none [] ps s h tt))

    committed_backfill-IsRound :
        (b : Block) (es : List RawEvent) (logs : ℕ) (s : Store) (r : Result Backfill.Error Store)
        → ((t : Store) → r ≡ ok t → IsBackfilled scope b es s t)
        → IsIndexed scope s
        → let out =
            finish_backfill lib text manifest rpc meanwhile b logs (committed backfill_stop s r) in
          IsRound scope rpc out.0 out.1
    committed_backfill-IsRound b es logs s (err e) k h =
        stopped-IsRound scope rpc (backfill_stop e) s h
    committed_backfill-IsRound b es logs s (ok t) k h =
        let done = k t refl in (IsUntouched-IsIndexed scope s t done.untouched h, done.settled)

    commit_backfill-IsRound :
        (events : List RawEvent) (x : Result Stop (ℕ × Block × List Projection × ℕ)) (s : Store)
        → IsIndexed scope s
        → let out = commit_backfill lib text manifest rpc meanwhile scope events x s in
          IsRound scope rpc out.0 out.1
    commit_backfill-IsRound events (err e) s h = stopped-IsRound scope rpc e s h
    commit_backfill-IsRound events (ok (clock, b, ps, logs)) s h =
        committed_backfill-IsRound b events logs (meanwhile clock s)
          (atomic_swap_backfill scope b events ps (meanwhile clock s))
          (λ t e. atomic_swap_backfill-IsBackfilled scope b events ps (meanwhile clock s) t e)
          (kept clock s h)

    round_with-IsRound :
        (max_blocks head : ℕ) (cursor : Option Cursor) (clock : ℕ) (s : Store) (o : Option Backfill)
        → rpc.get_block_number 1 ≡ some head
        → IsIndexed scope s
        → let out =
            round_with lib text manifest rpc meanwhile scope max_blocks head cursor clock s o in
          IsRound scope rpc out.0 out.1
    round_with-IsRound max_blocks head cursor clock s none asked h =
        commit_round-IsRound head
          (next_blocks lib text manifest rpc meanwhile scope max_blocks head cursor clock) s asked
          (λ r e. next_blocks-IsNext max_blocks head cursor clock r e) h
    round_with-IsRound max_blocks head cursor clock s (some b) asked h =
        commit_backfill-IsRound b.events
          (prepare_backfill lib text manifest rpc meanwhile scope clock b) s h

    round_after-IsRound :
        (max_blocks head : ℕ) (cursor : Option Cursor) (x : Result Stop ℕ × Store)
        → rpc.get_block_number 1 ≡ some head
        → IsFollowed scope rpc x
        → let out = round_after lib text manifest rpc meanwhile scope max_blocks head cursor x in
          IsRound scope rpc out.0 out.1
    round_after-IsRound max_blocks head cursor (err e, s) asked h = h
    round_after-IsRound max_blocks head cursor (ok clock, s) asked h =
        round_with-IsRound max_blocks head cursor clock s (pending_swap_backfill scope s) asked h

    follow_window-IsFollowed :
        (c : Cursor) (x : Result Stop (ℕ × List Block)) (s : Store)
        → IsIndexed scope s
        → IsFollowed scope rpc (follow_window lib text manifest rpc meanwhile c x s)
    unfolding reconcile_store
    follow_window-IsFollowed c (err e) s h = stopped-IsRound scope rpc e s h
    follow_window-IsFollowed c (ok (clock, canonical)) s h =
        reconciled-IsFollowed scope rpc clock (meanwhile clock s)
          (reconcile c canonical (chain_rows (meanwhile clock s))) (kept clock s h)

    follow-IsFollowed :
        (head : ℕ) (chain : Option Cursor) (stored : List Block) (s : Store)
        → IsIndexed scope s
        → IsFollowed scope rpc (follow lib text manifest rpc meanwhile head chain stored s)
    follow-IsFollowed head none stored s h = h
    follow-IsFollowed head (some c) stored s h =
        follow_window-IsFollowed c (window lib text manifest rpc meanwhile head c stored) s h

    round_from-IsRound :
        (max_blocks : ℕ) (chain cursor : Option Cursor) (stored : List Block) (x : Result Stop ℕ)
        (s : Store)
        → ((head : ℕ) → x ≡ ok head → rpc.get_block_number 1 ≡ some head)
        → IsIndexed scope s
        → let out =
            round_from lib text manifest rpc meanwhile scope max_blocks chain cursor stored x s in
          IsRound scope rpc out.0 out.1
    round_from-IsRound max_blocks chain cursor stored (err e) s asked h =
        stopped-IsRound scope rpc e s h
    round_from-IsRound max_blocks chain cursor stored (ok head) s asked h =
        round_after-IsRound max_blocks head cursor
          (follow lib text manifest rpc meanwhile head chain stored s) (asked head refl)
          (follow-IsFollowed head chain stored s h)

    read_head-asked :
        (head : ℕ)
        → read_head lib text manifest rpc meanwhile ≡ ok head
        → rpc.get_block_number 1 ≡ some head
    read_head-asked head e =
        >>=-elim (or_fail (rpc.get_chain_id 0) (thrown rpc_failed)) _ e (λ chain known e1.
          >>=-elim (or_fail (rpc.get_block_number 1) (thrown rpc_failed)) _ e1 (λ n asked e2.
            let (same, e3) =
              fail_if->>-eq-ok (not (chain == manifest.chain_id)) (thrown rpc_chain_mismatch) _
                e2 in
            or_fail-eq-ok _ _ asked ∙ ap (λ (x : ℕ). some x) (ok-injective e3)))

    round_at-IsRound :
        (max_blocks : ℕ) (chain : Option Cursor) (stored : List Block)
        (x : Result Stop (Option Cursor)) (s : Store)
        → IsIndexed scope s
        → let out = round_at lib text manifest rpc meanwhile scope max_blocks chain stored x s in
          IsRound scope rpc out.0 out.1
    round_at-IsRound max_blocks chain stored (err e) s h = stopped-IsRound scope rpc e s h
    round_at-IsRound max_blocks chain stored (ok cursor) s h =
        round_from-IsRound max_blocks chain cursor stored
          (read_head lib text manifest rpc meanwhile) s read_head-asked h

    pub sync_scope-IsRound :
        (max_blocks : ℕ) (s : Store)
        → IsIndexed scope s
        → let out = sync_scope lib text manifest rpc meanwhile scope max_blocks s in
          IsRound scope rpc out.0 out.1
    unfolding sync_scope
    sync_scope-IsRound max_blocks s h = elim (Bool-cases (is_stuck (status_or_indexing s.state))) [
      | inl stuck ↦ rw stuck h
      | inr free ↦ rw free (
          round_at-IsRound max_blocks s.chain (take reorg_window s.blocks)
            (as_stop scope_error (deployment_cursor scope s)) s h)
    ]

-- If the deployment of the manifest has a scope, the coverage of the tables has no gap from its first
-- block to its cursor, and others commit nothing that makes one, then `syncDeploymentOnce`, whatever it
-- reads and whatever stops it, leaves a coverage without a gap, unless it answers that it has rolled the
-- chain back; if it answers that it has backfilled a block's swaps, none of this block are left to
-- backfill; and if it answers that it has indexed up to a block, the cursor is at this block, at least two
-- below the head that the provider has reported.
pub sync_deployment_once-IsRound :
    (lib : Library) (text : Identity → ℕ) (manifest : Manifest) (rpc : MaterializationRpc)
    (meanwhile : ℕ → Store → Store) (scope : Scope) (max_blocks : ℕ) (s : Store)
    → deployment_scope text manifest ≡ ok scope
    → ((n : ℕ) (t : Store) → IsIndexed scope t → IsIndexed scope (meanwhile n t))
    → IsIndexed scope s
    → let out = sync_deployment_once lib text manifest rpc meanwhile max_blocks s in
      IsRound scope rpc out.0 out.1
unfolding sync_deployment_once
sync_deployment_once-IsRound lib text manifest rpc meanwhile scope max_blocks s scoped kept h =
    elim (Bool-cases (ltb max_blocks 1 || ltb max_sync_blocks max_blocks)) [
      | inl bad ↦ rw bad h
      | inr fine ↦
          rw fine (
            rw scoped
              (sync_scope-IsRound lib text manifest rpc meanwhile scope kept max_blocks s h))
    ]
