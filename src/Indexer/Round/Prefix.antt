-- ===== src/Indexer/Round/Prefix.antt =====
-- What a round of `syncDeploymentOnce` (apps/indexer/src/materializer.ts) reads before its first commit.
use mathlib.Core.Path.{subst}
use aqua_orbital.Prelude.{
  ℕ, zero, suc, ◌+◌, ◌*◌, ◌≡◌, refl, sym, ap, ◌∙◌, not, ◌||◌, List, [], ◌∷◌, Option, Option-cases,
  inl, inr, ltb, ◌==◌, length, map, any, arith, ok, err, Result, >>=-elim, ok-injective,
  fail_if->>-eq-ok, or_fail,
}
use aqua_orbital.Shared.{Manifest}
use aqua_orbital.Chain.Table.{Block, Cursor}
use aqua_orbital.Indexer.Canonical.{
  Header, RawLog, is_hash, checked_block, canonical_logs, max_block_logs, invalid_block_header,
}
use aqua_orbital.Prelude.{all}
use aqua_orbital.Indexer.Events.{Library, prepare_projections}
use aqua_orbital.Indexer.Deployment.{Identity}
use aqua_orbital.Projections.Blocks.{Scope, Store}
use aqua_orbital.Indexer.Round.{
  MaterializationRpc, Error, returned, thrown, retry, rpc_failed, block_error, event_error,
  invalid_block_log, block_log_limit, Fetched, Prepared, as_stop, hash_of, is_linked, last_block,
  emitters, is_outside, bucket, fetch, read_blocks, read_each, read_range, read_logs, prepare,
  gather,
}

-- The blocks have the heights from a first one on.
abbrev pub IsRange : ℕ → List Fetched → Type 0
IsRange n [] = Unit
IsRange n (b ∷ bs) = (b.block.number ≡ n) × IsRange (n + 1) bs

abbrev pub blocks : List Fetched → List Block
blocks bs = map (λ (b : Fetched). b.block) bs

abbrev pub blocks_of : List (Fetched × List RawLog) → List Block
blocks_of [] = []
blocks_of ((b, logs) ∷ rest) = b.block ∷ blocks_of rest

abbrev pub prepared_blocks : List Prepared → List Block
prepared_blocks ps = map (λ (p : Prepared). p.block) ps

pub last_block-number :
    (n : ℕ) (b : Fetched) (bs : List Fetched)
    → IsRange n (b ∷ bs)
    → (last_block b bs).number ≡ n + length bs
last_block-number n b [] h = h.0 ∙ omega arith
last_block-number n b (c ∷ cs) h = let r = last_block-number (n + 1) c cs h.1 in omega (arith, r)

as_stop-ok {ℓ κ} :
    {E : Type ℓ} {A : Type κ} (f : E → Error) (r : Result E A) {a : A}
    → as_stop f r ≡ ok a
    → r ≡ ok a
as_stop-ok f (ok a) e = ap ok (ok-injective e)
as_stop-ok f (err x) e = cc

checked_block-number : (n : ℕ) (h h' : Header) → checked_block n h ≡ ok h' → h'.number ≡ n
unfolding checked_block
checked_block-number n h h' e =
    let (good, e1) =
      fail_if->>-eq-ok
        (not (h.number == n)
          || not (is_hash h.hash)
          || not (is_hash h.parent_hash)
          || not (all is_hash h.transactions))
        invalid_block_header _ e in
    subst (λ (x : Header). x.number ≡ n) (ok-injective e1) (ground (arith, good))

module _ (lib : Library) (text : Identity → ℕ) (manifest : Manifest) (rpc : MaterializationRpc)
    (meanwhile : ℕ → Store → Store) where
  fetch-number :
      (clock n : ℕ) (f : Fetched)
      → fetch lib text manifest rpc meanwhile clock n ≡ ok f
      → f.block.number ≡ n
  fetch-number clock n f e =
      >>=-elim (or_fail (rpc.get_block clock n) (thrown rpc_failed)) _ e (λ h found e1.
        >>=-elim (as_stop block_error (checked_block n h)) _ e1 (λ h' good e2.
          subst (λ (x : Fetched). x.block.number ≡ n) (ok-injective e2)
            (checked_block-number n h h' (as_stop-ok block_error (checked_block n h) good))))

  pub read_blocks-IsRange :
      (clock n k : ℕ) (r : ℕ × List Fetched)
      → read_blocks lib text manifest rpc meanwhile clock n k ≡ ok r
      → IsRange n r.1 × (length r.1 ≡ k)
  unfolding read_blocks
  read_blocks-IsRange clock n zero r e =
      subst (λ (x : ℕ × List Fetched). IsRange n x.1 × (length x.1 ≡ 0)) (ok-injective e) (tt, refl)
  read_blocks-IsRange clock n (suc k) r e =
      >>=-elim (fetch lib text manifest rpc meanwhile clock n) _ e (λ b found e1.
        >>=-elim (read_blocks lib text manifest rpc meanwhile (clock + 1) (n + 1) k) _ e1
          (λ rest more e2.
            let (range, count) = read_blocks-IsRange (clock + 1) (n + 1) k rest more in
            subst (λ (x : ℕ × List Fetched). IsRange n x.1 × (length x.1 ≡ suc k)) (ok-injective e2)
              ((fetch-number clock n b found, range), ap suc count)))

  bucket-blocks :
      (scope : Scope) (range : List RawLog) (bs : List Fetched) (out : List (Fetched × List RawLog))
      → bucket scope range bs ≡ ok out
      → blocks_of out ≡ blocks bs
  unfolding bucket
  bucket-blocks scope range [] out e = sym (ap blocks_of (ok-injective e))
  bucket-blocks scope range (b ∷ bs) out e =
      >>=-elim (as_stop block_error (canonical_logs (emitters scope) b.header _)) _ e
        (λ logs good e1. >>=-elim (bucket scope range bs) _ e1 (λ rest more e2.
          sym (ap blocks_of (ok-injective e2))
          ∙ ap (λ xs. b.block ∷ xs) (bucket-blocks scope range bs rest more)))

  read_each-blocks :
      (scope : Scope) (clock : ℕ) (bs : List Fetched) (out : ℕ × List (Fetched × List RawLog))
      → read_each lib text manifest rpc meanwhile scope clock bs ≡ ok out
      → blocks_of out.1 ≡ blocks bs
  unfolding read_each
  read_each-blocks scope clock [] out e =
      sym (ap (λ (x : ℕ × List (Fetched × List RawLog)). blocks_of x.1) (ok-injective e))
  read_each-blocks scope clock (b ∷ bs) out e =
      >>=-elim (or_fail (rpc.get_logs clock b.block.number b.block.hash) (thrown rpc_failed)) _ e
        (λ raw asked e1.
          >>=-elim (as_stop block_error (canonical_logs (emitters scope) b.header raw)) _ e1
            (λ logs good e2.
              >>=-elim (read_each lib text manifest rpc meanwhile scope (clock + 1) bs) _ e2
                (λ rest more e3.
                  sym
                    (ap (λ (x : ℕ × List (Fetched × List RawLog)). blocks_of x.1) (ok-injective e3))
                  ∙ ap (λ xs. b.block ∷ xs) (read_each-blocks scope (clock + 1) bs rest more))))

  read_range-blocks :
      (scope : Scope) (clock : ℕ) (ask : ℕ → ℕ → ℕ → Option (List RawLog)) (from to : ℕ)
      (bs : List Fetched) (out : ℕ × List (Fetched × List RawLog))
      → read_range lib text manifest rpc meanwhile scope clock ask from to bs ≡ ok out
      → blocks_of out.1 ≡ blocks bs
  read_range-blocks scope clock ask from to bs out e =
      >>=-elim (or_fail (ask clock from to) (thrown rpc_failed)) _ e (λ range asked e1.
        let (few, e2) =
          fail_if->>-eq-ok (ltb (length bs * max_block_logs) (length range))
            (thrown block_log_limit) _ e1 in
        let (inside, e3) =
          fail_if->>-eq-ok (any (is_outside from to) range) (thrown invalid_block_log) _ e2 in
        >>=-elim (bucket scope range bs) _ e3 (λ logs sorted e4.
          sym (ap (λ (x : ℕ × List (Fetched × List RawLog)). blocks_of x.1) (ok-injective e4))
          ∙ bucket-blocks scope range bs logs sorted))

  read_logs-blocks :
      (scope : Scope) (clock from to : ℕ) (bs : List Fetched)
      (out : ℕ × List (Fetched × List RawLog))
      → read_logs lib text manifest rpc meanwhile scope clock from to bs ≡ ok out
      → blocks_of out.1 ≡ blocks bs
  unfolding read_logs read_each
  read_logs-blocks scope clock from to bs out e = elim (Option-cases rpc.get_logs_range) [
    | inl single ↦ read_each-blocks scope clock bs out (rw single at e)
    | inr (ask, ranged) ↦ read_range-blocks scope clock ask from to bs out (rw ranged at e)
  ]

  prepare-blocks :
      (scope : Scope) (clock : ℕ) (ls : List (Fetched × List RawLog)) (out : ℕ × List Prepared)
      → prepare lib text manifest rpc meanwhile scope clock ls ≡ ok out
      → prepared_blocks out.1 ≡ blocks_of ls
  unfolding prepare
  prepare-blocks scope clock [] out e =
      sym (ap (λ (x : ℕ × List Prepared). prepared_blocks x.1) (ok-injective e))
  prepare-blocks scope clock ((b, logs) ∷ rest) out e =
      >>=-elim (as_stop event_error (prepare_projections lib scope manifest _ clock logs)) _ e
        (λ ps made e1.
          >>=-elim (prepare lib text manifest rpc meanwhile scope ps.0 rest) _ e1 (λ more done e2.
            sym (ap (λ (x : ℕ × List Prepared). prepared_blocks x.1) (ok-injective e2))
            ∙ ap (λ xs. b.block ∷ xs) (prepare-blocks scope ps.0 rest more done)))

  -- What is gathered is of the blocks that were read, and the tip is the last of them.
  pub record IsGathered (b : Fetched) (bs : List Fetched) (r : ℕ × Block × List Prepared)
      : Type 0 where
    pub tip : r.1 ≡ last_block b bs
    pub same : prepared_blocks r.2 ≡ blocks (b ∷ bs)

  pub gather-IsGathered :
      (scope : Scope) (cursor : Option Cursor) (next clock : ℕ) (b : Fetched) (bs : List Fetched)
      (r : ℕ × Block × List Prepared)
      → gather lib text manifest rpc meanwhile scope cursor next clock (b ∷ bs) ≡ ok r
      → IsGathered b bs r
  unfolding gather
  gather-IsGathered scope cursor next clock b bs r e =
      let (linked, e1) =
        fail_if->>-eq-ok (not (is_linked (hash_of cursor) (b ∷ bs))) (returned retry) _ e in
      >>=-elim
        (read_logs lib text manifest rpc meanwhile scope clock next (last_block b bs).number
          (b ∷ bs))
        _ e1
        (λ logs read e2.
          >>=-elim (prepare lib text manifest rpc meanwhile scope logs.0 logs.1) _ e2
            (λ prepared made e3.
              >>=-elim (fetch lib text manifest rpc meanwhile prepared.0 (last_block b bs).number) _
                e3
                (λ again found e4.
                  let (still, e5) =
                    fail_if->>-eq-ok (not (again.block.hash == (last_block b bs).hash))
                      (returned retry) _ e4 in
                  subst (IsGathered b bs) (ok-injective e5) (record {
                    tip = refl;
                    same =
                        prepare-blocks scope logs.0 logs.1 prepared made
                        ∙ read_logs-blocks scope clock next (last_block b bs).number (b ∷ bs) logs
                            read;
                  }))))
