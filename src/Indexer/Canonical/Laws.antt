-- ===== src/Indexer/Canonical/Laws.antt =====
-- The logs that `canonicalLogs` (apps/indexer/src/materializer.ts) returns.
use mathlib.Core.Path.{subst}
use aqua_orbital.Prelude.{
  ℕ, ◌≡◌, true, not, List, [], ◌∷◌, ltb, All, length, ok, >>=-elim, ok-injective, fail_if->>-eq-ok,
}
use aqua_orbital.Indexer.Canonical.{
  invalid_block_log, block_log_limit, Header, RawLog, is_log, same_log, max_block_logs, insert_log,
  insert_logs, canonical_logs,
}
use aqua_orbital.Indexer.Canonical.Same.{same_log_self}
use aqua_orbital.Indexer.Canonical.Inserted.{
  ||-left, ||-right, IsIncreasing, IsAmong, not-eq-false, insert_log-All, insert_log-IsIncreasing,
  insert_log-keeps, insert_log-IsAmong,
}

-- What `canonicalLogs` returns of its input.
pub record IsCanonical (emitters : List ℕ) (b : Header) (input out : List RawLog) : Type 0 where
  pub increasing : IsIncreasing out
  pub valid : All (λ l. is_log emitters b l ≡ true) out
  pub kept : All (IsAmong out) input
  pub taken : All (λ l. IsAmong input l) out

module _ (emitters : List ℕ) (b : Header) where
  insert_logs-IsIncreasing :
      (ls unique out : List RawLog)
      → insert_logs emitters b ls unique ≡ ok out
      → IsIncreasing unique
      → IsIncreasing out
  unfolding insert_logs
  insert_logs-IsIncreasing [] unique out e h = subst IsIncreasing (ok-injective e) h
  insert_logs-IsIncreasing (l ∷ ls) unique out e h =
      let (good, rest) = fail_if->>-eq-ok (not (is_log emitters b l)) invalid_block_log _ e in
      >>=-elim (insert_log l unique) _ rest (λ next inserted rest2.
        insert_logs-IsIncreasing ls next out rest2
          (insert_log-IsIncreasing l unique next inserted h))

  insert_logs-All :
      (P : RawLog → Type 0) (ls unique out : List RawLog)
      → insert_logs emitters b ls unique ≡ ok out
      → All (λ l. is_log emitters b l ≡ true → P l) ls
      → All P unique
      → All P out
  unfolding insert_logs
  insert_logs-All P [] unique out e p h = subst (All P) (ok-injective e) h
  insert_logs-All P (l ∷ ls) unique out e p h =
      let (good, rest) = fail_if->>-eq-ok (not (is_log emitters b l)) invalid_block_log _ e in
      >>=-elim (insert_log l unique) _ rest (λ next inserted rest2.
        insert_logs-All P ls next out rest2 p.1
          (insert_log-All P l unique next inserted (p.0 (not-eq-false _ good)) h))

  insert_logs-keeps :
      (m : RawLog) (ls unique out : List RawLog)
      → insert_logs emitters b ls unique ≡ ok out
      → IsAmong unique m
      → IsAmong out m
  unfolding insert_logs
  insert_logs-keeps m [] unique out e h = subst (λ ys. IsAmong ys m) (ok-injective e) h
  insert_logs-keeps m (l ∷ ls) unique out e h =
      let (good, rest) = fail_if->>-eq-ok (not (is_log emitters b l)) invalid_block_log _ e in
      >>=-elim (insert_log l unique) _ rest (λ next inserted rest2.
        insert_logs-keeps m ls next out rest2 (insert_log-keeps l m unique next inserted h))

  insert_logs-IsAmong :
      (ls unique out : List RawLog)
      → insert_logs emitters b ls unique ≡ ok out
      → All (IsAmong out) ls
  unfolding insert_logs
  insert_logs-IsAmong [] unique out e = tt
  insert_logs-IsAmong (l ∷ ls) unique out e =
      let (good, rest) = fail_if->>-eq-ok (not (is_log emitters b l)) invalid_block_log _ e in
      >>=-elim (insert_log l unique) _ rest (λ next inserted rest2. (
        insert_logs-keeps l ls next out rest2 (insert_log-IsAmong l unique next inserted),
        insert_logs-IsAmong ls next out rest2,
      ))

All-trivial : (P : RawLog → Type 0) (ls : List RawLog) → ((l : RawLog) → P l) → All P ls
All-trivial P [] h = tt
All-trivial P (l ∷ ls) h = (h l, All-trivial P ls h)

-- Every log is among its own list, and stays so when others are put before.
among_self :
    (input ls : List RawLog) (P : RawLog → Type 0)
    → ((l : RawLog) → IsAmong ls l → IsAmong input l)
    → All (λ l. P l → IsAmong input l) ls
among_self input [] P h = tt
among_self input (l ∷ ls) P h = (
  λ p. h l (||-left (same_log l l) _ (same_log_self l)),
  among_self input ls P (λ m there. h m (||-right (same_log m l) _ there)),
)

-- The logs that `canonicalLogs` returns have strictly increasing indices, each of them passes the tests
-- against the block, and they are the logs of the input: each one of the input is among them, and each of
-- them is among the input.
pub canonical_logs-IsCanonical :
    (emitters : List ℕ) (b : Header) (input out : List RawLog)
    → canonical_logs emitters b input ≡ ok out
    → IsCanonical emitters b input out
unfolding canonical_logs
canonical_logs-IsCanonical emitters b input out e =
    let (small, rest) = fail_if->>-eq-ok (ltb max_block_logs (length input)) block_log_limit _ e in
    record {
      increasing = insert_logs-IsIncreasing emitters b input [] out rest tt;
      valid =
          insert_logs-All emitters b (λ l. is_log emitters b l ≡ true) input [] out rest
            (All-trivial (λ l. is_log emitters b l ≡ true → is_log emitters b l ≡ true) input
              (λ l p. p))
            tt;
      kept = insert_logs-IsAmong emitters b input [] out rest;
      taken =
          insert_logs-All emitters b (IsAmong input) input [] out rest
            (among_self input input (λ l. is_log emitters b l ≡ true) (λ l there. there)) tt;
    }
