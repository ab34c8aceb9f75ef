-- ===== src/Indexer/Canonical/Same.antt =====
-- The comparison of two logs (apps/indexer/src/materializer.ts, `canonicalLogs`) is reflexive and
-- symmetric.
use aqua_orbital.Prelude.{
  ℕ, ◌≡◌, refl, sym, Bool, true, false, List, [], ◌∷◌, Option, none, some, ◌==◌, ==_iff, &&-eq-true,
  arith,
}
use aqua_orbital.Indexer.Canonical.{RawLog, same_option, same_topics, same_flag, same_log}

same_option_self : (a : Option ℕ) → same_option a a ≡ true
same_option_self none = refl
same_option_self (some a) = (==_iff a a).1 refl

same_option-sym : (a b : Option ℕ) → same_option a b ≡ true → same_option b a ≡ true
same_option-sym none none h = refl
same_option-sym none (some b) h = cc
same_option-sym (some a) none h = cc
same_option-sym (some a) (some b) h = (==_iff b a).1 (sym ((==_iff a b).0 h))

same_topics_self : (ts : List (Option ℕ)) → same_topics ts ts ≡ true
same_topics_self [] = refl
same_topics_self (t ∷ ts) = rw (same_option_self t) (same_topics_self ts)

same_topics-sym : (ts us : List (Option ℕ)) → same_topics ts us ≡ true → same_topics us ts ≡ true
same_topics-sym [] [] h = refl
same_topics-sym [] (u ∷ us) h = cc
same_topics-sym (t ∷ ts) [] h = cc
same_topics-sym (t ∷ ts) (u ∷ us) h =
    let (first, rest) = &&-eq-true (same_option t u) (same_topics ts us) h in
    rw (same_option-sym t u first) (same_topics-sym ts us rest)

same_flag_self : (b : Bool) → same_flag b b ≡ true
same_flag_self true = refl
same_flag_self false = refl

same_flag-sym : (a b : Bool) → same_flag a b ≡ true → same_flag b a ≡ true
same_flag-sym a b h = ground arith

==_self : (n : ℕ) → (n == n) ≡ true
==_self n = (==_iff n n).1 refl

==-sym : (a b : ℕ) → (a == b) ≡ true → (b == a) ≡ true
==-sym a b h = (==_iff b a).1 (sym ((==_iff a b).0 h))

pub same_log_self : (l : RawLog) → same_log l l ≡ true
same_log_self l = rw (==_self l.block_number) (
    rw (same_option_self l.block_hash) (
      rw (same_option_self l.transaction_hash) (
        rw (same_option_self l.transaction_index) (
          rw (==_self l.log_index) (
            rw (==_self l.address) (
              rw (same_topics_self l.topics) (
                rw (same_option_self l.byte_count)
                  (rw (==_self l.bytes) (same_flag_self l.removed)))))))))

pub same_log-sym : (a b : RawLog) → same_log a b ≡ true → same_log b a ≡ true
same_log-sym a b h =
    let (h, h10) = &&-eq-true _ (same_flag a.removed b.removed) h in
    let (h, h9) = &&-eq-true _ (a.bytes == b.bytes) h in
    let (h, h8) = &&-eq-true _ (same_option a.byte_count b.byte_count) h in
    let (h, h7) = &&-eq-true _ (same_topics a.topics b.topics) h in
    let (h, h6) = &&-eq-true _ (a.address == b.address) h in
    let (h, h5) = &&-eq-true _ (a.log_index == b.log_index) h in
    let (h, h4) = &&-eq-true _ (same_option a.transaction_index b.transaction_index) h in
    let (h, h3) = &&-eq-true _ (same_option a.transaction_hash b.transaction_hash) h in
    let (h1, h2) =
      &&-eq-true (a.block_number == b.block_number) (same_option a.block_hash b.block_hash) h in
    rw (==-sym _ _ h1) (
      rw (same_option-sym _ _ h2) (
        rw (same_option-sym _ _ h3) (
          rw (same_option-sym _ _ h4) (
            rw (==-sym _ _ h5) (
              rw (==-sym _ _ h6) (
                rw (same_topics-sym a.topics b.topics h7) (
                  rw (same_option-sym _ _ h8)
                    (rw (==-sym _ _ h9) (same_flag-sym a.removed b.removed h10)))))))))
