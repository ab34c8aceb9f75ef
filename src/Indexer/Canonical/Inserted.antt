-- ===== src/Indexer/Canonical/Inserted.antt =====
-- One log is put among those that `canonicalLogs` (apps/indexer/src/materializer.ts) has taken.
use mathlib.Core.Path.{subst}
use aqua_orbital.Prelude.{
  ◌<◌, ◌≡◌, refl, Bool, true, false, ◌||◌, not, List, [], ◌∷◌, ltb, ltb→lt, ◌==◌, ◌⊎◌, any, All,
  arith, Bool-cases, inl, inr, ok, >>=-elim, ok-injective, fail_if->>-eq-ok,
}
use aqua_orbital.Indexer.Canonical.{conflicting_block_log, RawLog, same_log, insert_log}
use aqua_orbital.Indexer.Canonical.Same.{same_log_self, same_log-sym}

abbrev pub IsIncreasing : List RawLog → Type 0
IsIncreasing [] = Unit
IsIncreasing (x ∷ xs) = All (λ (y : RawLog). x.log_index < y.log_index) xs × IsIncreasing xs

-- A log is among others.
abbrev pub IsAmong : List RawLog → RawLog → Type 0
IsAmong xs l = any (same_log l) xs ≡ true

pub not-eq-false : (b : Bool) → not b ≡ false → b ≡ true
not-eq-false true e = refl
not-eq-false false e = cc

-- The three cases of an insertion.
insert_log-cases {κ} :
    (l x : RawLog) (xs out : List RawLog) {P : Type κ}
    → insert_log l (x ∷ xs) ≡ ok out
    → (l.log_index < x.log_index → l ∷ x ∷ xs ≡ out → P)
    → (same_log x l ≡ true → x ∷ xs ≡ out → P)
    → ((rest : List RawLog)
        → x.log_index < l.log_index
        → insert_log l xs ≡ ok rest
        → x ∷ rest ≡ out
        → P)
    → P
unfolding insert_log
insert_log-cases l x xs out e below here above = elim (Bool-cases (ltb l.log_index x.log_index)) [
  | inl lower ↦ below (ltb→lt _ _ lower) (ok-injective (rw lower at e))
  | inr not_lower ↦ elim (Bool-cases (l.log_index == x.log_index)) [
    | inl equal ↦
        let (agrees, done) =
          fail_if->>-eq-ok (not (same_log x l)) conflicting_block_log _
            (rw equal at (rw not_lower at e)) in
        here (not-eq-false _ agrees) (ok-injective done)
    | inr other ↦
        >>=-elim (insert_log l xs) _ (rw other at (rw not_lower at e))
          (λ rest inserted done. above rest (ground arith) inserted (ok-injective done))
  ]
]

insert_log-nil : (l : RawLog) (out : List RawLog) → insert_log l [] ≡ ok out → l ∷ [] ≡ out
unfolding insert_log
insert_log-nil l out e = ok-injective e

pub insert_log-All :
    (P : RawLog → Type 0) (l : RawLog) (xs out : List RawLog)
    → insert_log l xs ≡ ok out
    → P l
    → All P xs
    → All P out
insert_log-All P l [] out e p ps = subst (All P) (insert_log-nil l out e) (p, tt)
insert_log-All P l (x ∷ xs) out e p ps =
    insert_log-cases l x xs out e (λ lower same_list. subst (All P) same_list (p, ps))
      (λ agrees same_list. subst (All P) same_list ps)
      (λ rest higher inserted same_list.
        subst (All P) same_list (ps.0, insert_log-All P l xs rest inserted p ps.1))

All-above :
    (a b : RawLog) (xs : List RawLog)
    → a.log_index < b.log_index
    → All (λ (y : RawLog). b.log_index < y.log_index) xs
    → All (λ (y : RawLog). a.log_index < y.log_index) xs
All-above a b [] lower h = tt
All-above a b (x ∷ xs) lower h =
    let first = h.0 in (omega (arith, first), All-above a b xs lower h.1)

pub insert_log-IsIncreasing :
    (l : RawLog) (xs out : List RawLog)
    → insert_log l xs ≡ ok out
    → IsIncreasing xs
    → IsIncreasing out
insert_log-IsIncreasing l [] out e h = subst IsIncreasing (insert_log-nil l out e) (tt, tt)
insert_log-IsIncreasing l (x ∷ xs) out e h =
    insert_log-cases l x xs out e
      (λ lower same_list. subst IsIncreasing same_list ((lower, All-above l x xs lower h.0), h))
      (λ agrees same_list. subst IsIncreasing same_list h)
      (λ rest higher inserted same_list. subst IsIncreasing same_list (
        insert_log-All (λ (y : RawLog). x.log_index < y.log_index) l xs rest inserted higher h.0,
        insert_log-IsIncreasing l xs rest inserted h.1,
      ))

pub ||-right : (a b : Bool) → b ≡ true → (a || b) ≡ true
||-right a b h = ground arith

pub ||-left : (a b : Bool) → a ≡ true → (a || b) ≡ true
||-left a b h = ground arith

||-cases : (a b : Bool) → (a || b) ≡ true → (a ≡ true) ⊎ (b ≡ true)
||-cases true b h = inl refl
||-cases false b h = inr h

-- A log that is taken before stays among those taken.
pub insert_log-keeps :
    (l m : RawLog) (xs out : List RawLog) → insert_log l xs ≡ ok out → IsAmong xs m → IsAmong out m
insert_log-keeps l m [] out e h = cc
insert_log-keeps l m (x ∷ xs) out e h =
    insert_log-cases l x xs out e
      (λ lower same_list. subst (λ ys. IsAmong ys m) same_list (||-right (same_log m l) _ h))
      (λ agrees same_list. subst (λ ys. IsAmong ys m) same_list h)
      (λ rest higher inserted same_list.
        subst (λ ys. IsAmong ys m) same_list
          (elim (||-cases (same_log m x) (any (same_log m) xs) h) [
            | inl here ↦ ||-left (same_log m x) _ here
            | inr there ↦ ||-right (same_log m x) _ (insert_log-keeps l m xs rest inserted there)
          ]))

pub insert_log-IsAmong :
    (l : RawLog) (xs out : List RawLog) → insert_log l xs ≡ ok out → IsAmong out l
insert_log-IsAmong l [] out e =
    subst (λ ys. IsAmong ys l) (insert_log-nil l out e) (||-left (same_log l l) _ (same_log_self l))
insert_log-IsAmong l (x ∷ xs) out e =
    insert_log-cases l x xs out e
      (λ lower same_list.
        subst (λ ys. IsAmong ys l) same_list (||-left (same_log l l) _ (same_log_self l)))
      (λ agrees same_list.
        subst (λ ys. IsAmong ys l) same_list (||-left (same_log l x) _ (same_log-sym x l agrees)))
      (λ rest higher inserted same_list.
        subst (λ ys. IsAmong ys l) same_list
          (||-right (same_log l x) _ (insert_log-IsAmong l xs rest inserted)))
