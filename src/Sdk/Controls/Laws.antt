-- ===== src/Sdk/Controls/Laws.antt =====
-- What `estimateMaximumSwap` (packages/sdk/src/swap-controls.ts) may accept.
use mathlib.Core.Path.{subst}
use aqua_orbital.Prelude.{
  ℕ, zero, suc, ◌+◌, ◌-◌, ◌*◌, ◌^◌, ◌≤◌, ◌<◌, ◌≡◌, refl, sym, ap, ◌∙◌, leb→le, lt→ltb,
  fail_if-eq-ok, true, false, not, List, [], ◌∷◌, Option, none, some, arith, ltb, leb, ◌==◌,
  if◌then◌else◌, Bool-cases, ok, fail_if, inl, inr, fail_if->>-eq-ok, or_fail, ok-injective,
  >>=-elim,
}
use aqua_orbital.Sdk.Controls.{
  Stage, approval, swap, is_swap, gas_raw, reserve, after_reserve, maximum_swap_input, candidate_at,
  try_candidates, estimate_maximum_swap, balance_too_small, approval_needed, estimate_failed,
  invalid_balance,
}

-- What must be left of the balance: at least 0.05 of the token, and twice the gas.
pub record IsReserve (cost kept : ℕ) : Type 0 where
  pub floor : 50000 ≤ kept
  pub gas : 2 * cost ≤ kept * 1000000000000

-- An input that is estimated as a swap and leaves its own reserve.
pub record IsAffordable (estimate : ℕ → ℕ → Option (Stage × ℕ)) (balance input : ℕ) : Type 0 where
  pub positive : 0 < input
  pub step : ℕ
  pub cost : ℕ
  pub asked : estimate step input ≡ some (swap, cost)
  pub kept : ℕ
  pub leaves : input + kept ≤ balance
  pub is_reserve : IsReserve cost kept

maximum_swap_input_lem :
    (balance cost : ℕ) {o : Option ℕ}
    → maximum_swap_input balance true (some (cost ∷ [])) ≡ ok o
    → o ≡ some (after_reserve balance (cost ∷ []))
unfolding maximum_swap_input
maximum_swap_input_lem balance cost e =
    let (fits, e1) =
      fail_if->>-eq-ok (leb (2 ^ 256) balance) invalid_balance
        (ok (some (after_reserve balance (cost ∷ [])))) e in
    sym (ok-injective e1)

candidate_at_lem :
    (balance cost next : ℕ)
    → candidate_at balance cost ≡ ok next
    → next ≡ after_reserve balance (cost ∷ [])
candidate_at_lem balance cost next e =
    >>=-elim (maximum_swap_input balance true (some (cost ∷ []))) (λ o. or_fail o invalid_balance) e
      (λ o called rest.
        let same = maximum_swap_input_lem balance cost called in
        sym (ok-injective (rw same at rest)))

gas_raw_lem : (cost : ℕ) → cost ≤ gas_raw (cost ∷ []) * 1000000000000
gas_raw_lem cost = omega arith

reserve-IsReserve : (cost : ℕ) → IsReserve cost (reserve (cost ∷ []))
reserve-IsReserve cost = record { floor = ground arith; gas = ground (arith, gas_raw_lem cost) }

-- A candidate that is at most what is left after a reserve.
leb-false : (m n : ℕ) → n < m → leb m n ≡ false
leb-false m n h = ground arith

after_reserve_lem :
    (balance candidate : ℕ) (costs : List ℕ)
    → 0 < candidate
    → candidate ≤ after_reserve balance costs
    → candidate + reserve costs ≤ balance
after_reserve_lem balance candidate costs pos le = leaves (reserve costs) balance candidate pos le
  where
    leaves : (r b c : ℕ) → 0 < c → c ≤ (if ltb r b then b - r else 0) → c + r ≤ b
    leaves r b c pos le = ground arith

candidate_at_fits :
    (balance cost : ℕ)
    → balance < 2 ^ 256
    → reserve (cost ∷ []) < balance
    → candidate_at balance cost ≡ ok (balance - reserve (cost ∷ []))
unfolding maximum_swap_input
candidate_at_fits balance cost fits enough =
    rw (leb-false (2 ^ 256) balance fits, lt→ltb (reserve (cost ∷ [])) balance enough)

sub_positive : (m n : ℕ) → n < m → (m - n == 0) ≡ false
sub_positive m n h = ground arith

leb_refl : (n : ℕ) → leb n n ≡ true
leb_refl n = ground arith

le_antisymm : {m n : ℕ} → m ≤ n → n ≤ m → m ≡ n
le_antisymm h k = omega arith

positive_of : (n : ℕ) → (n == 0) ≡ false → 0 < n
positive_of n e = ground arith

is_swap_lem : (x : Stage) → not (is_swap x) ≡ false → x ≡ swap
is_swap_lem approval e = cc
is_swap_lem swap e = refl

or_fail-eq-ok : {A : Type 0} (o : Option A) {a : A} → or_fail o estimate_failed ≡ ok a → o ≡ some a
or_fail-eq-ok none e = cc
or_fail-eq-ok (some x) e = ap some (ok-injective e)

module _ (estimate : ℕ → ℕ → Option (Stage × ℕ)) (balance : ℕ) where
  accepted :
      (left candidate next : ℕ) (stage : Stage) (cost : ℕ)
      → 0 < candidate
      → estimate left candidate ≡ some (stage, cost)
      → stage ≡ swap
      → leb candidate next ≡ true
      → candidate_at balance cost ≡ ok next
      → IsAffordable estimate balance candidate
  accepted left candidate next stage cost pos asked is fits priced = record {
    positive = pos;
    step = left;
    cost = cost;
    asked = asked ∙ ap (λ (x : Stage). some (x, cost)) is;
    kept = reserve (cost ∷ []);
    leaves =
        after_reserve_lem balance candidate (cost ∷ []) pos
          (rw (candidate_at_lem balance cost next priced) at (leb→le _ _ fits));
    is_reserve = reserve-IsReserve cost;
  }

  try_candidates-IsAffordable :
      (left candidate input : ℕ)
      → try_candidates estimate balance left candidate ≡ ok input
      → IsAffordable estimate balance input
  unfolding try_candidates
  try_candidates-IsAffordable zero candidate input e = cc
  try_candidates-IsAffordable (suc left) candidate input e =
      >>=-elim (fail_if (candidate == 0) balance_too_small) _ e (λ u positive e1.
        >>=-elim (or_fail (estimate left candidate) estimate_failed) _ e1 (λ q asked e2.
          >>=-elim (fail_if (not (is_swap q.0)) approval_needed) _ e2 (λ w swapping e3.
            >>=-elim (candidate_at balance q.1) _ e3 (λ next priced e4.
              elim (Bool-cases (leb candidate next)) [
                | inr larger ↦ try_candidates-IsAffordable left next input (rw larger at e4)
                | inl fits ↦ subst (IsAffordable estimate balance) (ok-injective (rw fits at e4)) (
                    accepted left candidate next q.0 q.1
                      (positive_of candidate (fail_if-eq-ok _ _ positive))
                      (or_fail-eq-ok (estimate left candidate) asked)
                      (is_swap_lem q.0 (fail_if-eq-ok _ _ swapping)) fits priced)
              ]))))

  -- An input that `estimateMaximumSwap` accepts is positive, and was itself estimated as a swap (with no
  -- approval before it) at a cost that the rest of the balance covers: what is left is at least 0.05 of
  -- the token, and at least twice that cost.
  pub estimate_maximum_swap-IsAffordable :
      (input : ℕ)
      → estimate_maximum_swap estimate balance ≡ ok input
      → IsAffordable estimate balance input
  unfolding estimate_maximum_swap
  estimate_maximum_swap-IsAffordable input e =
      >>=-elim (candidate_at balance 0) _ e
        (λ first priced rest. try_candidates-IsAffordable 3 first input rest)

  module _ (cost : ℕ) (steady : (k a : ℕ) → estimate k a ≡ some (swap, cost))
      (fits : balance < 2 ^ 256) (enough : reserve (cost ∷ []) < balance) where
    steady_step :
        (left candidate : ℕ)
        → (candidate == 0) ≡ false
        → try_candidates estimate balance (suc left) candidate ≡ (
            if leb candidate (balance - reserve (cost ∷ []))
            then ok candidate
            else try_candidates estimate balance left (balance - reserve (cost ∷ [])))
    unfolding try_candidates
    steady_step left candidate pos = rw (pos, steady, candidate_at_fits balance cost fits enough)

    steady_tries :
        (first : ℕ)
        → (first == 0) ≡ false
        → balance - reserve (cost ∷ []) ≤ first
        → try_candidates estimate balance 3 first ≡ ok (balance - reserve (cost ∷ []))
    steady_tries first pos le = elim (Bool-cases (leb first (balance - reserve (cost ∷ [])))) [
      | inl last ↦ rw (steady_step 2 first pos, last) (ap ok (le_antisymm (leb→le _ _ last) le))
      | inr larger ↦ rw (
        steady_step 2 first pos,
        larger,
        steady_step 1 (balance - reserve (cost ∷ []))
            (sub_positive balance (reserve (cost ∷ [])) enough),
        leb_refl (balance - reserve (cost ∷ [])),
      )
    ]

    -- If every input is estimated as a swap at the same cost, and the balance (a 256-bit word) is larger than
    -- its reserve, then the input accepted is exactly the balance less the reserve.
    pub estimate_maximum_swap_steady :
        estimate_maximum_swap estimate balance ≡ ok (balance - reserve (cost ∷ []))
    unfolding estimate_maximum_swap
    estimate_maximum_swap_steady =
        let r = reserve-IsReserve cost in
        rw (candidate_at_fits balance 0 fits (omega (arith, r.floor))) (
          steady_tries (balance - 50000) (sub_positive balance 50000 (omega (arith, r.floor)))
            (omega (arith, r.floor)))
