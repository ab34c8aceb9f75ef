-- ===== src/Deploy/Arc/Status/Funded.antt =====
-- The next transaction of an Arc deployment (scripts/lib/arc-deployment.mjs, `getArcStatus`).
use mathlib.Core.Path.{subst}
use aqua_orbital.Prelude.{
  ℕ, ◌+◌, ◌*◌, ◌≤◌, ◌≡◌, refl, false, not, Option, some, ltb, ◌==◌, ==_iff, length, arith, ok,
  or_fail, >>=-elim, or_fail-eq-ok, ok-injective, fail_if->>-eq-ok,
}
use aqua_orbital.Projections.Strategies.Lives.{not-eq-false}
use aqua_orbital.Deploy.Arc.{
  rpc_failed, other_step, base_fee_exceeds, insufficient_balance, gas_exceeds, Step,
  ReviewedTransaction, Review, Plan, State, number, check_simulated, validate_review,
}
use aqua_orbital.Deploy.Arc.Reviews.{IsReviewed, validate_review-IsReviewed}
use aqua_orbital.Deploy.Arc.Status.{
  Latest, Network, Observation, saved_review, transaction_for, with_margin, new_review,
}

-- A reviewed transaction of a step that its budget is there for.
pub record IsFunded (plan : Plan) (step : Step) (place balance : ℕ) (tx : ReviewedTransaction)
    (spent : ℕ) (r : Option Review) : Type 0 where
  pub reviewed : IsReviewed plan step tx
  pub budget :
      (gas : ℕ) × (max_fee : ℕ) × (tx.gas ≡ some gas)
      × (tx.max_fee ≡ some max_fee)
      × (spent ≡ gas * max_fee)
  pub affordable : spent ≤ balance
  pub kept :
      (review : Review) × (r ≡ some review) × (review.step ≡ place) × (review.transaction ≡ some tx)

margin_positive : (n : ℕ) → 1 ≤ with_margin n
margin_positive n = omega arith

not_below : (a b : ℕ) → ltb a b ≡ false → b ≤ a
not_below a b h = ground (arith, h)

module _ (plan : Plan) (step : Step) where
  pub saved_review-IsFunded :
      (state : State) (seen : Observation) (block : Latest) (review : Review)
      (r : ReviewedTransaction × ℕ)
      → saved_review plan step state seen block review ≡ ok r
      → IsFunded plan step (length state.confirmed) seen.balance r.0 r.1 (some review)
  unfolding saved_review
  saved_review-IsFunded state seen block review r e =
      let (here, e1) =
        fail_if->>-eq-ok (not (review.step == length state.confirmed)) other_step _ e in
      >>=-elim (validate_review plan step (some review)) _ e1 (λ tx valid e2.
        let (found, good) = validate_review-IsReviewed plan step (some review) tx valid in
        >>=-elim (number tx.gas) _ e2 (λ gas g e3.
          >>=-elim (number tx.max_fee) _ e3 (λ max_fee f e4.
            >>=-elim (number block.base_fee) _ e4 (λ base b e5.
              let (low, e6) = fail_if->>-eq-ok (ltb max_fee base) base_fee_exceeds _ e5 in
              let (rich, e7) =
                fail_if->>-eq-ok (ltb seen.balance (gas * max_fee)) insufficient_balance _ e6 in
              subst
                (λ (x : ReviewedTransaction × ℕ).
                  IsFunded plan step (length state.confirmed) seen.balance x.0 x.1 (some review))
                (ok-injective e7)
                (record {
                  reviewed = good;
                  budget = (gas, max_fee, or_fail-eq-ok _ _ g, or_fail-eq-ok _ _ f, refl);
                  affordable = not_below seen.balance (gas * max_fee) rich;
                  kept = (
                    review,
                    refl,
                    (==_iff review.step (length state.confirmed)).0 (not-eq-false _ here),
                    found,
                  );
                })))))

  transaction_for-IsReviewed :
      (gas max_fee priority : ℕ)
      → 1 ≤ gas
      → gas ≤ plan.gas_limit_cap
      → IsReviewed plan step (transaction_for plan step gas max_fee priority)
  transaction_for-IsReviewed gas max_fee priority some_gas capped = record {
    from = refl;
    to = refl;
    input = refl;
    nonce = refl;
    value = refl;
    chain_id = refl;
    gas = (gas, refl, some_gas, capped);
  }

  pub new_review-IsFunded :
      (net : Network) (clock : ℕ) (state : State) (seen : Observation) (block : Latest)
      (r : ReviewedTransaction × ℕ × Review)
      → new_review net clock plan step state seen block ≡ ok r
      → IsFunded plan step (length state.confirmed) seen.balance r.0 r.1 (some r.2)
  unfolding new_review
  new_review-IsFunded net clock state seen block r e =
      >>=-elim (or_fail (net.priority clock) rpc_failed) _ e (λ asked a e1.
        >>=-elim (number asked) _ e1 (λ priority p e2.
          >>=-elim (number block.base_fee) _ e2 (λ base b e3.
            let max_fee = base * 2 + priority in
            >>=-elim
              (or_fail
                (net.estimate clock (transaction_for plan step plan.gas_limit_cap max_fee priority))
                rpc_failed)
              _ e3
              (λ found f e4. >>=-elim (number found) _ e4 (λ estimated n e5.
                let (capped, e6) =
                  fail_if->>-eq-ok (ltb plan.gas_limit_cap (with_margin estimated)) gas_exceeds _
                    e5 in
                >>=-elim (number block.gas_limit) _ e6 (λ limit l e7.
                  let (fits, e8) =
                    fail_if->>-eq-ok (ltb limit (with_margin estimated)) gas_exceeds _ e7 in
                  let (rich, e9) =
                    fail_if->>-eq-ok (ltb seen.balance (with_margin estimated * max_fee))
                      insufficient_balance _ e8 in
                  >>=-elim
                    (or_fail
                      (net.simulate clock
                        (transaction_for plan step (with_margin estimated) max_fee priority))
                      rpc_failed)
                    _ e9
                    (λ simulated s e10.
                      >>=-elim (check_simulated step step.address simulated) _ e10 (λ u good e11.
                        subst
                          (λ (x : ReviewedTransaction × ℕ × Review).
                            IsFunded plan step (length state.confirmed) seen.balance x.0 x.1
                              (some x.2))
                          (ok-injective e11)
                          (record {
                            reviewed =
                                transaction_for-IsReviewed (with_margin estimated) max_fee priority
                                  (margin_positive estimated)
                                  (not_below plan.gas_limit_cap (with_margin estimated) capped);
                            budget = (with_margin estimated, max_fee, refl, refl, refl);
                            affordable =
                                not_below seen.balance (with_margin estimated * max_fee) rich;
                            kept = (_, refl, refl, refl);
                          })))))))))
