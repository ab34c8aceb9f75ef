-- ===== src/Deploy/Arc/Reviews.antt =====
-- What a verified step of an Arc deployment has shown (scripts/lib/arc-deployment.mjs).
use mathlib.Core.Path.{subst}
use aqua_orbital.Prelude.{
  ℕ, ◌≤◌, ◌≡◌, refl, sym, ap, ◌∙◌, true, false, ◌||◌, not, List, Option, none, some, ltb, ◌==◌,
  ==_iff, includes, arith, ok, or_fail, >>=-elim, or_fail-eq-ok, ok-injective, fail_if->>-eq-ok,
  fail_if-eq-ok,
}
use aqua_orbital.Projections.Strategies.Lives.{not-eq-false}
use aqua_orbital.Indexer.Canonical.{same_option}
use aqua_orbital.Deploy.Arc.{
  Error, rpc_failed, invalid_review, review_mismatch, review_exceeds_bounds, missing_transaction,
  transaction_mismatch, confirmed_unavailable, transaction_reverted, absent_from_block,
  receipt_mismatch, receipt_changed, transaction_exceeds_review, check_quantities, Step,
  ReviewedTransaction, Review, Transaction, Receipt, BlockAnswer, Entry, Plan, Rpc, arc_chain_id,
  number, quantity, check_simulated, transaction_of, simulated_of, check_reviewed, validate_review,
  is_missing, is_hash, validate_transaction, check_gas, block_transactions, check_receipt,
  is_changed, runtime_of, verify_entry,
}

-- A reviewed transaction is the step's, on Arc, with no native value and within the cap of gas.
pub record IsReviewed (plan : Plan) (step : Step) (tx : ReviewedTransaction) : Type 0 where
  pub from : tx.from ≡ some plan.deployer
  pub to : tx.to ≡ step.to
  pub input : tx.input ≡ some step.input
  pub nonce : tx.nonce ≡ some step.nonce
  pub value : tx.value ≡ some 0
  pub chain_id : tx.chain_id ≡ some arc_chain_id
  pub gas : (g : ℕ) × (tx.gas ≡ some g) × (1 ≤ g) × (g ≤ plan.gas_limit_cap)

pub same_option-eq : (a b : Option ℕ) → not (same_option a b) ≡ false → a ≡ b
same_option-eq none none h = refl
same_option-eq none (some b) h = cc
same_option-eq (some a) none h = cc
same_option-eq (some a) (some b) h = rw ((==_iff a b).0 (not-eq-false (a == b) h)) refl

some-injective : {a b : ℕ} → ◌≡◌ {A = Option ℕ} (some a) (some b) → a ≡ b
some-injective h = cc

some_at : (o : Option ℕ) (a b : ℕ) → o ≡ some a → a ≡ b → o ≡ some b
some_at o a b h e = h ∙ ap (λ (x : ℕ). some x) e

module _ (plan : Plan) (step : Step) where
  pub check_reviewed-IsReviewed :
      (tx : ReviewedTransaction) {u : Unit {0}}
      → check_reviewed plan step tx ≡ ok u
      → IsReviewed plan step tx
  unfolding check_reviewed
  check_reviewed-IsReviewed tx e =
      let (keys, e1) = fail_if->>-eq-ok tx.has_other_keys invalid_review _ e in
      let (from, e2) =
        fail_if->>-eq-ok (not (same_option tx.from (some plan.deployer))) review_mismatch _ e1 in
      let (to, e3) = fail_if->>-eq-ok (not (same_option tx.to step.to)) review_mismatch _ e2 in
      let (input, e4) =
        fail_if->>-eq-ok (not (same_option tx.input (some step.input))) review_mismatch _ e3 in
      >>=-elim (quantity tx.nonce) _ e4 (λ nonce n e5.
        >>=-elim (quantity tx.value) _ e5 (λ value v e6.
          >>=-elim (quantity tx.chain_id) _ e6 (λ chain_id c e7.
            >>=-elim (quantity tx.gas) _ e7 (λ gas g e8.
              >>=-elim (quantity tx.max_fee) _ e8 (λ max_fee f e9.
                >>=-elim (quantity tx.max_priority) _ e9 (λ max_priority p e10.
                  let inside =
                    fail_if-eq-ok
                      (not (nonce == step.nonce)
                        || not (value == 0)
                        || not (chain_id == arc_chain_id)
                        || (gas == 0)
                        || ltb plan.gas_limit_cap gas
                        || ltb max_fee max_priority)
                      review_exceeds_bounds e10 in
                  record {
                    from = same_option-eq _ _ from;
                    to = same_option-eq _ _ to;
                    input = same_option-eq _ _ input;
                    nonce = some_at _ nonce _ (or_fail-eq-ok _ _ n) (ground (arith, inside));
                    value = some_at _ value _ (or_fail-eq-ok _ _ v) (ground (arith, inside));
                    chain_id = some_at _ chain_id _ (or_fail-eq-ok _ _ c) (ground (arith, inside));
                    gas =
                        (gas, or_fail-eq-ok _ _ g, ground (arith, inside), ground (arith, inside));
                  }))))))

  pub validate_review-IsReviewed :
      (review : Option Review) (tx : ReviewedTransaction)
      → validate_review plan step review ≡ ok tx
      → (transaction_of review ≡ some tx) × IsReviewed plan step tx
  unfolding validate_review
  validate_review-IsReviewed review tx e =
      >>=-elim (or_fail (transaction_of review) invalid_review) _ e (λ t found e1.
        >>=-elim (check_reviewed plan step t) _ e1 (λ u good e2.
          >>=-elim (check_simulated step step.address (simulated_of review)) _ e2 (λ v simulated e3.
            subst
              (λ (x : ReviewedTransaction).
                (transaction_of review ≡ some x) × IsReviewed plan step x)
              (ok-injective e3) (or_fail-eq-ok _ _ found, check_reviewed-IsReviewed t good))))

  -- A quantity of a transaction that is at most the reviewed one.
  abbrev pub IsWithin : Option ℕ → Option ℕ → Type 0
  IsWithin given most = (n k : ℕ) × (given ≡ some n) × (most ≡ some k) × (n ≤ k)

  -- A transaction of the chain that is the step's: on Arc, with no native value, with gas that is at most
  -- the reviewed and the capped gas, and with fees that are at most the reviewed ones.
  pub record IsSent (review : Option Review) (tx : Transaction) : Type 0 where
    pub reviewed : ReviewedTransaction
    pub is_kept : transaction_of review ≡ some reviewed
    pub good : IsReviewed plan step reviewed
    pub from : tx.from ≡ some plan.deployer
    pub to : tx.to ≡ step.to
    pub input : tx.input ≡ some step.input
    pub chain_id : tx.chain_id ≡ some arc_chain_id
    pub nonce : tx.nonce ≡ some step.nonce
    pub value : tx.value ≡ some 0
    pub gas : (g : ℕ) × (tx.gas ≡ some g) × (1 ≤ g) × (g ≤ plan.gas_limit_cap)
    pub within : IsWithin tx.gas reviewed.gas
    pub max_fee : IsWithin tx.max_fee reviewed.max_fee
    pub max_priority : IsWithin tx.max_priority reviewed.max_priority

  within_cap :
      (t : ReviewedTransaction) (gas most : ℕ)
      → IsReviewed plan step t
      → t.gas ≡ some most
      → (ltb most gas || (gas == 0)) ≡ false
      → (1 ≤ gas) × (gas ≤ most) × (gas ≤ plan.gas_limit_cap)
  within_cap t gas most good there inside =
      let (g, same, positive, capped) = good.gas in
      let e : most ≡ g = some-injective (sym there ∙ same) in
      let bounds : (1 ≤ gas) × (gas ≤ most) = ground (arith, inside) in
      (bounds.0, bounds.1, omega (arith, e, capped, bounds.1))

  not_above : (most n : ℕ) → ltb most n ≡ false → n ≤ most
  not_above most n h = ground (arith, h)

  -- The quantities of a transaction, after its addresses and its data.
  record HasQuantities (reviewed : ReviewedTransaction) (tx : Transaction) : Type 0 where
    chain_id : tx.chain_id ≡ some arc_chain_id
    nonce : tx.nonce ≡ some step.nonce
    value : tx.value ≡ some 0
    gas : (g : ℕ) × (tx.gas ≡ some g) × (1 ≤ g) × (g ≤ plan.gas_limit_cap)
    within : IsWithin tx.gas reviewed.gas
    max_fee : IsWithin tx.max_fee reviewed.max_fee
    max_priority : IsWithin tx.max_priority reviewed.max_priority

  check_quantities-HasQuantities :
      (t : ReviewedTransaction) (tx : Transaction) {u : Unit {0}}
      → IsReviewed plan step t
      → check_quantities step t tx ≡ ok u
      → HasQuantities t tx
  unfolding check_quantities
  check_quantities-HasQuantities t tx good e = >>=-elim (number tx.chain_id) _ e (λ chain_id c e1.
      let (arc, e2) = fail_if->>-eq-ok (not (chain_id == arc_chain_id)) transaction_mismatch _ e1 in
      >>=-elim (number tx.nonce) _ e2 (λ nonce n e3.
        let (same, e4) = fail_if->>-eq-ok (not (nonce == step.nonce)) transaction_mismatch _ e3 in
        >>=-elim (number tx.value) _ e4 (λ value v e5.
          let (free, e6) = fail_if->>-eq-ok (not (value == 0)) transaction_mismatch _ e5 in
          >>=-elim (number tx.gas) _ e6 (λ gas g e7. >>=-elim (quantity t.gas) _ e7 (λ most m e8.
            let (inside, e9) =
              fail_if->>-eq-ok (ltb most gas || (gas == 0)) transaction_exceeds_review _ e8 in
            >>=-elim (number tx.max_fee) _ e9 (λ fee f e10.
              >>=-elim (quantity t.max_fee) _ e10 (λ max_fee mf e11.
                let (cheap, e12) =
                  fail_if->>-eq-ok (ltb max_fee fee) transaction_exceeds_review _ e11 in
                >>=-elim (number tx.max_priority) _ e12 (λ priority p e13.
                  >>=-elim (quantity t.max_priority) _ e13 (λ max_priority mp e14.
                    let low =
                      fail_if-eq-ok (ltb max_priority priority) transaction_exceeds_review e14 in
                    let (positive, under, capped) =
                      within_cap t gas most good (or_fail-eq-ok _ _ m) inside in
                    record {
                      chain_id =
                          some_at _ chain_id _ (or_fail-eq-ok _ _ c)
                            ((==_iff chain_id arc_chain_id).0 (not-eq-false _ arc));
                      nonce =
                          some_at _ nonce _ (or_fail-eq-ok _ _ n)
                            ((==_iff nonce step.nonce).0 (not-eq-false _ same));
                      value =
                          some_at _ value _ (or_fail-eq-ok _ _ v)
                            ((==_iff value 0).0 (not-eq-false _ free));
                      gas = (gas, or_fail-eq-ok _ _ g, positive, capped);
                      within = (gas, most, or_fail-eq-ok _ _ g, or_fail-eq-ok _ _ m, under);
                      max_fee = (
                        fee,
                        max_fee,
                        or_fail-eq-ok _ _ f,
                        or_fail-eq-ok _ _ mf,
                        not_above max_fee fee cheap,
                      );
                      max_priority = (
                        priority,
                        max_priority,
                        or_fail-eq-ok _ _ p,
                        or_fail-eq-ok _ _ mp,
                        not_above max_priority priority low,
                      );
                    })))))))))

  pub validate_transaction-IsSent :
      (review : Option Review) (tx : Transaction) {u : Unit {0}}
      → validate_transaction plan step review tx ≡ ok u
      → IsSent review tx
  unfolding validate_transaction
  validate_transaction-IsSent review tx e =
      let (there, e1) =
        fail_if->>-eq-ok (not (is_hash tx.hash) || is_missing review) missing_transaction _ e in
      >>=-elim (validate_review plan step review) _ e1 (λ t good e2.
        let (found, reviewed) = validate_review-IsReviewed review t good in
        let (from, e3) =
          fail_if->>-eq-ok (not (same_option tx.from (some plan.deployer))) transaction_mismatch _
            e2 in
        let (to, e4) =
          fail_if->>-eq-ok (not (same_option tx.to step.to)) transaction_mismatch _ e3 in
        let (input, e5) =
          fail_if->>-eq-ok (not (same_option tx.input (some step.input))) transaction_mismatch _
            e4 in
        let q = check_quantities-HasQuantities t tx reviewed e5 in
        record {
          reviewed = t;
          is_kept = found;
          good = reviewed;
          from = same_option-eq _ _ from;
          to = same_option-eq _ _ to;
          input = same_option-eq _ _ input;
          chain_id = q.chain_id;
          nonce = q.nonce;
          value = q.value;
          gas = q.gas;
          within = q.within;
          max_fee = q.max_fee;
          max_priority = q.max_priority;
        })

  -- An entry whose transaction is the step's, reviewed, and succeeded at the step's address.
  pub record IsConfirmed (rpc : Rpc) (hash : ℕ) (review : Option Review) : Type 0 where
    pub clock : ℕ
    pub transaction : Transaction
    pub receipt : Receipt
    pub found : rpc.transaction clock hash ≡ some (some transaction)
    pub received : rpc.receipt clock hash ≡ some (some receipt)
    pub sent : IsSent review transaction
    pub succeeded : receipt.has_succeeded ≡ true
    pub from : receipt.from ≡ some plan.deployer
    pub contract : receipt.contract_address ≡ step.address

  read_at {ℓ} :
      {A : Type ℓ} (read : Option (Option A)) (found : Option A) (a : A) (e e' : Error)
      → or_fail read e ≡ ok found
      → or_fail found e' ≡ ok a
      → read ≡ some (some a)
  read_at read found a e e' f g =
      subst (λ o. read ≡ some o) (or_fail-eq-ok found e' g) (or_fail-eq-ok read e f)

  check_receipt-agrees :
      (hash : ℕ) (tx : Transaction) (r : Receipt) (b : BlockAnswer) {u : Unit {0}}
      → check_receipt plan step hash tx r b ≡ ok u
      → (r.from ≡ some plan.deployer) × (r.contract_address ≡ step.address)
  unfolding check_receipt
  check_receipt-agrees hash tx r b e =
      let (h1, e1) =
        fail_if->>-eq-ok (not (same_option tx.hash (some hash))) receipt_mismatch _ e in
      let (h2, e2) =
        fail_if->>-eq-ok (not (same_option r.transaction_hash (some hash))) receipt_mismatch _ e1 in
      let (h3, e3) =
        fail_if->>-eq-ok (not (same_option r.block_hash b.hash)) receipt_mismatch _ e2 in
      let (h4, e4) =
        fail_if->>-eq-ok (not (same_option tx.block_hash b.hash)) receipt_mismatch _ e3 in
      let (h5, e5) =
        fail_if->>-eq-ok (not (same_option tx.block_number b.number)) receipt_mismatch _ e4 in
      let (h6, e6) =
        fail_if->>-eq-ok (not (same_option r.block_number b.number)) receipt_mismatch _ e5 in
      let (h7, e7) =
        fail_if->>-eq-ok (not (same_option r.from (some plan.deployer))) receipt_mismatch _ e6 in
      let (h8, e8) = fail_if->>-eq-ok (not (same_option r.to step.to)) receipt_mismatch _ e7 in
      let h9 =
        fail_if-eq-ok (not (same_option r.contract_address step.address)) receipt_mismatch e8 in
      (same_option-eq _ _ h7, same_option-eq _ _ h9)

  check_gas-succeeded :
      (tx : Transaction) (r : Receipt) {u : Unit {0}}
      → check_gas tx r ≡ ok u
      → r.has_succeeded ≡ true
  unfolding check_gas
  check_gas-succeeded tx r e =
      let (good, e1) = fail_if->>-eq-ok (not r.has_succeeded) transaction_reverted _ e in
      not-eq-false _ good

  pub verify_entry-IsConfirmed :
      (keccak : List ℕ → ℕ) (rpc : Rpc) (clock : ℕ) (entry out : Entry)
      → verify_entry keccak rpc clock plan step entry ≡ ok out
      → IsConfirmed rpc entry.hash entry.review
        × (out.hash ≡ entry.hash)
        × (out.review ≡ entry.review)
  unfolding verify_entry
  verify_entry-IsConfirmed keccak rpc clock entry out e =
      >>=-elim (or_fail (rpc.transaction clock entry.hash) rpc_failed) _ e (λ found_tx asked e1.
        >>=-elim (or_fail (rpc.receipt clock entry.hash) rpc_failed) _ e1
          (λ found_receipt asked2 e2.
            >>=-elim (or_fail found_tx confirmed_unavailable) _ e2 (λ tx there e3.
              >>=-elim (or_fail found_receipt confirmed_unavailable) _ e3 (λ receipt there2 e4.
                >>=-elim (validate_transaction plan step entry.review tx) _ e4 (λ u valid e5.
                  >>=-elim (check_gas tx receipt) _ e5 (λ v paid e6.
                    >>=-elim (or_fail (rpc.block clock receipt.block_number) rpc_failed) _ e6
                      (λ found_block asked3 e7.
                        let (inside, e8) =
                          fail_if->>-eq-ok
                            (not (includes entry.hash (block_transactions found_block)))
                            absent_from_block _ e7 in
                        >>=-elim (or_fail found_block absent_from_block) _ e8 (λ b there3 e9.
                          >>=-elim (check_receipt plan step entry.hash tx receipt b) _ e9
                            (λ w agrees e10.
                              let (kept, e11) =
                                fail_if->>-eq-ok (is_changed entry.receipt receipt) receipt_changed
                                  _ e10 in
                              >>=-elim (runtime_of keccak rpc clock step step.address entry b.hash)
                                _ e11
                                (λ r run e12.
                                  let (from, contract) =
                                    check_receipt-agrees entry.hash tx receipt b agrees in
                                  (
                                    record {
                                      clock = clock;
                                      transaction = tx;
                                      receipt = receipt;
                                      found = read_at _ _ tx _ _ asked there;
                                      received = read_at _ _ receipt _ _ asked2 there2;
                                      sent = validate_transaction-IsSent entry.review tx valid;
                                      succeeded = check_gas-succeeded tx receipt paid;
                                      from = from;
                                      contract = contract;
                                    },
                                    sym (ap (λ (x : Entry). x.hash) (ok-injective e12)),
                                    sym (ap (λ (x : Entry). x.review) (ok-injective e12)),
                                  )))))))))))
