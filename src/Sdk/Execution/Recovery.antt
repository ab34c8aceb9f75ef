-- ===== src/Sdk/Execution/Recovery.antt =====
-- A transaction that `executeReviewed` has sent (packages/sdk/src/execution.ts) can be followed with the
-- record that it keeps or throws, by `resumeTransaction`.
use aqua_orbital.Prelude.{
  ℕ, ◌≡◌, refl, Bool, true, false, List, [], ◌∷◌, Option, none, some, arith, Bool-cases, inl, inr,
  ◌⊎◌, Result, ok, err,
}
use mathlib.Core.Path.{subst}
use aqua_orbital.Sdk.Execution.{
  Plan, Identity, Fees, Estimate, Receipt, Error, Call, Port, is_plan, assert_identity, is_short,
  checked_receipt, record_of, after_persist, after_send, after_identity, after_estimate,
  after_first, execute_reviewed, resume_transaction, same, unsaved, is_read, is_nonzero,
}
use aqua_orbital.Sdk.Execution.Laws.{sends, IsGuarded, execute_reviewed-IsGuarded}

module _ (port : Port) (plan : Plan) (h : ℕ) where
  -- The record of the hash is kept, or thrown.
  abbrev pub IsKept : Result Error Receipt → Type 0
  IsKept r =
      (port.persist 4 (record_of plan (some h)) ≡ true)
      ⊎ (r ≡ err (unsaved (record_of plan (some h))))

  -- If the plan was sent and its hash is `h`, then the record is kept or thrown.
  abbrev IsKeptIfSent : Result Error Receipt × List Call → Type 0
  IsKeptIfSent (r, calls) =
      (fees : Fees)
      → sends calls ≡ (plan, fees) ∷ []
      → port.send 3 plan fees ≡ some (some h)
      → IsKept r

  after_send-IsKept :
      (x : Option (Option ℕ)) → x ≡ some (some h) → IsKept (after_send port plan x).0
  after_send-IsKept none e = cc
  after_send-IsKept (some none) e = cc
  after_send-IsKept (some (some k)) e =
      rw (inner k h e) (go (port.persist 4 (record_of plan (some h))) refl)
    where
      inner : (a b : ℕ) → ◌≡◌ {A = Option (Option ℕ)} (some (some a)) (some (some b)) → a ≡ b
      inner a b same = cc

      go :
          (b : Bool)
          → port.persist 4 (record_of plan (some h)) ≡ b
          → IsKept (after_persist port plan (some h) b).0
      go true kept = inl kept
      go false lost = inr refl

  after_identity-IsKept :
      (fees : Fees) (x : Result Error (Unit {0})) → IsKeptIfSent (after_identity port plan fees x)
  after_identity-IsKept fees (err e) f sent hashed = cc
  after_identity-IsKept fees (ok u) f sent hashed =
      let same_fees : fees ≡ f = first_fees sent in
      after_send-IsKept (port.send 3 plan fees) (rw same_fees hashed)
    where
      first_fees :
          {a b : Fees} {xs ys : List (Plan × Fees)}
          → ◌≡◌ {A = List (Plan × Fees)} ((plan, a) ∷ xs) ((plan, b) ∷ ys)
          → a ≡ b
      first_fees e = cc

  after_estimate-IsKept : (x : Option Estimate) → IsKeptIfSent (after_estimate port plan x)
  after_estimate-IsKept none = λ f sent hashed. cc
  after_estimate-IsKept (some e) = elim (Bool-cases (is_short e)) [
    | inl short ↦ rw short (λ f sent hashed. cc)
    | inr enough ↦ rw enough (after_identity-IsKept e.fees (assert_identity plan (port.identity 2)))
  ]

  after_first-IsKept : (x : Result Error (Unit {0})) → IsKeptIfSent (after_first port plan x)
  after_first-IsKept (err e) = λ f sent hashed. cc
  after_first-IsKept (ok u) = after_estimate-IsKept (port.estimate 1 plan)

  execute_reviewed-IsKept : IsKeptIfSent (execute_reviewed port plan)
  unfolding execute_reviewed
  execute_reviewed-IsKept = elim (Bool-cases (is_plan plan)) [
    | inl good ↦ rw good (after_first-IsKept (assert_identity plan (port.identity 0)))
    | inr bad ↦ rw bad (λ f sent hashed. cc)
  ]

plan_lem :
    (plan : Plan)
    → is_plan plan ≡ true
    → (is_read plan.account ≡ true) × (is_nonzero plan.chain_id ≡ true)
plan_lem plan good = (ground arith, ground arith)

resume_transaction_lem :
    (port : Port) (plan : Plan) (h : ℕ) (i : Identity)
    → is_plan plan ≡ true
    → port.identity 0 ≡ some i
    → same (some i.chain_id) plan.chain_id ≡ true
    → resume_transaction port (record_of plan (some h))
      ≡ checked_receipt (some h) (port.receipt 1 (some h))
unfolding resume_transaction
resume_transaction_lem port plan h i good here chain =
    let (account, network) = plan_lem plan good in rw (account, network, here, chain)

-- If the plan was sent and the wallet answered its hash, then the record of the hash was stored or is
-- in the error thrown; and resuming with this record, on a wallet of the plan's network, answers
-- the checked receipt of that hash, whatever became of the first attempt.
pub resume_transaction-execute_reviewed :
    (port later : Port) (plan : Plan) (fees : Fees) (h : ℕ) (i : Identity)
    → sends (execute_reviewed port plan).1 ≡ (plan, fees) ∷ []
    → port.send 3 plan fees ≡ some (some h)
    → later.identity 0 ≡ some i
    → same (some i.chain_id) plan.chain_id ≡ true
    → IsKept port plan h (execute_reviewed port plan).0
      × (resume_transaction later (record_of plan (some h))
          ≡ checked_receipt (some h) (later.receipt 1 (some h)))
resume_transaction-execute_reviewed port later plan fees h i sent hashed here chain =
    let guarded : IsGuarded port plan ((plan, fees) ∷ []) =
      subst (IsGuarded port plan) sent (execute_reviewed-IsGuarded port plan) in
    (
      execute_reviewed-IsKept port plan h fees sent hashed,
      resume_transaction_lem later plan h i guarded.1.well_formed here chain,
    )
