-- ===== src/Sdk/Execution/Laws.antt =====
-- When `executeReviewed` (packages/sdk/src/execution.ts) sends, and what becomes of the hash.

use aqua_orbital.Prelude.{
  ℕ, ◌+◌, ◌*◌, ◌≤◌, ◌<◌, ◌≡◌, refl, Bool, true, false, not, List, [], ◌∷◌, Option, none, some,
  arith, Bool-cases, inl, inr, Result, ok, err, fail_if-eq-ok, fail_if->>-eq-ok,
}
use aqua_orbital.Sdk.Execution.{
  Plan, Identity, Fees, Estimate, Error, Call, send, persist, Port, is_plan, assert_identity,
  is_short, record_of, called, after_persist, after_send, after_identity, after_estimate,
  after_first, execute_reviewed, same, spend_of, network_changed, wallet_changed,
}

-- The transactions that a sequence of calls sends.
abbrev pub sends : List Call → List (Plan × Fees)
sends [] = []
sends (send p f ∷ cs) = (p, f) ∷ sends cs
sends (c ∷ cs) = sends cs

-- What `assertIdentity` has seen.
abbrev pub IsOwned : Plan → Option Identity → Type 0
IsOwned plan answer =
    (i : Identity) × (answer ≡ some i)
    × (same (some i.chain_id) plan.chain_id ≡ true)
    × (same i.account plan.account ≡ true)

-- What has been checked before a transaction is sent.
pub record Cleared (port : Port) (plan : Plan) (fees : Fees) : Type 0 where
  pub well_formed : is_plan plan ≡ true
  pub owned_first : IsOwned plan (port.identity 0)
  pub owned_again : IsOwned plan (port.identity 2)
  pub quoted : Estimate
  pub estimated : port.estimate 1 plan ≡ some quoted
  pub fees_quoted : quoted.fees ≡ fees
  pub gas : 0 < fees.gas
  pub affordable : fees.gas * fees.max_fee + spend_of quoted.native_spend ≤ quoted.native_balance

-- Nothing is sent, or the plan once and after its checks.
abbrev pub IsGuarded : Port → Plan → List (Plan × Fees) → Type 0
IsGuarded port plan [] = Unit
IsGuarded port plan ((p, f) ∷ []) = (p ≡ plan) × Cleared port plan f
IsGuarded port plan (x ∷ y ∷ xs) = ⊥

not-false : (b : Bool) → not b ≡ false → b ≡ true
not-false true e = refl
not-false false e = cc

assert_identity-IsOwned :
    (plan : Plan) (answer : Option Identity) {u : Unit {0}}
    → assert_identity plan answer ≡ ok u
    → IsOwned plan answer
assert_identity-IsOwned plan none e = cc
assert_identity-IsOwned plan (some i) e =
    let (chain, e1) =
      fail_if->>-eq-ok (not (same (some i.chain_id) plan.chain_id)) network_changed _ e in
    (i, refl, not-false _ chain, not-false _ (fail_if-eq-ok _ wallet_changed e1))

is_short_lem :
    (e : Estimate)
    → is_short e ≡ false
    → (0 < e.fees.gas) × (e.fees.gas * e.fees.max_fee + spend_of e.native_spend ≤ e.native_balance)
is_short_lem e h = ground arith

after_send-sends :
    (port : Port) (plan : Plan) (x : Option (Option ℕ)) → sends (after_send port plan x).1 ≡ []
after_send-sends port plan none = refl
after_send-sends port plan (some none) = refl
after_send-sends port plan (some (some h)) = go (port.persist 4 (record_of plan (some h)))
  where
    go :
        (b : Bool)
        → sends (called (persist (record_of plan (some h))) (after_persist port plan (some h) b)).1
          ≡ []
    go true = refl
    go false = refl

module _ (port : Port) (plan : Plan) (good : is_plan plan ≡ true)
    (first : IsOwned plan (port.identity 0)) where
  after_identity-IsGuarded :
      (e : Estimate) (x : Result Error (Unit {0}))
      → port.estimate 1 plan ≡ some e
      → is_short e ≡ false
      → assert_identity plan (port.identity 2) ≡ x
      → IsGuarded port plan (sends (after_identity port plan e.fees x).1)
  after_identity-IsGuarded e (err x) quoted enough again = tt
  after_identity-IsGuarded e (ok u) quoted enough again =
      let (gas, affordable) = is_short_lem e enough in
      rw (after_send-sends port plan (port.send 3 plan e.fees)) (
        refl,
        record {
          well_formed = good;
          owned_first = first;
          owned_again = assert_identity-IsOwned plan (port.identity 2) again;
          quoted = e;
          estimated = quoted;
          fees_quoted = refl;
          gas = gas;
          affordable = affordable;
        },
      )

  after_estimate-IsGuarded :
      (x : Option Estimate)
      → port.estimate 1 plan ≡ x
      → IsGuarded port plan (sends (after_estimate port plan x).1)
  after_estimate-IsGuarded none quoted = tt
  after_estimate-IsGuarded (some e) quoted = elim (Bool-cases (is_short e)) [
    | inl short ↦ rw short tt
    | inr enough ↦
        rw enough
          (after_identity-IsGuarded e (assert_identity plan (port.identity 2)) quoted enough refl)
  ]

after_first-IsGuarded :
    (port : Port) (plan : Plan) (x : Result Error (Unit {0}))
    → is_plan plan ≡ true
    → assert_identity plan (port.identity 0) ≡ x
    → IsGuarded port plan (sends (after_first port plan x).1)
after_first-IsGuarded port plan (err e) good owned = tt
after_first-IsGuarded port plan (ok u) good owned =
    after_estimate-IsGuarded port plan good (assert_identity-IsOwned plan (port.identity 0) owned)
      (port.estimate 1 plan) refl

-- `executeReviewed` sends nothing, or exactly the plan it was given and once. In that case the plan is
-- well formed, the wallet's network and account were the plan's both before the estimate and after it,
-- and the fees sent are the estimate's, with some gas and within the estimated balance together with
-- the spend.
pub execute_reviewed-IsGuarded :
    (port : Port) (plan : Plan) → IsGuarded port plan (sends (execute_reviewed port plan).1)
unfolding execute_reviewed
execute_reviewed-IsGuarded port plan = elim (Bool-cases (is_plan plan)) [
  | inl good ↦
      rw good (after_first-IsGuarded port plan (assert_identity plan (port.identity 0)) good refl)
  | inr bad ↦ rw bad tt
]
