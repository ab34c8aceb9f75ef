-- ===== src/Sdk/Plans/Intents/Accepted.antt =====
-- What `validateTransactionPlan` (packages/sdk/src/plans.ts) lets through, of any intent.
use mathlib.Core.Path.{subst}
use aqua_orbital.Prelude.{
  ◌≡◌, refl, sym, ◌∙◌, ap, Bool, true, false, not, includes, ◌==◌, ==_iff, &&-eq-true, ok,
  ok-injective, >>=-elim, fail_if->>-eq-ok,
}
use aqua_orbital.Text.{same_text, same_text-eq-true}
use aqua_orbital.Shared.{Address, same, is_manifest}
use aqua_orbital.Sdk.Errors.{plan_differs}
use aqua_orbital.Sdk.Codec.{Abi}
use aqua_orbital.Sdk.Codec.Orders.{Plan, is_supported}
use aqua_orbital.Sdk.Plans.{Context}
use aqua_orbital.Sdk.Plans.Targets.{targets, not-eq-false}
use aqua_orbital.Sdk.Plans.Intents.{
  Intent, rebuild, Candidate, is_label, agrees, validate_transaction_plan,
}
use aqua_orbital.Sdk.Plans.Intents.Laws.{rebuild-IsConfined}

-- What is known of a candidate that was accepted as the plan of an intent.
pub record IsAccepted (lib : Abi) (ctx : Context) (intent : Intent) (p : Candidate) : Type 0 where
  pub well_formed : is_manifest ctx.manifest ≡ true
  pub verified : ctx.manifest.verified ≡ true
  pub network : p.chain_id ≡ ctx.manifest.chain_id
  pub supported : is_supported p.chain_id ≡ true
  pub account : p.account.value ≡ ctx.account.value
  pub value : p.value ≡ 0
  pub target : includes p.to.value (targets ctx.manifest) ≡ true
  pub expected : Plan
  pub rebuilt : rebuild lib ctx intent ≡ ok expected
  pub called : p.data_bytes ≡ expected.data_bytes
  pub labelled : is_label p.label expected.label ≡ true
  pub alone : p.has_other_keys ≡ false

not-eq-true : (b : Bool) → not b ≡ true → b ≡ false
not-eq-true true e = cc
not-eq-true false e = refl

module _ (lib : Abi) (ctx : Context) (intent : Intent) (p : Candidate) where
  agrees-IsAccepted :
      (expected : Plan)
      → rebuild lib ctx intent ≡ ok expected
      → agrees p expected ≡ true
      → IsAccepted lib ctx intent p
  agrees-IsAccepted expected rebuilt h =
      let known = (rebuild-IsConfined lib ctx intent).holds expected rebuilt in
      let (h, alone) = &&-eq-true _ (not p.has_other_keys) h in
      let (h, labelled) = &&-eq-true _ (is_label p.label expected.label) h in
      let (h, called) = &&-eq-true _ (same_text p.data_bytes expected.data_bytes) h in
      let (h, to) = &&-eq-true _ (same p.to expected.to) h in
      let (h, account) = &&-eq-true _ (same p.account expected.account) h in
      let (chain, value) = &&-eq-true (p.chain_id == expected.chain_id) (p.value == 0) h in
      let same_chain = (==_iff p.chain_id expected.chain_id).0 chain in
      record {
        well_formed = known.well_formed;
        verified = known.verified;
        network = same_chain ∙ known.network;
        supported = subst (λ n. is_supported n ≡ true) (sym same_chain) known.supported;
        account =
            (==_iff p.account.value expected.account.value).0 account
            ∙ ap (λ (a : Address). a.value) known.account;
        value = (==_iff p.value 0).0 value;
        target =
            subst (λ n. includes n (targets ctx.manifest) ≡ true)
              (sym ((==_iff p.to.value expected.to.value).0 to)) known.target;
        expected = expected;
        rebuilt = rebuilt;
        called = same_text-eq-true p.data_bytes expected.data_bytes called;
        labelled = labelled;
        alone = not-eq-true p.has_other_keys alone;
      }

  -- A candidate that `validateTransactionPlan` accepts is returned as it is. The deployment is then
  -- verified and well formed, and the candidate is on its network, which is a supported one, from the
  -- wallet's account, without native value, and to one of its three contracts or its listed tokens. The
  -- intent builds a plan that has the candidate's data and label, and the candidate has no other keys.
  pub validate_transaction_plan-IsAccepted :
      (q : Candidate)
      → validate_transaction_plan lib p ctx intent ≡ ok q
      → (q ≡ p) × IsAccepted lib ctx intent p
  unfolding validate_transaction_plan
  validate_transaction_plan-IsAccepted q e =
      >>=-elim (rebuild lib ctx intent) _ e (λ expected rebuilt rest.
        let (same_plan, done) = fail_if->>-eq-ok (not (agrees p expected)) plan_differs _ rest in
        (sym (ok-injective done), agrees-IsAccepted expected rebuilt (not-eq-false _ same_plan)))
