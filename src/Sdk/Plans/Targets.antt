-- ===== src/Sdk/Plans/Targets.antt =====
-- Where the plans of packages/sdk/src/plans.ts go.
use mathlib.Core.Path.{subst}
use aqua_orbital.Prelude.{
  ℕ, ◌-◌, ◌^◌, ◌≡◌, refl, Bool, true, false, ◌||◌, not, List, [], ◌∷◌, ◌++◌, Option, some, ◌==◌,
  ==_iff, includes, arith, Bool-cases, inl, inr, or_fail, Ensures, Ensures->>=, Ensures->>,
  Ensures-fail_if, Ensures-ok, ||-eq-false,
}
use aqua_orbital.Shared.{
  Address, same, Token, Manifest, is_manifest, token_at, token_values, contract_values,
}
use aqua_orbital.Sdk.Errors.{encoding_failed, checked}
use aqua_orbital.Sdk.Amount.{check_uint}
use aqua_orbital.Sdk.Codec.{Call, approve, Abi, is_bad_address}
use aqua_orbital.Sdk.Codec.Orders.{Plan, Label, is_supported, approval_plan}
use aqua_orbital.Sdk.Plans.{
  check_address, check_amount, Context, check_context, plan_call, Strategy, test_strategy,
  check_strategy,
}

-- What a plan is confined to: no native value, the wallet's account on a supported network, and a
-- contract or a listed token of a verified deployment there.
pub record IsConfined (ctx : Context) (p : Plan) : Type 0 where
  pub well_formed : is_manifest ctx.manifest ≡ true
  pub verified : ctx.manifest.verified ≡ true
  pub supported : is_supported p.chain_id ≡ true
  pub network : p.chain_id ≡ ctx.manifest.chain_id
  pub account : p.account ≡ ctx.account
  pub value : p.value ≡ 0
  pub target :
      includes p.to.value (contract_values ctx.manifest ++ token_values ctx.manifest.tokens) ≡ true

-- What `context` has seen.
pub record IsContext (ctx : Context) (m : Manifest) : Type 0 where
  pub given : m ≡ ctx.manifest
  pub well_formed : is_manifest ctx.manifest ≡ true
  pub verified : ctx.manifest.verified ≡ true
  pub network : ctx.chain_id ≡ ctx.manifest.chain_id
  pub supported : is_supported ctx.chain_id ≡ true

pub not-eq-false : (b : Bool) → not b ≡ false → b ≡ true
not-eq-false true e = refl
not-eq-false false e = cc

pub check_context-IsContext : (ctx : Context) → Ensures (IsContext ctx) (check_context ctx)
unfolding check_context
check_context-IsContext ctx = Ensures-fail_if _ _ _ (λ well_formed.
    Ensures-fail_if _ _ _ (λ verified. Ensures-fail_if _ _ _ (λ network.
      Ensures->> (check_address ctx.account) _ (λ account.
        Ensures->> (check_amount (2 ^ 40 - 1) false ctx.now) _ (λ now.
          let (chain, supported) =
            ||-eq-false (not (ctx.chain_id == ctx.manifest.chain_id))
              (not (is_supported ctx.chain_id)) network in
          Ensures-ok _ (record {
            given = refl;
            well_formed = not-eq-false _ well_formed;
            verified = not-eq-false _ verified;
            network = (==_iff _ _).0 (not-eq-false _ chain);
            supported = not-eq-false _ supported;
          }))))))

-- A contract or a listed token is among the targets.
some-injective : {t u : Token} → ◌≡◌ {A = Option Token} (some t) (some u) → t ≡ u
some-injective h = cc

||-left : (a b : Bool) → a ≡ true → (a || b) ≡ true
||-left a b h = ground arith

||-right : (a b : Bool) → b ≡ true → (a || b) ≡ true
||-right a b h = ground arith

==_self : (n : ℕ) → (n == n) ≡ true
==_self n = (==_iff n n).1 refl

includes-left : (a : ℕ) (xs ys : List ℕ) → includes a xs ≡ true → includes a (xs ++ ys) ≡ true
includes-left a [] ys h = cc
includes-left a (x ∷ xs) ys h = elim (Bool-cases (x == a)) [
  | inl e ↦ ||-left (x == a) _ e
  | inr e ↦ ||-right (x == a) _ (includes-left a xs ys (rw e at h))
]

includes-right : (a : ℕ) (xs ys : List ℕ) → includes a ys ≡ true → includes a (xs ++ ys) ≡ true
includes-right a [] ys h = h
includes-right a (x ∷ xs) ys h = ||-right (x == a) _ (includes-right a xs ys h)

pub includes-token_at :
    (a : Address) (ts : List Token) (t : Token)
    → token_at a ts ≡ some t
    → includes t.address.value (token_values ts) ≡ true
includes-token_at a [] t h = cc
includes-token_at a (u ∷ ts) t h = elim (Bool-cases (same u.address a)) [
  | inl e ↦
      subst (λ (v : Token). includes v.address.value (token_values (u ∷ ts)) ≡ true)
        (some-injective (rw e at h))
        (||-left (u.address.value == u.address.value) _ (==_self u.address.value))
  | inr e ↦ ||-right (u.address.value == t.address.value) _ (includes-token_at a ts t (rw e at h))
]

-- The addresses that a plan may go to.
abbrev pub targets : Manifest → List ℕ
targets m = contract_values m ++ token_values m.tokens

pub includes-contract :
    (a : ℕ) (m : Manifest) → includes a (contract_values m) ≡ true → includes a (targets m) ≡ true
includes-contract a m h = includes-left a (contract_values m) (token_values m.tokens) h

pub includes-token :
    (a : ℕ) (m : Manifest)
    → includes a (token_values m.tokens) ≡ true
    → includes a (targets m) ≡ true
includes-token a m h = includes-right a (contract_values m) (token_values m.tokens) h

pub router-target : (m : Manifest) → includes m.router.value (targets m) ≡ true
router-target m = includes-contract m.router.value m (ground (arith, ==_self m.router.value))

pub aqua-target : (m : Manifest) → includes m.aqua.value (targets m) ≡ true
aqua-target m = includes-contract m.aqua.value m (ground (arith, ==_self m.aqua.value))

pub payments-target : (m : Manifest) → includes m.payments.value (targets m) ≡ true
payments-target m = includes-contract m.payments.value m (ground (arith, ==_self m.payments.value))

module _ (lib : Abi) (ctx : Context) where
  pub plan_call-IsConfined :
      (m : Manifest) (to : Address) (call : Call) (label : Label)
      → IsContext ctx m
      → includes to.value (targets m) ≡ true
      → Ensures (IsConfined ctx) (plan_call lib ctx to call label)
  unfolding plan_call
  plan_call-IsConfined m to call label known listed =
      Ensures->>= (or_fail (lib.call call) encoding_failed) _ (λ bytes done. Ensures-ok _ (record {
        well_formed = known.well_formed;
        verified = known.verified;
        supported = known.supported;
        network = known.network;
        account = refl;
        value = refl;
        target = subst (λ (n : Manifest). includes to.value (targets n) ≡ true) known.given listed;
      }))

  pub approval_plan-IsConfined :
      (token spender : Address) (amount : ℕ)
      → Ensures (IsConfined ctx) (approval_plan lib ctx.manifest ctx.account token spender amount)
  unfolding approval_plan
  approval_plan-IsConfined token spender amount = Ensures-fail_if _ _ _ (λ well_formed.
      Ensures-fail_if _ _ _ (λ verified. Ensures-fail_if _ _ _ (λ supported.
        Ensures-fail_if (is_bad_address ctx.account) _ _ (λ account. Ensures-fail_if _ _ _ (λ known.
          Ensures->> (checked (check_uint amount)) _ (λ small.
            Ensures->>= (or_fail (lib.call (approve spender amount)) encoding_failed) _
              (λ bytes done. Ensures-ok _ (record {
                well_formed = not-eq-false _ well_formed;
                verified = not-eq-false _ verified;
                supported = not-eq-false _ supported;
                network = refl;
                account = refl;
                value = refl;
                target = includes-token token.value ctx.manifest (
                    not-eq-false _
                      (||-eq-false (not (includes token.value (token_values ctx.manifest.tokens)))
                        (not (includes spender.value (contract_values ctx.manifest))) known).0);
              }))))))))

  pub check_strategy-IsContext :
      (as_maker : Bool) (s : Strategy) → Ensures (IsContext ctx) (check_strategy lib as_maker ctx s)
  unfolding check_strategy
  check_strategy-IsContext as_maker s = Ensures->>= (check_context ctx) _ (λ m known.
      Ensures->> (test_strategy lib as_maker ctx s m) _
        (λ tested. Ensures-ok m ((check_context-IsContext ctx).holds m known)))
