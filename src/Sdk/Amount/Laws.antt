-- ===== src/Sdk/Amount/Laws.antt =====
-- The rounding of the maker's fee (`feeIn`, packages/sdk/src/codec.ts).
use mathlib.Core.Path.{subst}
use aqua_orbital.Prelude.{
  ℕ, ◌+◌, ◌*◌, ◌/◌, ◌^◌, ◌≤◌, ◌<◌, ◌≡◌, refl, Bool, true, false, not, arith, leb, ok, ok-injective,
  fail_if->>-eq-ok,
}
use aqua_orbital.Sdk.Amount.{fee_in, is_fee, out_of_range, unsupported_fee}

-- The fee is rounded up, to less than one unit more than the rate, and is at most the gross input.
pub record IsFee (gross ppm fee : ℕ) : Type 0 where
  pub covers : gross * ppm ≤ fee * 1000000
  pub tight : fee * 1000000 < gross * ppm + 1000000
  pub bounded : fee ≤ gross
  pub positive : 0 < gross → 0 < fee

ceiling-IsFee :
    (gross ppm : ℕ) → is_fee ppm ≡ true → IsFee gross ppm ((gross * ppm + 999999) / 1000000)
ceiling-IsFee gross ppm e = ground arith

-- The fee of a gross input is the rate's share of it rounded up to a whole unit: it covers the rate, by
-- less than one unit more; it is never more than the gross input, and it is not zero unless that is.
pub fee_in-IsFee : (gross ppm fee : ℕ) → fee_in gross ppm ≡ ok fee → IsFee gross ppm fee
unfolding fee_in
fee_in-IsFee gross ppm fee e =
    let (fits, e1) = fail_if->>-eq-ok (leb (2 ^ 256) gross) out_of_range _ e in
    let (rate, e2) = fail_if->>-eq-ok (not (is_fee ppm)) unsupported_fee _ e1 in
    subst (IsFee gross ppm) (ok-injective e2)
      (ceiling-IsFee gross ppm (not-false (is_fee ppm) rate))
  where
    not-false : (b : Bool) → not b ≡ false → b ≡ true
    not-false true e = refl
    not-false false e = cc
