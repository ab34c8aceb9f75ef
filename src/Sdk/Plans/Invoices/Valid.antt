-- ===== src/Sdk/Plans/Invoices/Valid.antt =====
-- The terms that `validateInvoiceTerms` (packages/sdk/src/plans.ts) accepts.
use aqua_orbital.Prelude.{
  ℕ, ◌-◌, ◌^◌, ◌≡◌, ◌≤◌, ◌<◌, ◌≢◌, ◌↔◌, refl, Bool, true, false, ◌||◌, not, List, [], ◌∷◌, any, all,
  map, All, length, includes, distinct, ltb, ◌==◌, ==_iff, arith, &&-eq-true, ||-eq-false, ok,
  fail_if->>-eq-ok, fail_if-eq-ok, >>=-elim,
}
use aqua_orbital.Shared.{Address, same}
use aqua_orbital.Sdk.Errors.{
  invalid_address, invalid_amount, invalid_or_duplicate_recipient, invalid_hash, invalid_recipients,
  shares_total,
}
use aqua_orbital.Sdk.Codec.{is_address}
use aqua_orbital.Sdk.Codec.Orders.{sum}
use aqua_orbital.Sdk.Plans.{check_address, check_amount}
use aqua_orbital.Sdk.Plans.Invoices.{
  usdc_limit, check_hash, InvoiceTerms, check_recipients, is_bad_share, validate_invoice_terms,
}

abbrev pub values : List Address → List ℕ
values rs = map (λ (r : Address). r.value) rs

pub record IsRecipient (adapter r : Address) : Type 0 where
  pub address : is_address r ≡ true
  pub nonzero : 0 < r.value
  pub other : r.value ≢ adapter.value

-- The terms of an invoice in full.
pub record IsTerms (adapter : Address) (t : InvoiceTerms) : Type 0 where
  pub due : (0 < t.amount_due_raw) × (t.amount_due_raw < usdc_limit)
  pub expires : (0 < t.expires_at) × (t.expires_at < 2 ^ 40)
  pub memo : t.memo_hash < 2 ^ 256
  pub count : (1 ≤ length t.recipients) × (length t.recipients ≤ 3)
  pub shared : length t.recipients ≡ length t.bps
  pub recipients : All (IsRecipient adapter) t.recipients
  pub different : distinct (values t.recipients) ≡ true
  pub shares : All (λ v. (1 ≤ v) × (v ≤ 10000)) t.bps
  pub total : sum t.bps ≡ 10000

-- No value has been seen.
abbrev pub is_fresh : List ℕ → List ℕ → Bool
is_fresh seen vs = all (λ v. not (includes v seen)) vs

is_fresh-nil : (vs : List ℕ) → is_fresh [] vs ≡ true
is_fresh-nil [] = refl
is_fresh-nil (v ∷ vs) = is_fresh-nil vs

is_fresh-cons :
    (r : ℕ) (seen vs : List ℕ)
    → is_fresh (r ∷ seen) vs ≡ true
    → (is_fresh seen vs ≡ true) × (includes r vs ≡ false)
is_fresh-cons r seen [] h = (refl, refl)
is_fresh-cons r seen (v ∷ vs) h =
    let (new, rest) = &&-eq-true (not (includes v (r ∷ seen))) (is_fresh (r ∷ seen) vs) h in
    let (e1, e2) = is_fresh-cons r seen vs rest in ground arith

cons-is_fresh :
    (r : ℕ) (seen vs : List ℕ)
    → is_fresh seen vs ≡ true
    → includes r vs ≡ false
    → is_fresh (r ∷ seen) vs ≡ true
cons-is_fresh r seen [] h k = refl
cons-is_fresh r seen (v ∷ vs) h k =
    let (new, rest) = &&-eq-true (not (includes v seen)) (is_fresh seen vs) h in
    let (other, none_of) = ||-eq-false (v == r) (includes r vs) k in
    let e = cons-is_fresh r seen vs rest none_of in ground arith

check_address-ok :
    (a : Address) {u : Unit {0}} → check_address a ≡ ok u → (is_address a ≡ true) × (0 < a.value)
unfolding check_address
check_address-ok a e = let bad = fail_if-eq-ok _ invalid_address e in ground arith

ok-check_address : (a : Address) → is_address a ≡ true → 0 < a.value → check_address a ≡ ok tt
unfolding check_address
ok-check_address a h k = ground arith

check_amount-ok : (max v : ℕ) {u : Unit {0}} → check_amount max true v ≡ ok u → (0 < v) × (v ≤ max)
unfolding check_amount
check_amount-ok max v e = let bad = fail_if-eq-ok _ invalid_amount e in ground arith

ok-check_amount : (max v : ℕ) → 0 < v → v ≤ max → check_amount max true v ≡ ok tt
unfolding check_amount
ok-check_amount max v h k = ground arith

==-false : (a b : ℕ) → (a == b) ≡ false → a ≢ b
==-false a b h e = ground arith

not-==-false : (a b : ℕ) → a ≢ b → (a == b) ≡ false
not-==-false a b h = ground arith

not-eq-true : (b : Bool) → not b ≡ true → b ≡ false
not-eq-true true e = cc
not-eq-true false e = refl

not-eq-false : (b : Bool) → not b ≡ false → b ≡ true
not-eq-false true e = refl
not-eq-false false e = cc

distinct-cons :
    (v : ℕ) (vs : List ℕ)
    → distinct (v ∷ vs) ≡ true
    → (includes v vs ≡ false) × (distinct vs ≡ true)
distinct-cons v vs h = ground arith

module _ (adapter : Address) where
  check_recipients-ok :
      (seen : List ℕ) (rs : List Address) {u : Unit {0}}
      → check_recipients adapter seen rs ≡ ok u
      → All (IsRecipient adapter) rs
        × (is_fresh seen (values rs) ≡ true)
        × (distinct (values rs) ≡ true)
  unfolding check_recipients
  check_recipients-ok seen [] e = (tt, refl, refl)
  check_recipients-ok seen (r ∷ rs) e = >>=-elim (check_address r) _ e (λ u good e1.
      let (bad, e2) =
        fail_if->>-eq-ok (same r adapter || includes r.value seen) invalid_or_duplicate_recipient _
          e1 in
      let (foreign, new) = ||-eq-false (same r adapter) (includes r.value seen) bad in
      let (rest, fresh, different) = check_recipients-ok (r.value ∷ seen) rs e2 in
      let (address, nonzero) = check_address-ok r good in
      let (older, later) = is_fresh-cons r.value seen (values rs) fresh in
      (
        (
          record {
            address = address;
            nonzero = nonzero;
            other = λ e. ==-false r.value adapter.value foreign e;
          },
          rest,
        ),
        rw new older,
        rw later different,
      ))

  ok-check_recipients :
      (seen : List ℕ) (rs : List Address)
      → All (IsRecipient adapter) rs
      → is_fresh seen (values rs) ≡ true
      → distinct (values rs) ≡ true
      → check_recipients adapter seen rs ≡ ok tt
  unfolding check_recipients
  ok-check_recipients seen [] good fresh different = refl
  ok-check_recipients seen (r ∷ rs) good fresh different =
      let (new, older) =
        &&-eq-true (not (includes r.value seen)) (is_fresh seen (values rs)) fresh in
      let (later, rest) = distinct-cons r.value (values rs) different in
      rw (ok-check_address r good.0.address good.0.nonzero) (
        rw (not-==-false r.value adapter.value good.0.other) (
          rw (not-eq-true (includes r.value seen) new) (
            ok-check_recipients (r.value ∷ seen) rs good.1
              (cons-is_fresh r.value seen (values rs) older later) rest)))

shares-ok : (vs : List ℕ) → any is_bad_share vs ≡ false → All (λ v. (1 ≤ v) × (v ≤ 10000)) vs
shares-ok [] h = tt
shares-ok (v ∷ vs) h =
    let (good, rest) = ||-eq-false (is_bad_share v) (any is_bad_share vs) h in
    (ground arith, shares-ok vs rest)

ok-shares : (vs : List ℕ) → All (λ v. (1 ≤ v) × (v ≤ 10000)) vs → any is_bad_share vs ≡ false
ok-shares [] h = refl
ok-shares (v ∷ vs) h = let (low, high) = h.0 in let rest = ok-shares vs h.1 in ground arith

check_hash-ok : (h : ℕ) {u : Unit {0}} → check_hash h ≡ ok u → h < 2 ^ 256
unfolding check_hash
check_hash-ok h e = let bad = fail_if-eq-ok _ invalid_hash e in ground arith

ok-check_hash : (h : ℕ) → h < 2 ^ 256 → check_hash h ≡ ok tt
unfolding check_hash
ok-check_hash h k = ground arith

abbrev is_miscounted : InvoiceTerms → Bool
is_miscounted t =
    ltb (length t.recipients) 1
    || ltb 3 (length t.recipients)
    || not (length t.recipients == length t.bps)

count-ok :
    (t : InvoiceTerms)
    → is_miscounted t ≡ false
    → (1 ≤ length t.recipients) × (length t.recipients ≤ 3) × (length t.recipients ≡ length t.bps)
count-ok t h = ground arith

ok-count :
    (t : InvoiceTerms)
    → 1 ≤ length t.recipients
    → length t.recipients ≤ 3
    → length t.recipients ≡ length t.bps
    → is_miscounted t ≡ false
ok-count t h k e = ground arith

module _ (adapter : Address) (t : InvoiceTerms) where
  validate_invoice_terms-IsTerms : validate_invoice_terms adapter t ≡ ok tt → IsTerms adapter t
  unfolding validate_invoice_terms
  validate_invoice_terms-IsTerms e =
      >>=-elim (check_amount (usdc_limit - 1) true t.amount_due_raw) _ e (λ u due e1.
        >>=-elim (check_amount (2 ^ 40 - 1) true t.expires_at) _ e1 (λ u expires e2.
          >>=-elim (check_hash t.memo_hash) _ e2 (λ u memo e3.
            let (counted, e4) = fail_if->>-eq-ok (is_miscounted t) invalid_recipients _ e3 in
            >>=-elim (check_recipients adapter [] t.recipients) _ e4 (λ u listed e5.
              let (shares, total) =
                ||-eq-false (any is_bad_share t.bps) (not (sum t.bps == 10000))
                  (fail_if-eq-ok _ shares_total e5) in
              let (low, high, equal) = count-ok t counted in
              let (good, fresh, different) = check_recipients-ok adapter [] t.recipients listed in
              let (due_low, due_high) = check_amount-ok (usdc_limit - 1) t.amount_due_raw due in
              let (late, soon) = check_amount-ok (2 ^ 40 - 1) t.expires_at expires in
              record {
                due = (due_low, omega (arith, due_high));
                expires = (late, omega (arith, soon));
                memo = check_hash-ok t.memo_hash memo;
                count = (low, high);
                shared = equal;
                recipients = good;
                different = different;
                shares = shares-ok t.bps shares;
                total = (==_iff (sum t.bps) 10000).0 (not-eq-false _ total);
              }))))

  IsTerms-validate_invoice_terms : IsTerms adapter t → validate_invoice_terms adapter t ≡ ok tt
  unfolding validate_invoice_terms
  IsTerms-validate_invoice_terms k =
      rw (ok-check_amount (usdc_limit - 1) t.amount_due_raw k.due.0 (omega (arith, k.due.1))) (
        rw (ok-check_amount (2 ^ 40 - 1) t.expires_at k.expires.0 (omega (arith, k.expires.1))) (
          rw (ok-check_hash t.memo_hash k.memo) (
            rw (ok-count t k.count.0 k.count.1 k.shared) (
              rw
                (ok-check_recipients adapter [] t.recipients k.recipients
                  (is_fresh-nil (values t.recipients)) k.different)
                (rw (ok-shares t.bps k.shares) (rw ((==_iff (sum t.bps) 10000).1 k.total) refl))))))

-- `validateInvoiceTerms` accepts exactly the terms of these: an amount due above 0 and below the limit,
-- an expiry above 0 and below 2^40, a hash of 32 bytes, one to three recipients with one share each,
-- which are different nonzero addresses other than the adapter, and shares from 1 to 10000 whose sum is
-- 10000.
pub validate_invoice_terms_iff :
    (adapter : Address) (t : InvoiceTerms)
    → (validate_invoice_terms adapter t ≡ ok tt) ↔ IsTerms adapter t
validate_invoice_terms_iff adapter t =
    (validate_invoice_terms-IsTerms adapter t, IsTerms-validate_invoice_terms adapter t)
