-- ===== src/Sdk/Amount/Digits.antt =====
-- The digits of a number (`toString` in packages/sdk/src/codec.ts), and their value.

use native.Mathlib.Nat.{pow-succ', add-mul, mul_assoc}
use aqua_orbital.Prelude.{
  ℕ, zero, suc, ◌+◌, ◌-◌, ◌*◌, ◌/◌, ◌%◌, ◌^◌, ◌≤◌, ◌<◌, ◌≡◌, refl, sym, ap, ◌∙◌, Bool, true, List,
  [], ◌∷◌, ◌++◌, arith, ltb, all, length, length-append, Bool-cases, inl, inr,
}
use aqua_orbital.Text.{is_digit, value_from}
use aqua_orbital.Sdk.Amount.{is_digits, digits, zeros}

pub value-append : (n : ℕ) (a b : List ℕ) → value_from n (a ++ b) ≡ value_from (value_from n a) b
value-append n [] b = refl
value-append n (c ∷ a) b = value-append (n * 10 + (c - b'0')) a b

pub shift_step : (n k p v : ℕ) → (n * 10 + k) * p + v ≡ n * (10 * p) + ((0 + k) * p + v)
shift_step n k p v =
    let a = add-mul (n * 10) k p in
    let b = mul_assoc n 10 p in
    omega (arith, a, b) ∙ ap (λ x. n * (10 * p) + (x * p + v)) (zero_add k)
  where
    zero_add : (x : ℕ) → x ≡ 0 + x
    zero_add x = omega arith

pub value_shift : (n : ℕ) (s : List ℕ) → value_from n s ≡ n * 10 ^ length s + value_from 0 s
value_shift n [] = omega arith
value_shift n (c ∷ s) =
    value_shift (n * 10 + (c - b'0')) s
    ∙ shift_step n (c - b'0') (10 ^ length s) (value_from 0 s)
    ∙ ap (λ x. n * x + ((0 + (c - b'0')) * 10 ^ length s + value_from 0 s))
        (sym (pow-succ' 10 (length s)))
    ∙ ap (λ x. n * 10 ^ suc (length s) + x) (sym (value_shift (0 + (c - b'0')) s))

pub all-append :
    (p : ℕ → Bool) (a b : List ℕ) → all p a ≡ true → all p b ≡ true → all p (a ++ b) ≡ true
all-append p [] b h k = k
all-append p (c ∷ a) b h k = ground (arith, all-append p a b)

pub digits_lem : (k n : ℕ) → n < 10 ^ k → value_from 0 (digits k n) ≡ n
unfolding digits
digits_lem zero n h = omega arith
digits_lem (suc k) n h = elim (Bool-cases (ltb n 10)) [
  | inl small ↦ rw small (omega arith)
  | inr large ↦
      let less : n / 10 < 10 ^ k = omega (arith, pow-succ' 10 k) in
      rw large (
        value-append 0 (digits k (n / 10)) ((b'0' + n % 10) ∷ [])
        ∙ ap (λ v. value_from v ((b'0' + n % 10) ∷ [])) (digits_lem k (n / 10) less)
        ∙ omega arith)
]

pub digits-all : (k n : ℕ) → all is_digit (digits k n) ≡ true
unfolding digits
digits-all zero n = refl
digits-all (suc k) n = elim (Bool-cases (ltb n 10)) [
  | inl small ↦ rw small (ground arith)
  | inr large ↦ rw large (
      all-append is_digit (digits k (n / 10)) ((b'0' + n % 10) ∷ []) (digits-all k (n / 10))
        (ground arith))
]

pub length-digits : (k n : ℕ) → length (digits k n) ≤ k
unfolding digits
length-digits zero n = omega arith
length-digits (suc k) n = elim (Bool-cases (ltb n 10)) [
  | inl small ↦ rw small (omega arith)
  | inr large ↦ rw large (
      omega
        (arith, length-append (digits k (n / 10)) ((b'0' + n % 10) ∷ []), length-digits k (n / 10)))
]

pub length-digits_pos : (k n : ℕ) → 0 < length (digits (suc k) n)
unfolding digits
length-digits_pos k n = elim (Bool-cases (ltb n 10)) [
  | inl small ↦ rw small (omega arith)
  | inr large ↦ rw large (omega (arith, length-append (digits k (n / 10)) ((b'0' + n % 10) ∷ [])))
]

pub is_digits_of_all : (s : List ℕ) → 0 < length s → all is_digit s ≡ true → is_digits s ≡ true
is_digits_of_all [] h a = absurd (omega arith)
is_digits_of_all (c ∷ s) h a = a

pub zeros_value : (n : ℕ) (s : List ℕ) → value_from 0 (zeros n ++ s) ≡ value_from 0 s
unfolding zeros
zeros_value zero s = refl
zeros_value (suc n) s = zeros_value n s

pub zeros-all : (n : ℕ) → all is_digit (zeros n) ≡ true
unfolding zeros
zeros-all zero = refl
zeros-all (suc n) = zeros-all n

pub length-zeros : (n : ℕ) → length (zeros n) ≡ n
unfolding zeros
length-zeros zero = refl
length-zeros (suc n) = ap suc (length-zeros n)
