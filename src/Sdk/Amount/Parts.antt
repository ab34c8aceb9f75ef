-- ===== src/Sdk/Amount/Parts.antt =====
-- The parts that packages/sdk/src/codec.ts cuts a text into: at a point, at a length, and at trailing
-- zeros.
use mathlib.Core.Path.{ap₂}
use mathlib.Core.List.{append-nil}
use aqua_orbital.Prelude.{
  ℕ, zero, suc, ◌+◌, ◌-◌, ◌≤◌, ◌<◌, ◌≡◌, refl, sym, ap, ◌∙◌, true, false, ◌&&◌, List, [], ◌∷◌, ◌++◌,
  Option, none, some, arith, ltb, leb, ◌==◌, all, length, take, Bool-cases, inl, inr,
}
use aqua_orbital.Text.{is_digit}
use aqua_orbital.Sdk.Amount.{
  split_point, is_digits, is_decimal, fraction_of, pad_end, drop, is_empty, trim_zeros,
  point_before,
}

pub take-drop : (n : ℕ) (s : List ℕ) → take n s ++ drop n s ≡ s
unfolding drop
take-drop zero s = refl
take-drop (suc n) [] = refl
take-drop (suc n) (c ∷ s) = ap (λ (x : List ℕ). c ∷ x) (take-drop n s)

pub all-take : (n : ℕ) (s : List ℕ) → all is_digit s ≡ true → all is_digit (take n s) ≡ true
all-take zero s h = refl
all-take (suc n) [] h = refl
all-take (suc n) (c ∷ s) h = ground (arith, all-take n s)

pub all-drop : (n : ℕ) (s : List ℕ) → all is_digit s ≡ true → all is_digit (drop n s) ≡ true
unfolding drop
all-drop zero s h = h
all-drop (suc n) [] h = refl
all-drop (suc n) (c ∷ s) h = all-drop n s (ground arith)

pub length-drop : (n : ℕ) (s : List ℕ) → length (drop n s) ≡ length s - n
unfolding drop
length-drop zero s = omega arith
length-drop (suc n) [] = omega arith
length-drop (suc n) (c ∷ s) = omega (arith, length-drop n s)

pub length-take : (n : ℕ) (s : List ℕ) → n ≤ length s → length (take n s) ≡ n
length-take zero s h = refl
length-take (suc n) [] h = omega arith
length-take (suc n) (c ∷ s) h = omega (arith, length-take n s)

pub digit-not-point : (c : ℕ) → is_digit c ≡ true → (c == b'.') ≡ false
digit-not-point c h = ground arith

pub split_point-none : (w : List ℕ) → all is_digit w ≡ true → split_point w ≡ (w, none)
unfolding split_point
split_point-none [] h = refl
split_point-none (c ∷ w) h =
    rw (digit-not-point c (ground arith), split_point-none w (ground arith))

pub split_point-some :
    (w f : List ℕ) → all is_digit w ≡ true → split_point (w ++ b'.' ∷ f) ≡ (w, some f)
unfolding split_point
split_point-some [] f h = refl
split_point-some (c ∷ w) f h =
    rw (digit-not-point c (ground arith), split_point-some w f (ground arith))

pub trim_step :
    (c : ℕ) (rest : List ℕ) → is_empty rest && (c == b'0') ≡ true → (rest ≡ []) × (c ≡ b'0')
trim_step c [] h = (refl, ground arith)
trim_step c (x ∷ rest) h = cc

pub pad_end-trim_zeros : (s : List ℕ) → pad_end (length s) (trim_zeros s) ≡ s
unfolding pad_end trim_zeros
pad_end-trim_zeros [] = refl
pad_end-trim_zeros (c ∷ s) = elim (Bool-cases (is_empty (trim_zeros s) && (c == b'0'))) [
  | inl last ↦
      let (none_left, zero_digit) = trim_step c (trim_zeros s) last in
      rw last (
        ap₂ (λ x (y : List ℕ). x ∷ y) (sym zero_digit)
          (ap (pad_end (length s)) (sym none_left) ∙ pad_end-trim_zeros s))
  | inr more ↦ rw more (ap (λ (x : List ℕ). c ∷ x) (pad_end-trim_zeros s))
]

pub all-trim_zeros : (s : List ℕ) → all is_digit s ≡ true → all is_digit (trim_zeros s) ≡ true
unfolding trim_zeros
all-trim_zeros [] h = refl
all-trim_zeros (c ∷ s) h = elim (Bool-cases (is_empty (trim_zeros s) && (c == b'0'))) [
  | inl last ↦ rw last refl
  | inr more ↦ rw more (ground (arith, all-trim_zeros s))
]

pub length-trim_zeros : (s : List ℕ) → length (trim_zeros s) ≤ length s
unfolding trim_zeros
length-trim_zeros [] = omega arith
length-trim_zeros (c ∷ s) = elim (Bool-cases (is_empty (trim_zeros s) && (c == b'0'))) [
  | inl last ↦ rw last (omega arith)
  | inr more ↦ rw more (omega (arith, length-trim_zeros s))
]

-- The fraction that is printed.
abbrev pub some_part : List ℕ → Option (List ℕ)
some_part [] = none
some_part (c ∷ s) = some (c ∷ s)

pub split_point_lem :
    (w t : List ℕ) → all is_digit w ≡ true → split_point (w ++ point_before t) ≡ (w, some_part t)
split_point_lem w [] h = ap split_point (append-nil w) ∙ split_point-none w h
split_point_lem w (c ∷ t) h = split_point-some w (c ∷ t) h

pub is_digits-all : (w : List ℕ) → is_digits w ≡ true → all is_digit w ≡ true
is_digits-all [] h = refl
is_digits-all (c ∷ w) h = h

pub fraction_of_lem : (t : List ℕ) → fraction_of (some_part t) ≡ t
fraction_of_lem [] = refl
fraction_of_lem (c ∷ t) = refl

pub is_decimal_lem :
    (w t : List ℕ) → is_digits w ≡ true → all is_digit t ≡ true → is_decimal (w, some_part t) ≡ true
is_decimal_lem w [] h k = h
is_decimal_lem w (c ∷ t) h k = rw (h, k) refl

pub length-point_before : (t : List ℕ) → length (point_before t) ≤ length t + 1
length-point_before [] = omega arith
length-point_before (c ∷ t) = omega arith

pub leb-false : (m n : ℕ) → n < m → leb m n ≡ false
leb-false m n h = ground arith

pub ltb-false : (m n : ℕ) → n ≤ m → ltb m n ≡ false
ltb-false m n h = ground arith
