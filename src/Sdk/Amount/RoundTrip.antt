-- ===== src/Sdk/Amount/RoundTrip.antt =====
-- Parsing what `formatAmount` prints (packages/sdk/src/codec.ts).
use mathlib.Core.Path.{subst}
use mathlib.Core.List.{append-nil}
use aqua_orbital.Prelude.{
  ℕ, ◌+◌, ◌-◌, ◌*◌, ◌^◌, ◌≤◌, ◌<◌, ◌≡◌, refl, sym, ap, ◌∙◌, true, List, [], ◌++◌, arith, ◌==◌, all,
  length, length-append, take, Bool-cases, inl, inr, ok,
}
use aqua_orbital.Text.{is_digit, value_from}
use aqua_orbital.Sdk.Amount.{
  is_digits, pad_end, parse_amount, digits, zeros, pad_start, drop, trim_zeros, point_before,
  format_padded, max_digits, format_amount,
}
use aqua_orbital.Sdk.Amount.Digits.{
  value-append, value_shift, all-append, digits_lem, digits-all, length-digits, length-digits_pos,
  is_digits_of_all, zeros_value, zeros-all, length-zeros,
}
use aqua_orbital.Sdk.Amount.Parts.{
  take-drop, all-take, all-drop, length-drop, length-take, pad_end-trim_zeros, all-trim_zeros,
  length-trim_zeros, split_point_lem, is_digits-all, fraction_of_lem, is_decimal_lem,
  length-point_before, leb-false, ltb-false,
}

-- Parsing a whole part and a fraction of at most `d` digits.
module _ (d : ℕ) (w t : List ℕ) (few : d ≤ 18) (whole : is_digits w ≡ true)
    (fraction : all is_digit t ≡ true) (places : length t ≤ d)
    (short : length w + length t < 100) where
  parse_amount_lem :
      (v : ℕ)
      → value_from 0 w * 10 ^ d + value_from 0 (pad_end d t) ≡ v
      → v < 2 ^ 256
      → parse_amount (w ++ point_before t) d ≡ ok v
  unfolding parse_amount
  parse_amount_lem v e fits =
      let size : length (w ++ point_before t) ≤ 100 =
        omega (arith, length-append w (point_before t), length-point_before t) in
      rw (
        ltb-false 18 d few,
        split_point_lem w t (is_digits-all w whole),
        ltb-false 100 (length (w ++ point_before t)) size,
        is_decimal_lem w t whole fraction,
        fraction_of_lem t,
        ltb-false d (length t) places,
        e,
        leb-false (2 ^ 256) v fits,
      )

-- The two parts of a padded text.
module _ (d v : ℕ) (s : List ℕ) (few : d ≤ 18) (enough : d < length s) (short : length s < 99)
    (all_digits : all is_digit s ≡ true) (value : value_from 0 s ≡ v) (fits : v < 2 ^ 256) where
  parse_amount-format_padded : parse_amount (format_padded d s) d ≡ ok v
  parse_amount-format_padded =
      let n = length s - d in
      let f = drop n s in
      let w = take n s in
      let width : length f ≡ d = length-drop n s ∙ omega arith in
      let rest : length w ≡ n = length-take n s (omega arith) in
      let trimmed = length-trim_zeros f in
      let padded : pad_end d (trim_zeros f) ≡ f =
        ap (λ x. pad_end x (trim_zeros f)) (sym width) ∙ pad_end-trim_zeros f in
      let total : value_from 0 w * 10 ^ d + value_from 0 f ≡ v =
        ap (λ x. value_from 0 w * 10 ^ x + value_from 0 f) (sym width)
        ∙ sym (value_shift (value_from 0 w) f)
        ∙ sym (value-append 0 w f)
        ∙ ap (value_from 0) (take-drop n s)
        ∙ value in
      parse_amount_lem d w (trim_zeros f) few
        (is_digits_of_all w (omega (arith, rest)) (all-take n s all_digits))
        (all-trim_zeros f (all-drop n s all_digits)) (omega (arith, width, trimmed))
        (omega (arith, rest, width, trimmed)) v
        (ap (λ x. value_from 0 w * 10 ^ d + value_from 0 x) padded ∙ total) fits

pad_start-lengths :
    (d v : ℕ) (s : List ℕ)
    → d ≤ 18
    → length s ≤ 78
    → (d < length (pad_start (d + 1) s)) × (length (pad_start (d + 1) s) < 99)
pad_start-lengths d v s few short =
    let l = length-append (zeros (d + 1 - length s)) s in
    let z = length-zeros (d + 1 - length s) in (omega (arith, l, z), omega (arith, l, z))

-- The digits of an amount.
module _ (v : ℕ) (fits : v < 2 ^ 256) where
  digits_value : value_from 0 (digits max_digits v) ≡ v
  digits_value = digits_lem 78 v (omega arith)

  parse_amount_whole : parse_amount (digits max_digits v) 0 ≡ ok v
  unfolding pad_end
  parse_amount_whole =
      subst (λ s. parse_amount s 0 ≡ ok v) (append-nil (digits max_digits v))
        (parse_amount_lem 0 (digits max_digits v) [] (omega arith)
          (is_digits_of_all (digits max_digits v) (length-digits_pos 77 v) (digits-all 78 v)) refl
          (omega arith) (omega (arith, length-digits 78 v)) v (omega (arith, digits_value)) fits)

  parse_amount-pad_start :
      (d : ℕ)
      → d ≤ 18
      → parse_amount (format_padded d (pad_start (d + 1) (digits max_digits v))) d ≡ ok v
  parse_amount-pad_start d few =
      let sizes = pad_start-lengths d v (digits max_digits v) few (length-digits 78 v) in
      parse_amount-format_padded d v (pad_start (d + 1) (digits max_digits v)) few sizes.0 sizes.1
        (all-append is_digit (zeros (d + 1 - length (digits max_digits v))) (digits max_digits v)
          (zeros-all (d + 1 - length (digits max_digits v))) (digits-all 78 v))
        (zeros_value (d + 1 - length (digits max_digits v)) (digits max_digits v) ∙ digits_value)
        fits

-- An amount below 2^256 of a token of at most 18 decimals is printed, and parsing the text that is
-- printed gives the amount back.
pub parse_amount-format_amount :
    (v d : ℕ)
    → v < 2 ^ 256
    → d ≤ 18
    → (s : List ℕ) × (format_amount v d ≡ ok s) × (parse_amount s d ≡ ok v)
unfolding format_amount
parse_amount-format_amount v d fits few = elim (Bool-cases (d == 0)) [
  | inl whole ↦
      let none_left : d ≡ 0 = ground arith in
      (
        digits max_digits v,
        rw (ltb-false 18 d few, leb-false (2 ^ 256) v fits, whole),
        subst (λ x. parse_amount (digits max_digits v) x ≡ ok v) (sym none_left)
            (parse_amount_whole v fits),
      )
  | inr more ↦ (
    format_padded d (pad_start (d + 1) (digits max_digits v)),
    rw (ltb-false 18 d few, leb-false (2 ^ 256) v fits, more),
    parse_amount-pad_start v fits d few,
  )
]
