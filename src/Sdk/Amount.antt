-- ===== src/Sdk/Amount.antt =====
-- The amounts of packages/sdk/src/codec.ts: a decimal text of a token's units, and the maker's fee. A text
-- is a list of character codes, an amount a natural number.
pub mod Laws
pub mod Digits
pub mod Parts
pub mod RoundTrip
mod Tests
use aqua_orbital.Prelude.{
  ℕ, zero, suc, ◌+◌, ◌-◌, ◌*◌, ◌/◌, ◌%◌, ◌^◌, Bool, true, false, ◌&&◌, ◌||◌, not, List, [], ◌∷◌,
  ◌++◌, Option, none, some, ltb, leb, ◌==◌, all, length, take, if◌then◌else◌, Result, ok, err,
  ◌>>=◌, ◌>>◌, fail_if,
}
use aqua_orbital.Text.{is_digit, value_from}

pub data Error : Type 0 where
  unsupported_decimals out_of_range not_decimal too_many_places unsupported_fee : Error

-- `decimals`
abbrev pub check_decimals : ℕ → Result Error (Unit {0})
check_decimals d = fail_if (ltb 18 d) unsupported_decimals

-- `uint`
abbrev pub check_uint : ℕ → Result Error (Unit {0})
check_uint v = fail_if (leb (2 ^ 256) v) out_of_range

-- The text before the first point, and the one after it.
unfoldable pub split_point : List ℕ → List ℕ × Option (List ℕ)
split_point [] = ([], none)
split_point (c ∷ s) =
    let (whole, fraction) = split_point s in
    if c == b'.' then ([], some s) else (c ∷ whole, fraction)

abbrev pub is_digits : List ℕ → Bool
is_digits [] = false
is_digits (c ∷ s) = all is_digit (c ∷ s)

-- `/^[0-9]+(?:\.[0-9]+)?$/`, on the two parts.
abbrev pub is_decimal : List ℕ × Option (List ℕ) → Bool
is_decimal (whole, none) = is_digits whole
is_decimal (whole, some fraction) = is_digits whole && is_digits fraction

-- `fraction=''`
abbrev pub fraction_of : Option (List ℕ) → List ℕ
fraction_of none = []
fraction_of (some s) = s

-- `text.padEnd(d,'0')`
unfoldable pub pad_end : ℕ → List ℕ → List ℕ
pad_end zero s = s
pad_end (suc d) [] = b'0' ∷ pad_end d []
pad_end (suc d) (c ∷ s) = c ∷ pad_end d s

abbrev pub amount_of : ℕ → List ℕ × Option (List ℕ) → ℕ
amount_of d (whole, fraction) =
    value_from 0 whole * 10 ^ d + value_from 0 (pad_end d (fraction_of fraction))

-- `parseAmount`
unfoldable pub parse_amount : List ℕ → ℕ → Result Error ℕ
parse_amount value d = do
  check_decimals d
  let parts = split_point value
  fail_if (ltb 100 (length value) || not (is_decimal parts)) not_decimal
  fail_if (ltb d (length (fraction_of parts.1))) too_many_places
  check_uint (amount_of d parts)
  ok (amount_of d parts)

-- `value.toString()`, of a number below 10 to the first argument.
unfoldable pub digits : ℕ → ℕ → List ℕ
digits zero n = []
digits (suc k) n =
    let rest = digits k (n / 10) in
    if ltb n 10 then (b'0' + n) ∷ [] else rest ++ (b'0' + n % 10) ∷ []

unfoldable pub zeros : ℕ → List ℕ
zeros zero = []
zeros (suc n) = b'0' ∷ zeros n

-- `text.padStart(d,'0')`
abbrev pub pad_start : ℕ → List ℕ → List ℕ
pad_start d s = zeros (d - length s) ++ s

unfoldable pub drop : ℕ → List ℕ → List ℕ
drop zero s = s
drop (suc n) [] = []
drop (suc n) (c ∷ s) = drop n s

abbrev pub is_empty : List ℕ → Bool
is_empty [] = true
is_empty (c ∷ s) = false

-- `text.replace(/0+$/,'')`
unfoldable pub trim_zeros : List ℕ → List ℕ
trim_zeros [] = []
trim_zeros (c ∷ s) =
    let rest = trim_zeros s in if is_empty rest && (c == b'0') then [] else c ∷ rest

-- `fraction?'.'+fraction:''`
abbrev pub point_before : List ℕ → List ℕ
point_before [] = []
point_before (c ∷ s) = b'.' ∷ c ∷ s

-- The last two lines of `formatAmount`.
abbrev pub format_padded : ℕ → List ℕ → List ℕ
format_padded d s = take (length s - d) s ++ point_before (trim_zeros (drop (length s - d) s))

-- A number below 2^256 has at most 78 digits.
abbrev pub max_digits : ℕ
max_digits = 78

-- `formatAmount`
unfoldable pub format_amount : ℕ → ℕ → Result Error (List ℕ)
format_amount value d = do
  check_decimals d
  check_uint value
  ok (
      if d == 0
      then digits max_digits value
      else format_padded d (pad_start (d + 1) (digits max_digits value)))

-- `[100,500,1000].includes(ppm)`
abbrev pub is_fee : ℕ → Bool
is_fee ppm = (ppm == 100) || (ppm == 500) || (ppm == 1000)

-- `feeIn`
unfoldable pub fee_in : ℕ → ℕ → Result Error ℕ
fee_in gross ppm = do
  check_uint gross
  fail_if (not (is_fee ppm)) unsupported_fee
  ok ((gross * ppm + 999999) / 1000000)
