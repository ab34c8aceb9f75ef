-- ===== src/Text.antt =====
-- Texts as lists of character codes, and the decimal numerals that the schemas and codecs read.
use mathlib.Core.Path.{ap₂}
use aqua_orbital.Prelude.{
  ℕ, ◌+◌, ◌-◌, ◌*◌, Bool, true, false, ◌&&◌, List, [], ◌∷◌, leb, ltb, ◌==◌, all, ==_iff, &&-eq-true,
  ◌≡◌, refl,
}

-- `[0-9]`
abbrev pub is_digit : ℕ → Bool
is_digit c = leb b'0' c && leb c b'9'

-- `BigInt(text)` or `Number(text)` of a text of digits, with the value of the digits before it.
abbrev pub value_from : ℕ → List ℕ → ℕ
value_from n [] = n
value_from n (c ∷ s) = value_from (n * 10 + (c - b'0')) s

-- `/^(0|[1-9][0-9]*)$/`
abbrev pub is_numeral : List ℕ → Bool
is_numeral [] = false
is_numeral (c ∷ []) = is_digit c
is_numeral (c ∷ d ∷ s) = ltb b'0' c && leb c b'9' && all is_digit (d ∷ s)

-- `a === b` on texts.
abbrev pub same_text : List ℕ → List ℕ → Bool
same_text [] [] = true
same_text (c ∷ s) (d ∷ t) = (c == d) && same_text s t
same_text _ _ = false

pub same_text-eq-true : (s t : List ℕ) → same_text s t ≡ true → s ≡ t
same_text-eq-true [] [] h = refl
same_text-eq-true [] (d ∷ t) h = cc
same_text-eq-true (c ∷ s) [] h = cc
same_text-eq-true (c ∷ s) (d ∷ t) h =
    let (first, rest) = &&-eq-true (c == d) (same_text s t) h in
    ap₂ (λ x xs. x ∷ xs) ((==_iff c d).0 first) (same_text-eq-true s t rest)
