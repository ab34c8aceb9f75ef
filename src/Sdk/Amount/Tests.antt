-- ===== src/Sdk/Amount/Tests.antt =====
-- Amounts and fees (packages/sdk/src/codec.ts) at concrete inputs.
use aqua_orbital.Prelude.{ℕ, ◌≡◌, refl, List, [], ◌∷◌, arith, ok, err}
use aqua_orbital.Sdk.Amount.{
  parse_amount, format_amount, fee_in, split_point, pad_end, digits, zeros, drop, trim_zeros,
  too_many_places,
}
use aqua_orbital.Sdk.Amount.Laws.{IsFee, fee_in-IsFee}
use aqua_orbital.Sdk.Amount.RoundTrip.{parse_amount-format_amount}

-- `1.05` of a token of six decimals, and of one decimal.
prints : format_amount 1050000 6 ≡ ok (b'1' ∷ b'.' ∷ b'0' ∷ b'5' ∷ [])
unfolding format_amount digits zeros drop trim_zeros
prints = refl

parses : parse_amount (b'1' ∷ b'.' ∷ b'0' ∷ b'5' ∷ []) 6 ≡ ok 1050000
unfolding parse_amount split_point pad_end
parses = refl

refuses : parse_amount (b'1' ∷ b'.' ∷ b'0' ∷ b'5' ∷ []) 1 ≡ err too_many_places
unfolding parse_amount split_point pad_end
refuses = refl

charges : fee_in 1000001 500 ≡ ok 501
unfolding fee_in
charges = refl

fee_in-IsFee_example : IsFee 1000001 500 501
fee_in-IsFee_example = fee_in-IsFee 1000001 500 501 charges

parse_amount-format_amount_example :
    (s : List ℕ) × (format_amount 1050000 6 ≡ ok s) × (parse_amount s 6 ≡ ok 1050000)
parse_amount-format_amount_example =
    parse_amount-format_amount 1050000 6 (omega arith) (omega arith)
