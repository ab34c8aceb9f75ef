-- ===== src/Shared/Invoices/Laws.antt =====
-- What an invoice that `invoiceReadSchema` (packages/shared/src/index.ts) accepts says of its money.
use aqua_orbital.Prelude.{
  ℕ, ◌+◌, ◌-◌, ◌*◌, ◌/◌, ◌≡◌, ◌≤◌, refl, Bool, true, ◌&&◌, not, List, [], ◌∷◌, Option, none, some,
  ◌==◌, ==_iff, leb, leb→le, &&-eq-true, arith, length,
}
use aqua_orbital.Shared.{is_hash, is_uint64, is_token}
use aqua_orbital.Shared.Invoices.{
  is_receipt, Recipient, Payment, Status, unpaid, paid, cancelled, Invoice, is_payment_or_null,
  has_invoice_shape, bps_sum, has_shares, has_split, is_created_event, is_disordered, has_order,
  is_null, has_provenance, settles, is_invoice,
}

abbrev pub total_amount : List Recipient → ℕ
total_amount [] = 0
total_amount (r ∷ rs) = r.amount_raw + total_amount rs

-- The amounts split what remains, so that nothing is lost to rounding.
has_split-total_amount :
    (due remaining : ℕ) (r : Recipient) (rs : List Recipient)
    → has_split due remaining (r ∷ rs) ≡ true
    → total_amount (r ∷ rs) ≡ remaining
unfolding has_split
has_split-total_amount due remaining r [] h =
    let e = (==_iff r.amount_raw remaining).0 h in omega arith
has_split-total_amount due remaining r (q ∷ rs) h =
    let share = due * r.bps / 10000 in
    let (h1, rest) = &&-eq-true _ (has_split due (remaining - share) (q ∷ rs)) h in
    let (amount, fits) = &&-eq-true (r.amount_raw == share) (leb share remaining) h1 in
    let e = (==_iff r.amount_raw share).0 amount in
    let k = leb→le share remaining fits in
    let below = has_split-total_amount due (remaining - share) q rs rest in omega arith

-- What became of an invoice.
abbrev pub IsOutcome : ℕ → Status → Option Payment → Type 0
IsOutcome due unpaid p = p ≡ none
IsOutcome due cancelled p = p ≡ none
IsOutcome due paid none = ⊥
IsOutcome due paid (some p) = p.received_raw ≡ due + p.refund_raw

pub record IsSound (v : Invoice) : Type 0 where
  pub split : total_amount v.recipients ≡ v.amount_due_raw
  pub shares : bps_sum v.recipients ≡ 10000
  pub ordered : v.created.block_number ≤ v.updated.block_number
  pub outcome : IsOutcome v.amount_due_raw v.status v.payment

nullness : Status → Option Payment → Bool
nullness unpaid p = is_null p
nullness paid p = not (is_null p)
nullness cancelled p = is_null p

has_provenance-nullness :
    (s : Status) (v : Invoice) → has_provenance s v ≡ true → nullness s v.payment ≡ true
unfolding nullness
has_provenance-nullness unpaid v h = (&&-eq-true _ (is_null v.payment) h).1
has_provenance-nullness paid v h = (&&-eq-true _ (not (is_null v.payment)) h).1
has_provenance-nullness cancelled v h = (&&-eq-true _ (is_null v.payment) h).1

settles_lem :
    (v : Invoice) (p : Payment)
    → settles v (some p) ≡ true
    → p.received_raw ≡ v.amount_due_raw + p.refund_raw
settles_lem v p h = ground arith

nullness-IsOutcome :
    (v : Invoice) (s : Status) (p : Option Payment)
    → nullness s p ≡ true
    → settles v p ≡ true
    → IsOutcome v.amount_due_raw s p
unfolding nullness
nullness-IsOutcome v unpaid none h k = refl
nullness-IsOutcome v unpaid (some p) h k = cc
nullness-IsOutcome v cancelled none h k = refl
nullness-IsOutcome v cancelled (some p) h k = cc
nullness-IsOutcome v paid none h k = cc
nullness-IsOutcome v paid (some p) h k = settles_lem v p k

has_order_lem : (v : Invoice) → has_order v ≡ true → v.created.block_number ≤ v.updated.block_number
has_order_lem v h =
    let (h1, rest) =
      &&-eq-true _ (not ((v.created.block_number == v.updated.block_number) && is_disordered v))
        h in
    leb→le _ _
      (&&-eq-true (is_created_event v.created.event)
        (leb v.created.block_number v.updated.block_number) h1).1

total :
    (v : Invoice) (rs : List Recipient)
    → leb 1 (length rs) ≡ true
    → has_split v.amount_due_raw v.amount_due_raw rs ≡ true
    → total_amount rs ≡ v.amount_due_raw
total v [] h k = ground arith
total v (r ∷ rs) h k = has_split-total_amount v.amount_due_raw v.amount_due_raw r rs k

has_invoice_shape-leb :
    (v : Invoice) → has_invoice_shape v ≡ true → leb 1 (length v.recipients) ≡ true
has_invoice_shape-leb v h =
    let a = (&&-eq-true _ (is_payment_or_null v.payment) h).0 in
    let b = (&&-eq-true _ (is_token v.settlement_token) a).0 in
    let c = (&&-eq-true _ (is_receipt v.updated) b).0 in
    let d = (&&-eq-true _ (is_receipt v.created) c).0 in
    let e = (&&-eq-true _ (is_uint64 v.version) d).0 in
    let f = (&&-eq-true _ (is_hash v.memo_hash) e).0 in
    let g = (&&-eq-true _ (leb (length v.recipients) 3) f).0 in
    (&&-eq-true _ (leb 1 (length v.recipients)) g).1

-- An invoice that `invoiceReadSchema` accepts splits the amount due among its recipients to the last
-- unit, by shares whose sum is 10000. It was created no later than it was updated, and it has a payment
-- exactly if it is paid, which then received the amount due and the refund.
pub is_invoice-IsSound : (v : Invoice) → is_invoice v ≡ true → IsSound v
unfolding is_invoice
is_invoice-IsSound v h =
    let (h1, settled) = &&-eq-true _ (settles v v.payment) h in
    let (h2, decimals) = &&-eq-true _ (v.settlement_token.decimals == 6) h1 in
    let (h3, provenance) = &&-eq-true _ (has_provenance v.status v) h2 in
    let (h4, order) = &&-eq-true _ (has_order v) h3 in
    let (h5, split) = &&-eq-true _ (has_split v.amount_due_raw v.amount_due_raw v.recipients) h4 in
    let (shape, shares) = &&-eq-true (has_invoice_shape v) (has_shares v.recipients) h5 in
    record {
      split = total v v.recipients (has_invoice_shape-leb v shape) split;
      shares =
          (==_iff (bps_sum v.recipients) 10000).0
            (&&-eq-true _ (bps_sum v.recipients == 10000) shares).1;
      ordered = has_order_lem v order;
      outcome =
          nullness-IsOutcome v v.status v.payment (has_provenance-nullness v.status v provenance)
            settled;
    }
