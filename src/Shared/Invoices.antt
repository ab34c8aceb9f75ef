-- ===== src/Shared/Invoices.antt =====
-- `invoiceReadSchema` of packages/shared/src/index.ts: an invoice as the API returns it, with the
-- receipts of its events.
pub mod Laws
mod Tests
use aqua_orbital.Prelude.{
  ℕ, ◌+◌, ◌-◌, ◌*◌, ◌/◌, Bool, true, false, ◌&&◌, ◌||◌, not, List, [], ◌∷◌, Option, none, some, ltb,
  leb, ◌==◌, all, map, length, distinct, if◌then◌else◌,
}
use aqua_orbital.Shared.{
  Address, same, is_nonzero_address, is_hash, is_uint, is_uint64, is_uint40, Token, is_token,
  is_chain_id,
}

pub data EventName : Type 0 where
  invoice_created invoice_paid invoice_cancelled : EventName

-- `invoiceReceiptSchema`
pub record Receipt : Type 0 where
  pub block_number : ℕ
  pub block_hash : ℕ
  pub tx_hash : ℕ
  pub log_index : ℕ
  pub event : EventName

abbrev pub is_receipt : Receipt → Bool
is_receipt r =
    is_uint r.block_number
    && is_hash r.block_hash
    && is_hash r.tx_hash
    && leb r.log_index 2147483647

pub record Recipient : Type 0 where
  pub address : Address
  pub bps : ℕ
  pub amount_raw : ℕ

abbrev pub is_recipient : Recipient → Bool
is_recipient r =
    is_nonzero_address r.address && leb 1 r.bps && leb r.bps 10000 && is_uint r.amount_raw

pub record Payment : Type 0 where
  pub payer : Address
  pub token_in : Address
  pub input_token : Token
  pub input_raw : ℕ
  pub received_raw : ℕ
  pub refund_raw : ℕ
  pub route_hash : ℕ
  pub is_direct : Bool

abbrev pub is_payment : Payment → Bool
is_payment p =
    is_nonzero_address p.payer
    && is_nonzero_address p.token_in
    && is_token p.input_token
    && is_uint p.input_raw
    && ltb 0 p.input_raw
    && is_uint p.received_raw
    && is_uint p.refund_raw
    && is_hash p.route_hash

pub data Status : Type 0 where
  unpaid paid cancelled : Status

-- `InvoiceReadDTO`, less the flag that is always false.
pub record Invoice : Type 0 where
  pub invoice_id : ℕ
  pub merchant : Address
  pub adapter : Address
  pub amount_due_raw : ℕ
  pub expires_at : ℕ
  pub recipients : List Recipient
  pub memo_hash : ℕ
  pub status : Status
  pub version : ℕ
  pub created : Receipt
  pub updated : Receipt
  pub settlement_token : Token
  pub payment : Option Payment

abbrev pub is_payment_or_null : Option Payment → Bool
is_payment_or_null none = true
is_payment_or_null (some p) = is_payment p

abbrev pub has_invoice_shape : Invoice → Bool
has_invoice_shape v =
    is_hash v.invoice_id
    && is_nonzero_address v.merchant
    && is_nonzero_address v.adapter
    && is_uint v.amount_due_raw
    && ltb 0 v.amount_due_raw
    && is_uint40 v.expires_at
    && all is_recipient v.recipients
    && leb 1 (length v.recipients)
    && leb (length v.recipients) 3
    && is_hash v.memo_hash
    && is_uint64 v.version
    && is_receipt v.created
    && is_receipt v.updated
    && is_token v.settlement_token
    && is_payment_or_null v.payment

abbrev pub bps_sum : List Recipient → ℕ
bps_sum [] = 0
bps_sum (r ∷ rs) = r.bps + bps_sum rs

abbrev pub has_shares : List Recipient → Bool
has_shares rs = distinct (map (λ (r : Recipient). r.address.value) rs) && (bps_sum rs == 10000)

-- The loop over the recipients with what remains. Below 0 the last amount would differ from any, so
-- that a share above what remains fails at once.
unfoldable pub has_split : ℕ → ℕ → List Recipient → Bool
has_split due remaining [] = true
has_split due remaining (r ∷ []) = r.amount_raw == remaining
has_split due remaining (r ∷ q ∷ rs) =
    let share = due * r.bps / 10000 in
    (r.amount_raw == share) && leb share remaining && has_split due (remaining - share) (q ∷ rs)

abbrev pub is_created_event : EventName → Bool
is_created_event invoice_created = true
is_created_event _ = false

abbrev pub is_unpaid : Status → Bool
is_unpaid unpaid = true
is_unpaid _ = false

-- `const same`
abbrev pub same_receipt : Receipt → Receipt → Bool
same_receipt a b =
    (a.block_number == b.block_number)
    && (a.block_hash == b.block_hash)
    && (a.tx_hash == b.tx_hash)
    && (a.log_index == b.log_index)

-- What fails in one block.
abbrev pub is_disordered : Invoice → Bool
is_disordered v =
    not (v.created.block_hash == v.updated.block_hash)
    || ltb v.updated.log_index v.created.log_index
    || not (is_unpaid v.status) && (v.created.log_index == v.updated.log_index)

abbrev pub has_order : Invoice → Bool
has_order v =
    is_created_event v.created.event
    && leb v.created.block_number v.updated.block_number
    && not ((v.created.block_number == v.updated.block_number) && is_disordered v)

abbrev pub is_null : Option Payment → Bool
is_null none = true
is_null (some p) = false

-- The event that a status comes from.
abbrev pub is_event_of : Status → EventName → Bool
is_event_of unpaid invoice_created = true
is_event_of paid invoice_paid = true
is_event_of cancelled invoice_cancelled = true
is_event_of _ _ = false

abbrev pub has_provenance : Status → Invoice → Bool
has_provenance unpaid v =
    (v.version == 1)
    && same_receipt v.created v.updated
    && is_event_of unpaid v.updated.event
    && is_null v.payment
has_provenance paid v =
    (v.version == 2)
    && not (same_receipt v.created v.updated)
    && is_event_of paid v.updated.event
    && not (is_null v.payment)
has_provenance cancelled v =
    (v.version == 2)
    && not (same_receipt v.created v.updated)
    && is_event_of cancelled v.updated.event
    && is_null v.payment

abbrev pub same_flag : Bool → Bool → Bool
same_flag true b = b
same_flag false b = not b

-- The tests of a payment against the amount due.
abbrev pub settles : Invoice → Option Payment → Bool
settles v none = true
settles v (some p) =
    let direct = same p.token_in v.settlement_token.address in
    same p.input_token.address p.token_in
    && (p.received_raw == v.amount_due_raw + p.refund_raw)
    && same_flag (p.route_hash == 0) direct
    && same_flag p.is_direct direct
    && (not direct
        || (p.input_raw == v.amount_due_raw)
          && (p.received_raw == v.amount_due_raw)
          && (p.refund_raw == 0))

-- `invoiceReadSchema`
unfoldable pub is_invoice : Invoice → Bool
is_invoice v =
    has_invoice_shape v
    && has_shares v.recipients
    && has_split v.amount_due_raw v.amount_due_raw v.recipients
    && has_order v
    && has_provenance v.status v
    && (v.settlement_token.decimals == 6)
    && settles v v.payment
