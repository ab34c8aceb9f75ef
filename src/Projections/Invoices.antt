-- ===== src/Projections/Invoices.antt =====
-- `invoiceEvent` of packages/db/src/materialization.ts. The numerals of its events are numbers.
pub mod Settled
pub mod Books
mod Tests
use aqua_orbital.Prelude.{
  ℕ, ◌+◌, Bool, true, false, ◌&&◌, ◌||◌, not, List, [], ◌∷◌, Option, none, some, ltb, leb, ◌==◌,
  any, if◌then◌else◌, Result, ok, err, ◌>>=◌, ◌>>◌, fail_if,
}
use aqua_orbital.Projections.{
  Error, invalid_invoice_transition, unique_violation, check_violation, Source, is_before,
  same_source,
}

pub data Status : Type 0 where
  unpaid paid cancelled : Status

abbrev pub is_unpaid : Status → Bool
is_unpaid unpaid = true
is_unpaid _ = false

-- The terms of `invoice_created`, with its recipients as one text.
pub record Terms : Type 0 where
  pub amount_due : ℕ
  pub expires_at : ℕ
  pub recipients : ℕ
  pub memo_hash : ℕ

-- What `invoice_paid` adds to an event.
pub record Payment : Type 0 where
  pub payer : ℕ
  pub token_in : ℕ
  pub input : ℕ
  pub received : ℕ
  pub refund : ℕ
  pub route_hash : ℕ

-- A row of invoice_snapshots.
pub record Snapshot : Type 0 where
  pub invoice_id : ℕ
  pub merchant : ℕ
  pub terms : Terms
  pub status : Status
  pub version : ℕ
  pub payment : Option Payment
  pub created : Source
  pub source : Source

-- The invoice events of `ProjectionEvent`.
pub data Kind : Type 0 where
  invoice_created : Terms → Kind
  invoice_cancelled : Kind
  invoice_paid : Payment → Kind

pub record Event : Type 0 where
  pub entity : ℕ
  pub maker : ℕ
  pub source : Source
  pub kind : Kind

-- The view invoices: the latest row of each invoice.
abbrev pub later : Snapshot → Option Snapshot → Snapshot
later r none = r
later r (some q) = if is_before r.source q.source then q else r

unfoldable pub latest : ℕ → List Snapshot → Option Snapshot
latest id [] = none
latest id (r ∷ rs) =
    let rest = latest id rs in if r.invoice_id == id then some (later r rest) else rest

-- The tests of a payment against the amount due.
abbrev pub is_bad_payment : ℕ → Payment → Bool
is_bad_payment due p = leb p.input 0 || ltb p.received due || not (p.received == due + p.refund)

-- The row that settles an invoice.
abbrev pub settled : Event → Snapshot → Status → Option Payment → Snapshot
settled event prior status payment = record {
  invoice_id = event.entity;
  merchant = event.maker;
  terms = prior.terms;
  status = status;
  version = 2;
  payment = payment;
  created = prior.created;
  source = event.source;
}

-- `!prior||prior.status!=='unpaid'||prior.merchant!==event.maker`
unfoldable pub payable : Event → Option Snapshot → Result Error Snapshot
payable event none = err invalid_invoice_transition
payable event (some prior) = do
  fail_if (not (is_unpaid prior.status) || not (prior.merchant == event.maker))
      invalid_invoice_transition
  ok prior

-- The row that `invoiceEvent` stores.
unfoldable pub invoice_value : Event → Kind → Option Snapshot → Result Error Snapshot
invoice_value event (invoice_created terms) none = ok (record {
  invoice_id = event.entity;
  merchant = event.maker;
  terms = terms;
  status = unpaid;
  version = 1;
  payment = none;
  created = event.source;
  source = event.source;
})
invoice_value event (invoice_created terms) (some prior) = err invalid_invoice_transition
invoice_value event invoice_cancelled found = do
  prior ← payable event found
  ok (settled event prior cancelled none)
invoice_value event (invoice_paid p) found = do
  prior ← payable event found
  fail_if (is_bad_payment prior.terms.amount_due p) invalid_invoice_transition
  ok (settled event prior paid (some p))

-- The primary key of invoice_snapshots.
abbrev pub same_key : Snapshot → Snapshot → Bool
same_key a b = (a.invoice_id == b.invoice_id) && same_source a.source b.source

-- INSERT INTO invoice_snapshots, whose rows have a positive amount and expiry.
unfoldable pub insert_snapshot : Snapshot → List Snapshot → Result Error (List Snapshot)
insert_snapshot r rs = do
  fail_if ((r.terms.amount_due == 0) || (r.terms.expires_at == 0)) check_violation
  fail_if (any (same_key r) rs) unique_violation
  ok (r ∷ rs)

-- `invoiceEvent`
unfoldable pub invoice_event : Event → List Snapshot → Result Error (List Snapshot)
invoice_event event rs = do
  row ← invoice_value event event.kind (latest event.entity rs)
  insert_snapshot row rs

-- The invoice events of a block in the loop over its projections, or of several blocks.
unfoldable pub invoice_events : List Event → List Snapshot → Result Error (List Snapshot)
invoice_events [] rs = ok rs
invoice_events (event ∷ events) rs = do next ← invoice_event event rs; invoice_events events next
