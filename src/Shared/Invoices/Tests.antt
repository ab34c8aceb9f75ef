-- ===== src/Shared/Invoices/Tests.antt =====
-- An invoice (packages/shared/src/index.ts) of 901 units, shared by 2500 and 7500, that a swap paid.
use aqua_orbital.Prelude.{ℕ, ◌≡◌, refl, true, false, [], ◌∷◌, some}
use aqua_orbital.Shared.{Address, Token}
use aqua_orbital.Shared.Invoices.{
  EventName, invoice_created, invoice_paid, Receipt, Payment, paid, Invoice, has_split, is_invoice,
}
use aqua_orbital.Shared.Invoices.Laws.{IsSound, is_invoice-IsSound}

abbrev at : ℕ → Address
at n = record { value = n; is_checked = true }

abbrev token : ℕ → Token
token n = record { address = at n; symbol = b'T' ∷ []; decimals = 6; mock = true }

abbrev receipt : ℕ → EventName → Receipt
receipt n event = record {
  block_number = n;
  block_hash = n;
  tx_hash = n;
  log_index = 0;
  event = event;
}

abbrev payment : Payment
payment = record {
  payer = at 7;
  token_in = at 12;
  input_token = token 12;
  input_raw = 1000;
  received_raw = 950;
  refund_raw = 49;
  route_hash = 5;
  is_direct = false;
}

abbrev invoice : Invoice
invoice = record {
  invoice_id = 1;
  merchant = at 9;
  adapter = at 23;
  amount_due_raw = 901;
  expires_at = 2000;
  recipients =
      record { address = at 31; bps = 2500; amount_raw = 225 }
      ∷ record { address = at 32; bps = 7500; amount_raw = 676 }
      ∷ [];
  memo_hash = 5;
  status = paid;
  version = 2;
  created = receipt 10 invoice_created;
  updated = receipt 12 invoice_paid;
  settlement_token = token 11;
  payment = some payment;
}

invoice-accepted : is_invoice invoice ≡ true
unfolding is_invoice has_split
invoice-accepted = refl

is_invoice-IsSound_example : IsSound invoice
is_invoice-IsSound_example = is_invoice-IsSound invoice invoice-accepted
