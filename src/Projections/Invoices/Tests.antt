-- ===== src/Projections/Invoices/Tests.antt =====
-- An invoice that is opened and paid, and one that is cancelled
-- (packages/db/src/materialization.ts).
use aqua_orbital.Prelude.{ℕ, ◌≡◌, refl, List, [], ◌∷◌, Option, none, some, ok, err}
use aqua_orbital.Projections.{Source, invalid_invoice_transition}
use aqua_orbital.Projections.Invoices.{
  Status, unpaid, paid, cancelled, Terms, Payment, Snapshot, Kind, invoice_created,
  invoice_cancelled, invoice_paid, Event, latest, payable, invoice_value, insert_snapshot,
  invoice_event, invoice_events,
}
use aqua_orbital.Projections.Invoices.Books.{IsBooks, invoice_events-IsBooks}

abbrev at : (block log : ℕ) → Source
at block log = record { block_number = block; block_hash = block; tx_hash = 1; log_index = log }

abbrev terms : Terms
terms = record { amount_due = 900; expires_at = 2000; recipients = 6; memo_hash = 5 }

abbrev event : ℕ → Source → Kind → Event
event entity source kind = record { entity = entity; maker = 9; source = source; kind = kind }

abbrev payment : Payment
payment = record {
  payer = 7;
  token_in = 12;
  input = 1000;
  received = 950;
  refund = 50;
  route_hash = 3;
}

abbrev row : ℕ → Status → ℕ → Option Payment → (created source : Source) → Snapshot
row id status version p created source = record {
  invoice_id = id;
  merchant = 9;
  terms = terms;
  status = status;
  version = version;
  payment = p;
  created = created;
  source = source;
}

abbrev events : List Event
events =
    event 1 (at 10 0) (invoice_created terms)
    ∷ event 2 (at 10 4) (invoice_created terms)
    ∷ event 1 (at 11 2) (invoice_paid payment)
    ∷ event 2 (at 12 0) invoice_cancelled
    ∷ []

abbrev rows : List Snapshot
rows =
    row 2 cancelled 2 none (at 10 4) (at 12 0)
    ∷ row 1 paid 2 (some payment) (at 10 0) (at 11 2)
    ∷ row 2 unpaid 1 none (at 10 4) (at 10 4)
    ∷ row 1 unpaid 1 none (at 10 0) (at 10 0)
    ∷ []

run : invoice_events events [] ≡ ok rows
unfolding invoice_events invoice_event invoice_value latest payable insert_snapshot
run = refl

-- A second payment is refused.
paid_again :
    invoice_event (event 1 (at 13 0) (invoice_paid payment)) rows ≡ err invalid_invoice_transition
unfolding invoice_event invoice_value latest payable
paid_again = refl

invoice_events-IsBooks_example : IsBooks rows
invoice_events-IsBooks_example =
    invoice_events-IsBooks events [] rows run
      ((refl, (refl, (refl, tt))), ((refl, (refl, tt)), ((refl, tt), (tt, tt))))
      (tt, (tt, (tt, (tt, tt)))) (record { ordered = tt; lives = λ id. tt })
