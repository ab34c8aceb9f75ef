-- ===== src/Projections/Invoices/Books.antt =====
-- Every run of invoice events (packages/db/src/materialization.ts) leaves the books in order.
use mathlib.Core.Path.{subst}
use aqua_orbital.Prelude.{
  ℕ, ◌+◌, ◌≡◌, ◌<◌, refl, sym, ◌∙◌, true, false, ◌||◌, List, [], ◌∷◌, none, some, ◌==◌, ==_iff, All,
  any, arith, Bool-cases, inl, inr, ok, >>=-elim, ok-injective, fail_if->>-eq-ok,
}
use aqua_orbital.Projections.{
  invalid_invoice_transition, check_violation, unique_violation, Source, is_before,
}
use aqua_orbital.Projections.Invoices.{
  paid, cancelled, Payment, Snapshot, Kind, invoice_created, invoice_cancelled, invoice_paid, Event,
  later, latest, is_bad_payment, payable, invoice_value, same_key, insert_snapshot, invoice_event,
  invoice_events,
}
use aqua_orbital.Projections.Invoices.Settled.{
  IsLife, rows_of, AreBefore, IsOrdered, first_of, latest-first_of, settles,
}

-- The table in order, with each invoice opened once and settled at most once.
pub record IsBooks (rs : List Snapshot) : Type 0 where
  pub ordered : IsOrdered rs
  pub lives : (id : ℕ) → IsLife (rows_of id rs)

-- What a stored row is, on top of the rows of its invoice.
record Booked (event : Event) (row : Snapshot) (rows : List Snapshot) : Type 0 where
  invoice : row.invoice_id ≡ event.entity
  source : row.source ≡ event.source
  life : 0 < row.terms.amount_due → IsLife (row ∷ rows)

is_bad_payment_lem :
    (due : ℕ) (p : Payment)
    → is_bad_payment due p ≡ false
    → (0 < p.input) × (p.received ≡ due + p.refund)
is_bad_payment_lem due p h = ground arith

invoice_value-Booked :
    (event : Event) (k : Kind) (rows : List Snapshot) (row : Snapshot)
    → invoice_value event k (first_of rows) ≡ ok row
    → IsLife rows
    → Booked event row rows
unfolding invoice_value
invoice_value-Booked event (invoice_created terms) [] row e life =
    subst (λ (x : Snapshot). Booked event x []) (ok-injective e)
      (record {
        invoice = refl;
        source = refl;
        life = λ due. record {
          status = refl;
          version = refl;
          payment = refl;
          created = refl;
          due = due;
        };
      })
invoice_value-Booked event (invoice_created terms) (r ∷ rows) row e life = cc
invoice_value-Booked event invoice_cancelled rows row e life =
    >>=-elim (payable event (first_of rows)) _ e (λ prior known done.
      subst (λ (x : Snapshot). Booked event x rows) (ok-injective done)
        (record {
          invoice = refl;
          source = refl;
          life = λ due. settles event prior cancelled none rows known life refl;
        }))
invoice_value-Booked event (invoice_paid p) rows row e life =
    >>=-elim (payable event (first_of rows)) _ e (λ prior known e1.
      let (good, done) =
        fail_if->>-eq-ok (is_bad_payment prior.terms.amount_due p) invalid_invoice_transition _
          e1 in
      subst (λ (x : Snapshot). Booked event x rows) (ok-injective done)
        (record {
          invoice = refl;
          source = refl;
          life = λ due.
              settles event prior paid (some p) rows known life
                (is_bad_payment_lem prior.terms.amount_due p good);
        }))

insert_snapshot-ok :
    (r : Snapshot) (rs : List Snapshot) {out : List Snapshot}
    → insert_snapshot r rs ≡ ok out
    → (out ≡ r ∷ rs) × (0 < r.terms.amount_due)
unfolding insert_snapshot
insert_snapshot-ok r rs e =
    let (good, e1) =
      fail_if->>-eq-ok ((r.terms.amount_due == 0) || (r.terms.expires_at == 0)) check_violation _
        e in
    let (new, done) = fail_if->>-eq-ok (any (same_key r) rs) unique_violation _ e1 in
    (sym (ok-injective done), ground arith)

cons-IsBooks :
    (event : Event) (row : Snapshot) (rs : List Snapshot)
    → IsBooks rs
    → AreBefore event.source rs
    → Booked event row (rows_of event.entity rs)
    → 0 < row.terms.amount_due
    → IsBooks (row ∷ rs)
cons-IsBooks event row rs h before c due = record {
  ordered = (subst (λ (at : Source). AreBefore at rs) (sym c.source) before, h.ordered);
  lives = λ id. elim (Bool-cases (row.invoice_id == id)) [
    | inl e ↦ rw e (
        subst (λ i. IsLife (row ∷ rows_of i rs)) (sym c.invoice ∙ (==_iff row.invoice_id id).0 e)
          (c.life due))
    | inr e ↦ rw e (h.lives id)
  ];
}

-- The events that are newer than the rows, each one newer than those before it.
abbrev pub AreNewer : List Snapshot → List Event → Type 0
AreNewer rs es = All (λ (event : Event). AreBefore event.source rs) es

abbrev pub AreInOrder : List Event → Type 0
AreInOrder [] = Unit
AreInOrder (event ∷ es) =
    All (λ (f : Event). is_before event.source f.source ≡ true) es × AreInOrder es

cons-AreNewer :
    (row : Snapshot) (rs : List Snapshot) (es : List Event)
    → All (λ (f : Event). is_before row.source f.source ≡ true) es
    → AreNewer rs es
    → AreNewer (row ∷ rs) es
cons-AreNewer row rs [] h k = tt
cons-AreNewer row rs (event ∷ es) h k = ((h.0, k.0), cons-AreNewer row rs es h.1 k.1)

invoice_event-IsBooks :
    (event : Event) (es : List Event) (rs out : List Snapshot)
    → invoice_event event rs ≡ ok out
    → IsBooks rs
    → AreBefore event.source rs
    → All (λ (f : Event). is_before event.source f.source ≡ true) es
    → AreNewer rs es
    → IsBooks out × AreNewer out es
unfolding invoice_event
invoice_event-IsBooks event es rs out e h before later newer =
    let rows = rows_of event.entity rs in
    let last = latest-first_of event.entity rs h.ordered in
    >>=-elim (invoice_value event event.kind (latest event.entity rs)) _ e (λ row made stored.
      let (placed, due) = insert_snapshot-ok row rs stored in
      let c =
        invoice_value-Booked event event.kind rows row (rw last at made) (h.lives event.entity) in
      subst (λ xs. IsBooks xs × AreNewer xs es) (sym placed)
        (
          cons-IsBooks event row rs h before c due,
          cons-AreNewer row rs es
              (subst (λ (at : Source). All (λ (f : Event). is_before at f.source ≡ true) es)
                (sym c.source) later)
              newer,
        ))

-- If invoice events in the order of their blocks and logs are applied to books whose rows are all older,
-- and none throws, then the books stay in order: each invoice has a row that opens it unpaid, with a
-- positive amount, and at most one more, of the same merchant and terms, that cancels it or pays it with
-- what was received less the refund equal to the amount due.
pub invoice_events-IsBooks :
    (es : List Event) (rs out : List Snapshot)
    → invoice_events es rs ≡ ok out
    → AreInOrder es
    → AreNewer rs es
    → IsBooks rs
    → IsBooks out
unfolding invoice_events
invoice_events-IsBooks [] rs out e increasing newer h = subst IsBooks (ok-injective e) h
invoice_events-IsBooks (event ∷ es) rs out e increasing newer h =
    >>=-elim (invoice_event event rs) _ e (λ next stepped rest.
      let (kept, still_newer) =
        invoice_event-IsBooks event es rs next stepped h newer.0 increasing.0 newer.1 in
      invoice_events-IsBooks es next out rest increasing.1 still_newer kept)
