-- ===== src/Projections/Invoices/Settled.antt =====
-- An invoice is settled once (packages/db/src/materialization.ts, `invoiceEvent`).
use mathlib.Core.Path.{subst}
use aqua_orbital.Prelude.{
  ℕ, ◌+◌, ◌≡◌, ◌<◌, refl, sym, ap, ◌∙◌, true, ◌||◌, not, List, [], ◌∷◌, Option, none, some, ◌==◌,
  ==_iff, All, Bool-cases, inl, inr, ok, ok-injective, fail_if->>-eq-ok, ||-eq-false,
}
use aqua_orbital.Chain.Table.{filter_by}
use aqua_orbital.Projections.{invalid_invoice_transition, Source, is_before}
use aqua_orbital.Projections.Strategies.Lives.{is_before-asym, not-eq-false}
use aqua_orbital.Projections.Invoices.{
  Status, unpaid, paid, cancelled, is_unpaid, Payment, Snapshot, Event, later, latest, settled,
  payable,
}

-- A row that opens an invoice.
pub record IsOpened (r : Snapshot) : Type 0 where
  pub status : r.status ≡ unpaid
  pub version : r.version ≡ 1
  pub payment : r.payment ≡ none
  pub created : r.created ≡ r.source
  pub due : 0 < r.terms.amount_due

-- A payment that leaves the merchant exactly the amount due.
abbrev pub IsPayment : ℕ → Status → Option Payment → Type 0
IsPayment due unpaid p = ⊥
IsPayment due cancelled p = p ≡ none
IsPayment due paid none = ⊥
IsPayment due paid (some p) = (0 < p.input) × (p.received ≡ due + p.refund)

-- A row that settles the invoice that another one opened.
pub record IsSettled (r opened : Snapshot) : Type 0 where
  pub version : r.version ≡ 2
  pub merchant : r.merchant ≡ opened.merchant
  pub terms : r.terms ≡ opened.terms
  pub created : r.created ≡ opened.created
  pub payment : IsPayment opened.terms.amount_due r.status r.payment

-- The rows of one invoice, the newest first: none, the one that opens it, or one more that settles it.
abbrev pub IsLife : List Snapshot → Type 0
IsLife [] = Unit
IsLife (r ∷ []) = IsOpened r
IsLife (r ∷ q ∷ []) = IsSettled r q × IsOpened q
IsLife (r ∷ q ∷ p ∷ rs) = ⊥

abbrev pub rows_of : ℕ → List Snapshot → List Snapshot
rows_of id rs = filter_by (λ (r : Snapshot). r.invoice_id == id) rs

abbrev pub AreBefore : Source → List Snapshot → Type 0
AreBefore at rs = All (λ (q : Snapshot). is_before q.source at ≡ true) rs

abbrev pub IsOrdered : List Snapshot → Type 0
IsOrdered [] = Unit
IsOrdered (r ∷ rs) = AreBefore r.source rs × IsOrdered rs

abbrev pub first_of : List Snapshot → Option Snapshot
first_of [] = none
first_of (r ∷ rs) = some r

later-first_of :
    (id : ℕ) (r : Snapshot) (rs : List Snapshot)
    → AreBefore r.source rs
    → later r (first_of (rows_of id rs)) ≡ r
later-first_of id r [] h = refl
later-first_of id r (q ∷ rs) h = elim (Bool-cases (q.invoice_id == id)) [
  | inl e ↦ rw e (rw (is_before-asym q.source r.source h.0) refl)
  | inr e ↦ rw e (later-first_of id r rs h.1)
]

pub latest-first_of :
    (id : ℕ) (rs : List Snapshot) → IsOrdered rs → latest id rs ≡ first_of (rows_of id rs)
unfolding latest
latest-first_of id [] ordered = refl
latest-first_of id (r ∷ rs) ordered =
    let rest = latest-first_of id rs ordered.1 in
    elim (Bool-cases (r.invoice_id == id)) [
      | inl e ↦ rw e (rw rest (ap some (later-first_of id r rs ordered.0)))
      | inr e ↦ rw e rest
    ]

is_unpaid-paid : (s : Status) → is_unpaid s ≡ true → s ≡ unpaid
is_unpaid-paid unpaid h = refl
is_unpaid-paid paid h = cc
is_unpaid-paid cancelled h = cc

payable-ok :
    (event : Event) (found : Option Snapshot) (prior : Snapshot)
    → payable event found ≡ ok prior
    → (found ≡ some prior) × (prior.status ≡ unpaid) × (event.maker ≡ prior.merchant)
unfolding payable
payable-ok event none prior h = cc
payable-ok event (some p) prior h =
    let (bad, done) =
      fail_if->>-eq-ok (not (is_unpaid p.status) || not (p.merchant == event.maker))
        invalid_invoice_transition _ h in
    let (is_open, maker) = ||-eq-false (not (is_unpaid p.status)) _ bad in
    let same_row = ok-injective done in
    (
      ap some same_row,
      subst (λ (x : Snapshot). x.status ≡ unpaid) same_row
          (is_unpaid-paid p.status (not-eq-false _ is_open)),
      subst (λ (x : Snapshot). event.maker ≡ x.merchant) same_row
          (sym ((==_iff p.merchant event.maker).0 (not-eq-false _ maker))),
    )

some-injective : {a b : Snapshot} → ◌≡◌ {A = Option Snapshot} (some a) (some b) → a ≡ b
some-injective h = cc

-- The only row of an invoice that can be settled.
pub settles :
    (event : Event) (prior : Snapshot) (s : Status) (p : Option Payment) (rows : List Snapshot)
    → payable event (first_of rows) ≡ ok prior
    → IsLife rows
    → IsPayment prior.terms.amount_due s p
    → IsLife (settled event prior s p ∷ rows)
settles event prior s p [] known life good = let found = (payable-ok event none prior known).0 in cc
settles event prior s p (q ∷ []) known life good =
    let (found, is_open, maker) = payable-ok event (some q) prior known in
    let same_row = some-injective found in
    (
      record {
        version = refl;
        merchant = subst (λ (x : Snapshot). event.maker ≡ x.merchant) (sym same_row) maker;
        terms = ap (λ (x : Snapshot). x.terms) (sym same_row);
        created = ap (λ (x : Snapshot). x.created) (sym same_row);
        payment = subst (λ (x : Snapshot). IsPayment x.terms.amount_due s p) (sym same_row) good;
      },
      life,
    )
settles event prior s p (r ∷ q ∷ []) known life good =
    let (found, is_open, maker) = payable-ok event (some r) prior known in
    let still = ap (λ (x : Snapshot). x.status) (some-injective found) ∙ is_open in
    elim (subst (λ st. IsPayment q.terms.amount_due st r.payment) still life.0.payment) [ ]
settles event prior s p (r ∷ q ∷ t ∷ rows) known life good = elim life [ ]
