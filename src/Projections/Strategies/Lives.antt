-- ===== src/Projections/Strategies/Lives.antt =====
-- The rows of a strategy are its life (packages/db/src/materialization.ts, `strategyEvent`).
use mathlib.Core.Path.{subst}
use aqua_orbital.Prelude.{
  ℕ, ◌+◌, ◌^◌, ◌<◌, leb, ◌≡◌, refl, sym, ap, Bool, true, false, ◌||◌, not, List, [], ◌∷◌, Option,
  none, some, ◌==◌, ==_iff, All, arith, Bool-cases, inl, inr, ok, >>=-elim, ok-injective,
  fail_if->>-eq-ok, ||-eq-false,
}
use aqua_orbital.Chain.Table.{filter_by}
use aqua_orbital.Projections.{Error, invalid_swap_transition, Source, is_before, uint}
use aqua_orbital.Projections.Strategies.{
  Lifecycle, is_active, Snapshot, Event, later, prior_of, follows, next_of,
}

-- The rows of an order, the newest first.
abbrev pub rows_of : ℕ → List Snapshot → List Snapshot
rows_of order rs = filter_by (λ (r : Snapshot). r.order_hash == order) rs

-- The versions count from 1, the maker and the configuration stay, and only the last row is retired.
abbrev pub IsLife : List Snapshot → Type 0
IsLife [] = Unit
IsLife (r ∷ []) = (r.version ≡ 1) × (is_active r.lifecycle ≡ true)
IsLife (r ∷ q ∷ rs) =
    (r.version ≡ q.version + 1)
    × (is_active q.lifecycle ≡ true)
    × (r.maker ≡ q.maker)
    × (r.config_hash ≡ q.config_hash)
    × IsLife (q ∷ rs)

abbrev pub AreBefore : Source → List Snapshot → Type 0
AreBefore at rs = All (λ (q : Snapshot). is_before q.source at ≡ true) rs

-- The newest row is first.
abbrev pub IsOrdered : List Snapshot → Type 0
IsOrdered [] = Unit
IsOrdered (r ∷ rs) = AreBefore r.source rs × IsOrdered rs

abbrev pub first_of : List Snapshot → Option Snapshot
first_of [] = none
first_of (r ∷ rs) = some r

pub is_before-asym : (a b : Source) → is_before a b ≡ true → is_before b a ≡ false
is_before-asym a b h = ground arith

later-first_of :
    (order : ℕ) (r : Snapshot) (rs : List Snapshot)
    → AreBefore r.source rs
    → later r (first_of (rows_of order rs)) ≡ r
later-first_of order r [] h = refl
later-first_of order r (q ∷ rs) h = elim (Bool-cases (q.order_hash == order)) [
  | inl e ↦ rw e (rw (is_before-asym q.source r.source h.0) refl)
  | inr e ↦ rw e (later-first_of order r rs h.1)
]

-- Below an event that is newer than all rows, the prior row is the newest one of its order.
pub prior_of-first_of :
    (order : ℕ) (at : Source) (rs : List Snapshot)
    → IsOrdered rs
    → AreBefore at rs
    → prior_of order at rs ≡ first_of (rows_of order rs)
unfolding prior_of
prior_of-first_of order at [] ordered before = refl
prior_of-first_of order at (r ∷ rs) ordered before =
    let rest = prior_of-first_of order at rs ordered.1 before.1 in
    elim (Bool-cases (r.order_hash == order)) [
      | inl e ↦ rw e (rw before.0 (rw rest (ap some (later-first_of order r rs ordered.0))))
      | inr e ↦ rw e rest
    ]

pub not-eq-false : (b : Bool) → not b ≡ false → b ≡ true
not-eq-false true e = refl
not-eq-false false e = cc

some-injective : {a b : Snapshot} → ◌≡◌ {A = Option Snapshot} (some a) (some b) → a ≡ b
some-injective h = cc

-- What a row that follows has seen.
pub record Followed (event : Event) (given : Option ℕ) (found : Option Snapshot) (version : ℕ)
    (prior : Snapshot) : Type 0 where
  pub known : found ≡ some prior
  pub stated : given ≡ some version
  pub next : version ≡ prior.version + 1
  pub alive : is_active prior.lifecycle ≡ true
  pub maker : event.maker ≡ prior.maker

pub uint-some :
    (v : Option ℕ) (bits : ℕ) {n : ℕ} → uint v bits ≡ ok n → (v ≡ some n) × (n < 2 ^ bits)
uint-some none bits e = cc
uint-some (some v) bits {n} e =
    let (small, done) = fail_if->>-eq-ok (leb (2 ^ bits) v) invalid_swap_transition _ e in
    let same_value = ok-injective done in
    (ap some same_value, subst (λ m. m < 2 ^ bits) same_value (ground arith))

pub follows-Followed :
    (e : Error) (event : Event) (given : Option ℕ) (found : Option Snapshot)
    (followed : ℕ × Snapshot)
    → follows e event given found ≡ ok followed
    → Followed event given found followed.0 followed.1
unfolding follows
follows-Followed e event given none followed h = cc
follows-Followed e event given (some p) followed h =
    let (bad, rest) =
      fail_if->>-eq-ok (not (is_active p.lifecycle) || not (p.maker == event.maker)) e _ h in
    let (alive, maker) = ||-eq-false (not (is_active p.lifecycle)) _ bad in
    >>=-elim (uint given 64) _ rest (λ v read rest2.
      let (versioned, done) = fail_if->>-eq-ok (not (v == p.version + 1)) e _ rest2 in
      subst (λ (x : ℕ × Snapshot). Followed event given (some p) x.0 x.1) (ok-injective done)
        (record {
          known = refl;
          stated = (uint-some given 64 read).0;
          next = (==_iff v (p.version + 1)).0 (not-eq-false _ versioned);
          alive = not-eq-false _ alive;
          maker = sym ((==_iff p.maker event.maker).0 (not-eq-false _ maker));
        }))

-- A row that is put before the rows of its order.
pub record Continues (event : Event) (row : Snapshot) (rows : List Snapshot) : Type 0 where
  pub order : row.order_hash ≡ event.entity
  pub source : row.source ≡ event.source
  pub life : IsLife (row ∷ rows)

pub first_of-none : (rs : List Snapshot) → first_of rs ≡ none → rs ≡ []
first_of-none [] h = refl
first_of-none (r ∷ rs) h = cc

pub next_of-Continues :
    (event : Event) (l : Lifecycle) (given : Option ℕ) (followed : ℕ × Snapshot)
    (rows : List Snapshot)
    → Followed event given (first_of rows) followed.0 followed.1
    → IsLife rows
    → Continues event (next_of event l followed) rows
next_of-Continues event l given (version, prior) [] f h = let e = f.known in cc
next_of-Continues event l given (version, prior) (q ∷ rows) f h =
    let same_row : q ≡ prior = some-injective f.known in
    record {
      order = refl;
      source = refl;
      life = (
        subst (λ (x : Snapshot). version ≡ x.version + 1) (sym same_row) f.next,
        subst (λ (x : Snapshot). is_active x.lifecycle ≡ true) (sym same_row) f.alive,
        subst (λ (x : Snapshot). event.maker ≡ x.maker) (sym same_row) f.maker,
        ap (λ (x : Snapshot). x.config_hash) (sym same_row),
        h,
      );
    }
