-- ===== src/Projections/Strategies/Histories.antt =====
-- Every run of strategy events (packages/db/src/materialization.ts) leaves lives in the table.
use mathlib.Core.Path.{subst}
use aqua_orbital.Prelude.{
  ℕ, ◌≡◌, refl, sym, ◌∙◌, true, not, List, [], ◌∷◌, Option, ◌==◌, ==_iff, All, any, Bool-cases, inl,
  inr, ok, >>=-elim, ok-injective, fail_if->>-eq-ok,
}
use aqua_orbital.Projections.{
  invalid_strategy_transition, invalid_swap_transition, conflicting_strategy_snapshot, Scope,
  Source, is_before,
}
use aqua_orbital.Projections.Strategies.{
  active, retired, Snapshot, Swap, Kind, strategy_activated, strategy_retired, strategy_swap, Event,
  Receipt, Tables, later, prior_of, follows, swap_rows, swap_event, same_row, same_key,
  insert_snapshot, strategy_value, strategy_event, strategy_events,
}
use aqua_orbital.Projections.Strategies.Lives.{
  rows_of, IsLife, AreBefore, IsOrdered, first_of, prior_of-first_of, Followed, follows-Followed,
  Continues, next_of-Continues,
}

swap_event-Followed :
    (scope : Scope) (event : Event) (s : Swap) (found : Option Snapshot) (rs : List Receipt)
    {x : (ℕ × Snapshot) × List Receipt}
    → swap_event scope event s found rs ≡ ok x
    → Followed event s.version found x.0.0 x.0.1
unfolding swap_event
swap_event-Followed scope event s found rs e =
    >>=-elim (follows invalid_swap_transition event s.version found) _ e (λ prior followed e1.
      >>=-elim (swap_rows scope event s prior.0 prior.1 rs) _ e1 (λ rows stored e2.
        subst (λ (y : (ℕ × Snapshot) × List Receipt). Followed event s.version found y.0.0 y.0.1)
          (ok-injective e2)
          (follows-Followed invalid_swap_transition event s.version found prior followed)))

strategy_value-Continues :
    (scope : Scope) (event : Event) (k : Kind) (rows : List Snapshot) (rs : List Receipt)
    {x : Snapshot × List Receipt}
    → strategy_value scope event k (first_of rows) rs ≡ ok x
    → IsLife rows
    → Continues event x.0 rows
unfolding strategy_value
strategy_value-Continues scope event (strategy_activated h c n ts) [] rs e life =
    subst (λ (y : Snapshot × List Receipt). Continues event y.0 []) (ok-injective e)
      (record { order = refl; source = refl; life = (refl, refl) })
strategy_value-Continues scope event (strategy_activated h c n ts) (r ∷ rows) rs e life = cc
strategy_value-Continues scope event (strategy_retired version) rows rs e life =
    >>=-elim (follows invalid_strategy_transition event version (first_of rows)) _ e
      (λ prior followed done.
        subst (λ (y : Snapshot × List Receipt). Continues event y.0 rows) (ok-injective done)
          (next_of-Continues event retired version prior rows
            (follows-Followed invalid_strategy_transition event version (first_of rows) prior
              followed)
            life))
strategy_value-Continues scope event (strategy_swap s) rows rs e life =
    >>=-elim (swap_event scope event s (first_of rows) rs) _ e (λ swapped known done.
      subst (λ (y : Snapshot × List Receipt). Continues event y.0 rows) (ok-injective done)
        (next_of-Continues event active s.version swapped.0 rows
          (swap_event-Followed scope event s (first_of rows) rs known) life))

-- The table of the snapshots in order, with one life for each order.
pub record IsHistory (rs : List Snapshot) : Type 0 where
  pub ordered : IsOrdered rs
  pub lives : (order : ℕ) → IsLife (rows_of order rs)

insert_snapshot-cases :
    (r : Snapshot) (rs : List Snapshot) (P : List Snapshot → Type 0) {out : List Snapshot}
    → insert_snapshot r rs ≡ ok out
    → P rs
    → P (r ∷ rs)
    → P out
unfolding insert_snapshot
insert_snapshot-cases r rs P e old new = elim (Bool-cases (any (same_key r) rs)) [
  | inl known ↦
      let (stored, done) =
        fail_if->>-eq-ok (not (any (same_row r) rs)) conflicting_strategy_snapshot _
          (rw known at e) in
      subst P (ok-injective done) old
  | inr fresh ↦ subst P (ok-injective (rw fresh at e)) new
]

cons-IsHistory :
    (event : Event) (row : Snapshot) (rs : List Snapshot)
    → IsHistory rs
    → AreBefore event.source rs
    → Continues event row (rows_of event.entity rs)
    → IsHistory (row ∷ rs)
cons-IsHistory event row rs h before c = record {
  ordered = (subst (λ (at : Source). AreBefore at rs) (sym c.source) before, h.ordered);
  lives = λ order. elim (Bool-cases (row.order_hash == order)) [
    | inl e ↦ rw e (
        subst (λ o. IsLife (row ∷ rows_of o rs)) (sym c.order ∙ (==_iff row.order_hash order).0 e)
          c.life)
    | inr e ↦ rw e (h.lives order)
  ];
}

-- The events that are newer than the rows, each one newer than those before it.
abbrev pub AreNewer : List Snapshot → List Event → Type 0
AreNewer rs es = All (λ (event : Event). AreBefore event.source rs) es

abbrev pub AreInOrder : List Event → Type 0
AreInOrder [] = Unit
AreInOrder (event ∷ es) =
    All (λ (f : Event). is_before event.source f.source ≡ true) es × AreInOrder es

cons-AreNewer :
    (row : Snapshot) (rs : List Snapshot) (es : List Event)
    → All (λ (f : Event). is_before row.source f.source ≡ true) es
    → AreNewer rs es
    → AreNewer (row ∷ rs) es
cons-AreNewer row rs [] h k = tt
cons-AreNewer row rs (event ∷ es) h k = ((h.0, k.0), cons-AreNewer row rs es h.1 k.1)

strategy_event-IsHistory :
    (scope : Scope) (event : Event) (es : List Event) (t : Tables) {t' : Tables}
    → strategy_event scope event t ≡ ok t'
    → IsHistory t.snapshots
    → AreBefore event.source t.snapshots
    → All (λ (f : Event). is_before event.source f.source ≡ true) es
    → AreNewer t.snapshots es
    → IsHistory t'.snapshots × AreNewer t'.snapshots es
unfolding strategy_event
strategy_event-IsHistory scope event es t e h before later newer =
    let rows = rows_of event.entity t.snapshots in
    let prior = prior_of-first_of event.entity event.source t.snapshots h.ordered before in
    >>=-elim
      (strategy_value scope event event.kind (prior_of event.entity event.source t.snapshots)
        t.receipts)
      _ e
      (λ value made e1. >>=-elim (insert_snapshot value.0 t.snapshots) _ e1 (λ snapshots stored e2.
        let c =
          strategy_value-Continues scope event event.kind rows t.receipts (rw prior at made)
            (h.lives event.entity) in
        subst (λ (u : Tables). IsHistory u.snapshots × AreNewer u.snapshots es) (ok-injective e2)
          (insert_snapshot-cases value.0 t.snapshots (λ out. IsHistory out × AreNewer out es) stored
            (h, newer)
            (
              cons-IsHistory event value.0 t.snapshots h before c,
              cons-AreNewer value.0 t.snapshots es
                  (subst (λ (at : Source). All (λ (f : Event). is_before at f.source ≡ true) es)
                    (sym c.source) later)
                  newer,
            ))))

-- If strategy events in the order of their blocks and logs are applied from a table whose rows are all
-- older, and that is a history, and none throws, then the table is a history: its rows are in order, and
-- those of each strategy have versions that count from 1, one maker and one configuration, and none
-- after a retirement.
pub strategy_events-IsHistory :
    (scope : Scope) (es : List Event) (t : Tables) (t' : Tables)
    → strategy_events scope es t ≡ ok t'
    → AreInOrder es
    → AreNewer t.snapshots es
    → IsHistory t.snapshots
    → IsHistory t'.snapshots
unfolding strategy_events
strategy_events-IsHistory scope [] t t' e increasing newer h =
    subst (λ (u : Tables). IsHistory u.snapshots) (ok-injective e) h
strategy_events-IsHistory scope (event ∷ es) t t' e increasing newer h =
    >>=-elim (strategy_event scope event t) _ e (λ next stepped rest.
      let (kept, still_newer) =
        strategy_event-IsHistory scope event es t stepped h newer.0 increasing.0 newer.1 in
      strategy_events-IsHistory scope es next t' rest increasing.1 still_newer kept)
