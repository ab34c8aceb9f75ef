-- ===== src/Projections/Strategies/Paths.antt =====
-- The receipts of `swapEvent` (packages/db/src/materialization.ts): their money and their path.
use mathlib.Core.Path.{subst}
use aqua_orbital.Prelude.{
  ℕ, ◌+◌, ◌*◌, ◌/◌, ◌≡◌, ◌<◌, ◌≤◌, ◌≢◌, sym, ap, ◌∙◌, Bool, true, false, not, ◌||◌, List, [], ◌∷◌,
  Option, none, some, ◌==◌, ==_iff, any, leb, ltb, length, get_elem?, arith, ok, >>=-elim,
  ok-injective, or_fail, or_fail-eq-ok, fail_if->>-eq-ok, ||-eq-false,
}
use aqua_orbital.Projections.{
  invalid_swap_transition, check_violation, unique_violation, Scope, uint,
}
use aqua_orbital.Projections.Strategies.{
  Snapshot, Swap, Event, Receipt, ordinary, index_of, check_path, is_bad_pair, is_bad_party,
  is_bad_money, same_receipt, is_bad_row, insert_receipt, swap_rows, is_active, follows, swap_event,
}
use aqua_orbital.Projections.Strategies.Lives.{not-eq-false, uint-some, follows-Followed}

-- A walk over the ordinary ticks: outward a crossing passes the tick at the position, inward the one
-- below it.
pub data Walk (keys : List ℕ) : ℕ → List (Option ℕ × Bool) → ℕ → Type 0 where
  arrived : {p : ℕ} → Walk keys p [] p
  outward :
      {k p q : ℕ} {cs : List (Option ℕ × Bool)}
      → index_of k keys ≡ some p
      → Walk keys (p + 1) cs q
      → Walk keys p ((some k, false) ∷ cs) q
  inward :
      {k p q : ℕ} {cs : List (Option ℕ × Bool)}
      → index_of k keys ≡ some p
      → Walk keys p cs q
      → Walk keys (p + 1) ((some k, true) ∷ cs) q

abbrev pub IsPath : List ℕ → List (Option ℕ × Bool) → Type 0
IsPath keys cs = (p q : ℕ) × Walk keys p cs q

module _ (keys : List ℕ) where
  check_path-Walk :
      (p : ℕ) (cs : List (Option ℕ × Bool)) {u : Unit {0}}
      → check_path keys (some p) cs ≡ ok u
      → (q : ℕ) × Walk keys p cs q
  unfolding check_path
  check_path-Walk p [] e = (p, arrived)
  check_path-Walk p ((key, false) ∷ cs) e = >>=-elim (uint key 64) _ e (λ k read e1.
      >>=-elim (or_fail (index_of k keys) invalid_swap_transition) _ e1 (λ i found e2.
        let (on_path, e3) = fail_if->>-eq-ok (not (i == p)) invalid_swap_transition _ e2 in
        let (q, walk) = check_path-Walk (i + 1) cs e3 in
        let at = (==_iff i p).0 (not-eq-false _ on_path) in
        (
          q,
          subst (λ o. Walk keys p ((o, false) ∷ cs) q) (sym (uint-some key 64 read).0)
              (subst (λ j. Walk keys j ((some k, false) ∷ cs) q) at
                (outward (or_fail-eq-ok (index_of k keys) _ found) walk)),
        )))
  check_path-Walk p ((key, true) ∷ cs) e = >>=-elim (uint key 64) _ e (λ k read e1.
      >>=-elim (or_fail (index_of k keys) invalid_swap_transition) _ e1 (λ i found e2.
        let (on_path, e3) = fail_if->>-eq-ok (not (i + 1 == p)) invalid_swap_transition _ e2 in
        let (q, walk) = check_path-Walk i cs e3 in
        let at = (==_iff (i + 1) p).0 (not-eq-false _ on_path) in
        (
          q,
          subst (λ o. Walk keys p ((o, true) ∷ cs) q) (sym (uint-some key 64 read).0)
              (subst (λ j. Walk keys j ((some k, true) ∷ cs) q) at
                (inward (or_fail-eq-ok (index_of k keys) _ found) walk)),
        )))

  check_path-IsPath :
      (cs : List (Option ℕ × Bool)) {u : Unit {0}} → check_path keys none cs ≡ ok u → IsPath keys cs
  unfolding check_path
  check_path-IsPath [] e = (0, 0, arrived)
  check_path-IsPath ((key, false) ∷ cs) e = >>=-elim (uint key 64) _ e (λ k read e1.
      >>=-elim (or_fail (index_of k keys) invalid_swap_transition) _ e1 (λ i found e2.
        let (q, walk) = check_path-Walk (i + 1) cs e2 in
        (
          i,
          q,
          subst (λ o. Walk keys i ((o, false) ∷ cs) q) (sym (uint-some key 64 read).0)
              (outward (or_fail-eq-ok (index_of k keys) _ found) walk),
        )))
  check_path-IsPath ((key, true) ∷ cs) e = >>=-elim (uint key 64) _ e (λ k read e1.
      >>=-elim (or_fail (index_of k keys) invalid_swap_transition) _ e1 (λ i found e2.
        let (q, walk) = check_path-Walk i cs e2 in
        (
          i + 1,
          q,
          subst (λ o. Walk keys (i + 1) ((o, true) ∷ cs) q) (sym (uint-some key 64 read).0)
              (inward (or_fail-eq-ok (index_of k keys) _ found) walk),
        )))

-- What a stored receipt says of its swap.
pub record IsReceipt (event : Event) (s : Swap) (prior : Snapshot) (r : Receipt) : Type 0 where
  pub version : r.version ≡ prior.version + 1
  pub stated : s.version ≡ some r.version
  pub conserved : r.net_input + r.fee ≡ r.gross_input
  pub paid : (0 < r.net_input) × (0 < r.fee) × (0 < r.amount_out)
  pub fee_enough : r.gross_input * r.fee_ppm ≤ r.fee * 1000000
  pub fee_least : r.fee * 1000000 < r.gross_input * r.fee_ppm + 1000000
  pub different : r.token_in ≢ r.token_out
  pub path : IsPath (ordinary prior.config.tick_keys) s.crossings

is_bad_money_lem :
    (fee_ppm gross net fee out : ℕ)
    → is_bad_money fee_ppm gross net fee out ≡ false
    → (net + fee ≡ gross)
      × (0 < net)
      × (0 < fee)
      × (0 < out)
      × (gross * fee_ppm ≤ fee * 1000000)
      × (fee * 1000000 < gross * fee_ppm + 1000000)
is_bad_money_lem fee_ppm gross net fee out h =
    let e : (net + fee ≡ gross)
        × (0 < net)
        × (0 < fee)
        × (0 < out)
        × (fee ≡ (gross * fee_ppm + 999999) / 1000000) =
      ground arith in
    let (total, net_paid, fee_paid, out_paid, rounded) = e in
    (total, net_paid, fee_paid, out_paid, omega arith, omega arith)

==-false : (a b : ℕ) → (a == b) ≡ false → a ≢ b
==-false a b h e = ground arith

insert_receipt-ok :
    (s : Swap) (r : Receipt) (rs : List Receipt) {out : List Receipt}
    → insert_receipt s r rs ≡ ok out
    → (out ≡ r ∷ rs) × (r.token_in ≢ r.token_out)
unfolding insert_receipt
insert_receipt-ok s r rs e =
    let (good, e1) = fail_if->>-eq-ok (is_bad_row s r) check_violation _ e in
    let (new, e2) = fail_if->>-eq-ok (any (same_receipt r) rs) unique_violation _ e1 in
    let different =
      (||-eq-false (leb 8 s.token_in_index || leb 8 s.token_out_index) (r.token_in == r.token_out)
        good).1 in
    (sym (ok-injective e2), ==-false r.token_in r.token_out different)

swap_rows-IsReceipt :
    (scope : Scope) (event : Event) (s : Swap) (version : ℕ) (prior : Snapshot)
    (rs out : List Receipt)
    → version ≡ prior.version + 1
    → s.version ≡ some version
    → swap_rows scope event s version prior rs ≡ ok out
    → (r : Receipt) × (out ≡ r ∷ rs) × IsReceipt event s prior r
unfolding swap_rows
swap_rows-IsReceipt scope event s version prior rs out next stated e =
    let c = prior.config in
    let (pair, e1) = fail_if->>-eq-ok (is_bad_pair c s) invalid_swap_transition _ e in
    let (party, e2) =
      fail_if->>-eq-ok
        (is_bad_party scope event.maker s.taker || is_bad_party scope event.maker s.recipient)
        invalid_swap_transition _ e1 in
    >>=-elim (uint s.gross_input 256) _ e2 (λ gross g e3.
      >>=-elim (uint s.net_input 256) _ e3 (λ net n e4. >>=-elim (uint s.fee 256) _ e4 (λ fee f e5.
        >>=-elim (uint s.amount_out 256) _ e5 (λ paid_out o e6.
          let (money, e7) =
            fail_if->>-eq-ok (is_bad_money c.fee_ppm gross net fee paid_out) invalid_swap_transition
              _ e6 in
          let (short, e8) =
            fail_if->>-eq-ok (ltb 16 (length s.crossings)) invalid_swap_transition _ e7 in
          >>=-elim (check_path (ordinary c.tick_keys) none s.crossings) _ e8 (λ u walked e9.
            >>=-elim (or_fail (get_elem? c.tokens s.token_in_index) invalid_swap_transition) _ e9
              (λ token_in i e10.
                >>=-elim (or_fail (get_elem? c.tokens s.token_out_index) invalid_swap_transition) _
                  e10
                  (λ token_out j e11.
                    let r : Receipt = record {
                      order_hash = event.entity;
                      version = version;
                      gross_input = gross;
                      net_input = net;
                      fee = fee;
                      fee_ppm = c.fee_ppm;
                      amount_out = paid_out;
                      token_in = token_in;
                      token_out = token_out;
                      source = event.source;
                    } in
                    let (placed, different) = insert_receipt-ok s r rs e11 in
                    let (total, net_paid, fee_paid, out_paid, enough, least) =
                      is_bad_money_lem c.fee_ppm gross net fee paid_out money in
                    (
                      r,
                      placed,
                      record {
                        version = next;
                        stated = stated;
                        conserved = total;
                        paid = (net_paid, fee_paid, out_paid);
                        fee_enough = enough;
                        fee_least = least;
                        different = different;
                        path = check_path-IsPath (ordinary c.tick_keys) s.crossings walked;
                      },
                    ))))))))

-- If `swapEvent` accepts a swap, then there is a prior row, of an active strategy of the event's maker, and
-- one receipt is added, in front of those before. The receipt has the event's version, which is the one
-- after the prior row's; its net input and fee sum to the gross input, these and the output are positive,
-- the fee is the least one that covers the rate, the tokens differ, and the crossings are a walk over the
-- configuration's ticks less the last one.
pub swap_event-IsReceipt :
    (scope : Scope) (event : Event) (s : Swap) (found : Option Snapshot) (rs : List Receipt)
    (out : (ℕ × Snapshot) × List Receipt)
    → swap_event scope event s found rs ≡ ok out
    → (prior : Snapshot) × (found ≡ some prior)
      × (is_active prior.lifecycle ≡ true)
      × (event.maker ≡ prior.maker)
      × (r : Receipt) × (out.1 ≡ r ∷ rs)
      × IsReceipt event s prior r
unfolding swap_event
swap_event-IsReceipt scope event s found rs out e =
    >>=-elim (follows invalid_swap_transition event s.version found) _ e (λ seen followed e1.
      >>=-elim (swap_rows scope event s seen.0 seen.1 rs) _ e1 (λ rows stored e2.
        let f = follows-Followed invalid_swap_transition event s.version found seen followed in
        let (r, placed, good) =
          swap_rows-IsReceipt scope event s seen.0 seen.1 rs rows f.next f.stated stored in
        (
          seen.1,
          f.known,
          f.alive,
          f.maker,
          r,
          sym (ap (λ (x : (ℕ × Snapshot) × List Receipt). x.1) (ok-injective e2)) ∙ placed,
          good,
        )))
