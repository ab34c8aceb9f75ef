-- ===== src/Sdk/Plans/Invoices/Payment.antt =====
-- What `buildPaymentTx` (packages/sdk/src/plans.ts) guarantees of a payment by a swap.
use mathlib.Core.Path.{subst}
use aqua_orbital.Prelude.{
  ℕ, ◌+◌, ◌*◌, ◌-◌, ◌^◌, ◌≡◌, ◌≤◌, ◌<◌, sym, ap, ◌∙◌, true, false, not, ◌||◌, leb, ltb, ◌==◌,
  ==_iff, ||-eq-false, get_elem?, arith, ok, or_fail, fail_if->>-eq-ok, fail_if-eq-ok, >>=-elim,
}
use aqua_orbital.Shared.{same, Manifest, SwapQuote, is_swap_quote}
use aqua_orbital.Sdk.Amount.{fee_in}
use aqua_orbital.Sdk.Errors.{
  undefined_value, invalid_swap_quote, expired_deadline, input_range, fee_too_large, crossing_bound,
  quote_crossings, quote_mismatch, quote_stale, quote_below_minimum, invoice_deployment,
  not_payable, invalid_payer, checked,
}
use aqua_orbital.Sdk.Codec.{Config, Abi}
use aqua_orbital.Sdk.Codec.Orders.{Plan, hash_order, hash_config}
use aqua_orbital.Sdk.Plans.{
  max_amount, check_address, check_amount, Context, check_context, Strategy, check_strategy,
}
use aqua_orbital.Sdk.Plans.Swaps.{pair, Terms, limits, Route, same_route, check_quote}
use aqua_orbital.Sdk.Plans.Targets.{check_context-IsContext, not-eq-false}
use aqua_orbital.Sdk.Plans.Invoices.Valid.{IsTerms, validate_invoice_terms_iff}
use aqua_orbital.Sdk.Plans.Invoices.{
  check_hash, validate_invoice_terms, is_unpaid, Snapshot, test_invoice, check_invoice, SwapPayment,
  swapped, payment_terms, test_payment, build_payment_tx,
}

-- What `limits` has seen.
pub record IsLimited (ctx : Context) (c : Config) (t : Terms) : Type 0 where
  pub deadline : ctx.now < t.deadline
  pub crossings : t.max_crossings ≤ 16
  pub fee : ℕ
  pub charged : checked (fee_in t.gross c.fee_ppm) ≡ ok fee
  pub worthwhile : fee < t.gross

-- What `quote` has seen.
pub record IsQuoted (lib : Abi) (ctx : Context) (s : Strategy) (q : SwapQuote) (t : Terms)
    : Type 0 where
  pub fresh : ctx.now < q.expires_at
  pub short : q.expires_at ≤ ctx.now + 20
  pub enough : t.minimum ≤ q.amount_out_raw
  pub crossings : q.max_crossings ≡ t.max_crossings
  pub amount : q.amount_in_raw ≡ t.gross
  pub order : hash_order lib s.order ≡ ok q.order_hash

module _ (lib : Abi) (ctx : Context) where
  limits-IsLimited :
      (c : Config) (i : ℕ) (t : Terms) {u : Unit {0}} → limits ctx c i t ≡ ok u → IsLimited ctx c t
  unfolding limits
  limits-IsLimited c i t e = >>=-elim (check_amount max_amount true t.gross) _ e (λ u gross e1.
      >>=-elim (check_amount max_amount true t.minimum) _ e1 (λ u minimum e2.
        >>=-elim (check_amount (2 ^ 40 - 1) true t.deadline) _ e2 (λ u bounded e3.
          let (deadline, e4) = fail_if->>-eq-ok (leb t.deadline ctx.now) expired_deadline _ e3 in
          >>=-elim (or_fail (get_elem? c.decimals i) undefined_value) _ e4 (λ d known e5.
            let (range, e6) =
              fail_if->>-eq-ok (leb (2 ^ 160) (t.gross * 10 ^ (18 - d) * 2 ^ 64)) input_range _
                e5 in
            >>=-elim (checked (fee_in t.gross c.fee_ppm)) _ e6 (λ fee charged e7.
              let (worthwhile, e8) = fail_if->>-eq-ok (leb t.gross fee) fee_too_large _ e7 in
              let crossings = fail_if-eq-ok (ltb 16 t.max_crossings) crossing_bound e8 in
              record {
                deadline = ground arith;
                crossings = ground arith;
                fee = fee;
                charged = charged;
                worthwhile = ground arith;
              })))))

  check_quote-IsQuoted :
      (s : Strategy) (q : SwapQuote) (r : Route) (t : Terms) {u : Unit {0}}
      → check_quote lib ctx s q r t ≡ ok u
      → IsQuoted lib ctx s q t
  unfolding check_quote
  check_quote-IsQuoted s q r t e =
      let (shape, e1) = fail_if->>-eq-ok (not (is_swap_quote q)) invalid_swap_quote _ e in
      let (crossings, e2) =
        fail_if->>-eq-ok (not (q.max_crossings == t.max_crossings)) quote_crossings _ e1 in
      let (place, e3) =
        fail_if->>-eq-ok (not (q.chain_id == ctx.chain_id) || not (same q.router s.config.router))
          quote_mismatch _ e2 in
      >>=-elim (hash_order lib s.order) _ e3 (λ order hashed e4.
        let (same_order, e5) = fail_if->>-eq-ok (not (q.order_hash == order)) quote_mismatch _ e4 in
        >>=-elim (hash_config lib s.config) _ e5 (λ config hashed2 e6.
          let (same_config, e7) =
            fail_if->>-eq-ok (not (q.config_hash == config)) quote_mismatch _ e6 in
          let (route, e8) =
            fail_if->>-eq-ok (not (same_route r q) || not (q.amount_in_raw == t.gross))
              quote_mismatch _ e7 in
          >>=-elim (checked (fee_in t.gross s.config.fee_ppm)) _ e8 (λ fee charged e9.
            let (same_fee, e10) = fail_if->>-eq-ok (not (q.fee_raw == fee)) quote_mismatch _ e9 in
            let (times, e11) =
              fail_if->>-eq-ok (leb q.expires_at ctx.now || ltb (ctx.now + 20) q.expires_at)
                quote_stale _ e10 in
            let enough = fail_if-eq-ok (ltb q.amount_out_raw t.minimum) quote_below_minimum e11 in
            record {
              fresh = ground arith;
              short = ground arith;
              enough = ground arith;
              crossings = ground arith;
              amount =
                  (==_iff q.amount_in_raw t.gross).0
                    (not-eq-false _ (||-eq-false (not (same_route r q)) _ route).1);
              order =
                  hashed ∙ ap ok (sym ((==_iff q.order_hash order).0 (not-eq-false _ same_order)));
            })))

-- What is known of an invoice and its swap when a payment is built.
pub record IsCovered (lib : Abi) (ctx : Context) (v : Snapshot) (p : SwapPayment) : Type 0 where
  pub unpaid : is_unpaid v.status ≡ true
  pub unexpired : ctx.now < v.terms.expires_at
  pub terms : IsTerms ctx.manifest.payments v.terms
  pub due : v.terms.amount_due_raw ≤ p.quote.amount_out_raw
  pub minimum : p.terms.minimum ≤ p.quote.amount_out_raw
  pub quoted : IsQuoted lib ctx p.strategy p.quote (payment_terms v p.terms)
  pub limited : IsLimited ctx p.strategy.config (payment_terms v p.terms)

module _ (lib : Abi) (ctx : Context) (v : Snapshot) where
  test_invoice-ok :
      (m : Manifest) {u : Unit {0}}
      → test_invoice true ctx v m ≡ ok u
      → IsTerms m.payments v.terms × (is_unpaid v.status ≡ true) × (ctx.now < v.terms.expires_at)
  unfolding test_invoice
  test_invoice-ok m e = >>=-elim (check_address v.merchant) _ e (λ u merchant e1.
      >>=-elim (check_hash v.id) _ e1 (λ u id e2.
        >>=-elim (validate_invoice_terms m.payments v.terms) _ e2 (λ u valid e3.
          let (place, e4) =
            fail_if->>-eq-ok (not (v.chain_id == ctx.chain_id) || not (same v.adapter m.payments))
              invoice_deployment _ e3 in
          let (is_open, in_time) =
            ||-eq-false (not (is_unpaid v.status)) (leb v.terms.expires_at ctx.now)
              (fail_if-eq-ok _ not_payable e4) in
          (
            (validate_invoice_terms_iff m.payments v.terms).0 valid,
            not-eq-false _ is_open,
            ground arith,
          ))))

  test_payment-ok :
      (p : SwapPayment) (m : Manifest) {i : ℕ}
      → test_payment lib ctx v p m ≡ ok i
      → IsQuoted lib ctx p.strategy p.quote (payment_terms v p.terms)
        × IsLimited ctx p.strategy.config (payment_terms v p.terms)
  unfolding test_payment
  test_payment-ok p m e =
      let c = p.strategy.config in
      let t = payment_terms v p.terms in
      let r : Route = record {
        caller = m.payments;
        recipient = m.payments;
        token_in = p.token_in;
        token_out = m.usdc;
      } in
      >>=-elim (check_strategy lib false ctx p.strategy) _ e (λ n known e1.
        >>=-elim (pair c p.token_in m.usdc) _ e1 (λ ij paired e2.
          let (payer, e3) =
            fail_if->>-eq-ok (same c.maker ctx.account || same c.maker m.payments) invalid_payer _
              e2 in
          >>=-elim (check_amount max_amount false p.terms.minimum) _ e3 (λ u asked e4.
            >>=-elim (limits ctx c ij.0 t) _ e4 (λ u limited e5.
              >>=-elim (check_quote lib ctx p.strategy p.quote r t) _ e5 (λ u quoted e6. (
                check_quote-IsQuoted lib ctx p.strategy p.quote r t quoted,
                limits-IsLimited lib ctx c ij.0 t limited,
              ))))))

-- If `buildPaymentTx` builds a payment by a swap, its invoice has valid terms, is unpaid and not
-- expired, and the quote's output is no less than the amount due and than the reviewed minimum. The
-- quote is of the reviewed order, input and bound of crossings, and it expires after now and within 20
-- seconds, the deadline is after now, and the maker's fee is less than the input.
pub build_payment_tx-IsCovered :
    (lib : Abi) (ctx : Context) (v : Snapshot) (p : SwapPayment) (built : Plan)
    → build_payment_tx lib ctx (swapped v p) ≡ ok built
    → IsCovered lib ctx v p
unfolding build_payment_tx check_invoice
build_payment_tx-IsCovered lib ctx v p built e =
    >>=-elim (check_invoice true ctx v) _ e (λ m known e1.
      >>=-elim (check_context ctx) _ known (λ n seen k1.
        >>=-elim (test_invoice true ctx v n) _ k1 (λ u tested k2.
          >>=-elim (test_payment lib ctx v p m) _ e1 (λ i paid_by e2.
            let (terms, is_open, unexpired) = test_invoice-ok lib ctx v n tested in
            let (quoted, limited) = test_payment-ok lib ctx v p m paid_by in
            let same_manifest = ((check_context-IsContext ctx).holds n seen).given in
            let enough = quoted.enough in
            record {
              unpaid = is_open;
              unexpired = unexpired;
              terms = subst (λ (k : Manifest). IsTerms k.payments v.terms) same_manifest terms;
              due = omega arith;
              minimum = omega arith;
              quoted = quoted;
              limited = limited;
            }))))
