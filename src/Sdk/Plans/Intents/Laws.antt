-- ===== src/Sdk/Plans/Intents/Laws.antt =====
-- What `validateTransactionPlan` (packages/sdk/src/plans.ts) lets through.
use mathlib.Core.Path.{subst}
use aqua_orbital.Prelude.{
  ℕ, ◌-◌, ◌^◌, refl, sym, Bool, true, false, not, ltb, ◌==◌, get_elem?, Result, ok, err, fail_if,
  or_fail, or_fail-eq-ok, Ensures, Ensures->>=, Ensures->>, Ensures-fail_if, Ensures-ok,
}
use aqua_orbital.Shared.{Address, same, Manifest, token_at}
use aqua_orbital.Sdk.Errors.{Error, not_demo_token, invalid_approval}
use aqua_orbital.Sdk.Codec.{Abi, faucet, create_invoice, taker_data}
use aqua_orbital.Sdk.Codec.Orders
use aqua_orbital.Sdk.Codec.Orders.{Plan, claim, encode_order, hash_order, approval_plan}
use aqua_orbital.Sdk.Plans.{
  max_amount, check_amount, Context, check_context, plan_call, FaucetInput, is_demo_token,
  build_demo_faucet_tx, Strategy, check_strategy,
}
use aqua_orbital.Sdk.Plans.Swaps.{
  index_of, pair, SwapInput, test_swap, taker_args, build_swap_tx, build_swap_approval_tx,
}
use aqua_orbital.Sdk.Plans.Makers.{
  build_activate_tx, build_retire_tx, build_ship_tx, build_dock_tx, approved_amount,
  build_maker_approval_tx,
}
use aqua_orbital.Sdk.Plans.Invoices.{
  invoice_id, CreateInput, test_create, build_invoice_tx, Snapshot, test_invoice, check_invoice,
  PaymentInput, direct, swapped, test_payment, build_payment_tx, paid_token, paid_amount,
  build_payment_approval_tx, build_cancel_invoice_tx,
}
use aqua_orbital.Sdk.Plans.Targets.{
  IsConfined, IsContext, check_context-IsContext, includes-token_at, includes-token, router-target,
  aqua-target, payments-target, plan_call-IsConfined, approval_plan-IsConfined,
  check_strategy-IsContext,
}
use aqua_orbital.Sdk.Plans.Intents.{
  Intent, faucet_intent, swap_intent, swap_approval_intent, maker_approval_intent, ship_intent,
  dock_intent, activate_intent, retire_intent, create_invoice_intent, payment_intent,
  payment_approval_intent, cancel_invoice_intent, plan_only, rebuild,
}

module _ (lib : Abi) (ctx : Context) where
  build_demo_faucet_tx-IsConfined :
      (i : FaucetInput) → Ensures (IsConfined ctx) (build_demo_faucet_tx lib ctx i)
  unfolding build_demo_faucet_tx
  build_demo_faucet_tx-IsConfined i = Ensures->>= (check_context ctx) _ (λ m known.
      Ensures->>= (or_fail (token_at i.token m.tokens) not_demo_token) _ (λ t found.
        Ensures->> (fail_if (not (is_demo_token m t)) not_demo_token) _ (λ demo.
          Ensures->> (check_amount max_amount false i.next_mint_at) _ (λ read.
            Ensures-fail_if (ltb ctx.now i.next_mint_at) _ _ (λ due.
              plan_call-IsConfined lib ctx m t.address faucet (claim t.symbol)
                ((check_context-IsContext ctx).holds m known)
                (includes-token t.address.value m
                  (includes-token_at i.token m.tokens t (or_fail-eq-ok _ _ found))))))))

  build_activate_tx-IsConfined :
      (s : Strategy) → Ensures (IsConfined ctx) (build_activate_tx lib ctx s)
  unfolding build_activate_tx
  build_activate_tx-IsConfined s = Ensures->>= (check_strategy lib true ctx s) _ (λ m known.
      Ensures-fail_if (s.config.maker_nonce == 2 ^ 64 - 1) _ _ (λ fresh.
        plan_call-IsConfined lib ctx m m.router _ _
          ((check_strategy-IsContext lib ctx true s).holds m known) (router-target m)))

  build_retire_tx-IsConfined : (s : Strategy) → Ensures (IsConfined ctx) (build_retire_tx lib ctx s)
  unfolding build_retire_tx
  build_retire_tx-IsConfined s = Ensures->>= (check_strategy lib true ctx s) _ (λ m known.
      Ensures->>= (hash_order lib s.order) _ (λ hash done.
        plan_call-IsConfined lib ctx m m.router _ _
          ((check_strategy-IsContext lib ctx true s).holds m known) (router-target m)))

  build_ship_tx-IsConfined : (s : Strategy) → Ensures (IsConfined ctx) (build_ship_tx lib ctx s)
  unfolding build_ship_tx
  build_ship_tx-IsConfined s = Ensures->>= (check_strategy lib true ctx s) _ (λ m known.
      Ensures->>= (encode_order lib s.order) _ (λ order done.
        plan_call-IsConfined lib ctx m m.aqua _ _
          ((check_strategy-IsContext lib ctx true s).holds m known) (aqua-target m)))

  build_dock_tx-IsConfined : (s : Strategy) → Ensures (IsConfined ctx) (build_dock_tx lib ctx s)
  unfolding build_dock_tx
  build_dock_tx-IsConfined s = Ensures->>= (check_strategy lib true ctx s) _ (λ m known.
      Ensures->>= (hash_order lib s.order) _ (λ hash done.
        plan_call-IsConfined lib ctx m m.aqua _ _
          ((check_strategy-IsContext lib ctx true s).holds m known) (aqua-target m)))

  build_maker_approval_tx-IsConfined :
      (s : Strategy) (token : Address) (reset : Bool)
      → Ensures (IsConfined ctx) (build_maker_approval_tx lib ctx s token reset)
  unfolding build_maker_approval_tx
  build_maker_approval_tx-IsConfined s token reset =
      Ensures->>= (check_strategy lib true ctx s) _ (λ m known.
        Ensures->>= (or_fail (index_of token s.config.tokens) invalid_approval) _ (λ index found.
          Ensures->>= (approved_amount reset (get_elem? s.config.initial_amounts_raw index)) _
            (λ amount read.
              let seen = (check_strategy-IsContext lib ctx true s).holds m known in
              subst
                (λ (n : Manifest).
                  Ensures (IsConfined ctx) (approval_plan lib n ctx.account token m.aqua amount))
                (sym seen.given) (approval_plan-IsConfined lib ctx token m.aqua amount))))

  build_swap_tx-IsConfined : (i : SwapInput) → Ensures (IsConfined ctx) (build_swap_tx lib ctx i)
  unfolding build_swap_tx
  build_swap_tx-IsConfined i = Ensures->>= (check_strategy lib false ctx i.strategy) _ (λ m known.
      Ensures->>= (pair i.strategy.config i.token_in i.token_out) _ (λ ij found.
        Ensures->> (test_swap lib ctx i m ij.0) _ (λ good.
          Ensures->>= (taker_data (taker_args ctx i ij)) _ (λ bytes done.
            plan_call-IsConfined lib ctx m m.router _ _
              ((check_strategy-IsContext lib ctx false i.strategy).holds m known)
              (router-target m)))))

  build_swap_approval_tx-IsConfined :
      (i : SwapInput) → Ensures (IsConfined ctx) (build_swap_approval_tx lib ctx i)
  unfolding build_swap_approval_tx
  build_swap_approval_tx-IsConfined i =
      Ensures->>= (build_swap_tx lib ctx i) _
        (λ p done. approval_plan-IsConfined lib ctx i.token_in ctx.manifest.router i.terms.gross)

  check_invoice-IsContext :
      (payable : Bool) (v : Snapshot) → Ensures (IsContext ctx) (check_invoice payable ctx v)
  unfolding check_invoice
  check_invoice-IsContext payable v = Ensures->>= (check_context ctx) _ (λ m known.
      Ensures->> (test_invoice payable ctx v m) _
        (λ tested. Ensures-ok m ((check_context-IsContext ctx).holds m known)))

  build_invoice_tx-IsConfined :
      (i : CreateInput)
      → Ensures (λ (x : Plan × ℕ). IsConfined ctx x.0) (build_invoice_tx lib ctx i)
  unfolding build_invoice_tx
  build_invoice_tx-IsConfined i =
      let t = i.terms in
      Ensures->>= (check_context ctx) _ (λ m known. Ensures->> (test_create ctx i m) _ (λ tested.
        Ensures->>= (invoice_id lib m.chain_id m.payments ctx.account i.merchant_nonce) _
          (λ id named.
            let made =
              plan_call-IsConfined lib ctx m m.payments
                (create_invoice t.amount_due_raw t.expires_at t.recipients t.bps t.memo_hash)
                Orders.create_invoice ((check_context-IsContext ctx).holds m known)
                (payments-target m) in
            Ensures->>=
              (plan_call lib ctx m.payments
                (create_invoice t.amount_due_raw t.expires_at t.recipients t.bps t.memo_hash)
                Orders.create_invoice)
              _ (λ p done. Ensures-ok (p, id) (made.holds p done)))))

  build_payment_tx-IsConfined :
      (i : PaymentInput) → Ensures (IsConfined ctx) (build_payment_tx lib ctx i)
  unfolding build_payment_tx
  build_payment_tx-IsConfined (direct v) = Ensures->>= (check_invoice true ctx v) _ (λ m known.
      plan_call-IsConfined lib ctx m m.payments _ _ ((check_invoice-IsContext true v).holds m known)
        (payments-target m))
  build_payment_tx-IsConfined (swapped v p) = Ensures->>= (check_invoice true ctx v) _ (λ m known.
      Ensures->>= (test_payment lib ctx v p m) _ (λ i tested.
        plan_call-IsConfined lib ctx m m.payments _ _
          ((check_invoice-IsContext true v).holds m known) (payments-target m)))

  build_payment_approval_tx-IsConfined :
      (i : PaymentInput) → Ensures (IsConfined ctx) (build_payment_approval_tx lib ctx i)
  unfolding build_payment_approval_tx
  build_payment_approval_tx-IsConfined i = Ensures->>= (build_payment_tx lib ctx i) _ (λ p done.
      approval_plan-IsConfined lib ctx (paid_token ctx i) ctx.manifest.payments (paid_amount i))

  build_cancel_invoice_tx-IsConfined :
      (v : Snapshot) → Ensures (IsConfined ctx) (build_cancel_invoice_tx lib ctx v)
  unfolding build_cancel_invoice_tx
  build_cancel_invoice_tx-IsConfined v = Ensures->>= (check_invoice false ctx v) _ (λ m known.
      Ensures-fail_if (not (same v.merchant ctx.account)) _ _ (λ owned.
        plan_call-IsConfined lib ctx m m.payments _ _
          ((check_invoice-IsContext false v).holds m known) (payments-target m)))

  plan_only-IsConfined :
      (m : Result Error (Plan × ℕ))
      → Ensures (λ (x : Plan × ℕ). IsConfined ctx x.0) m
      → Ensures (IsConfined ctx) (plan_only m)
  plan_only-IsConfined (err e) h = record { holds = λ b e. cc }
  plan_only-IsConfined (ok (p, id)) h = Ensures-ok p (h.holds (p, id) refl)

  pub rebuild-IsConfined : (intent : Intent) → Ensures (IsConfined ctx) (rebuild lib ctx intent)
  unfolding rebuild
  rebuild-IsConfined (faucet_intent i) = build_demo_faucet_tx-IsConfined i
  rebuild-IsConfined (swap_intent i) = build_swap_tx-IsConfined i
  rebuild-IsConfined (swap_approval_intent i) = build_swap_approval_tx-IsConfined i
  rebuild-IsConfined (maker_approval_intent s token reset) =
      build_maker_approval_tx-IsConfined s token reset
  rebuild-IsConfined (ship_intent s) = build_ship_tx-IsConfined s
  rebuild-IsConfined (dock_intent s) = build_dock_tx-IsConfined s
  rebuild-IsConfined (activate_intent s) = build_activate_tx-IsConfined s
  rebuild-IsConfined (retire_intent s) = build_retire_tx-IsConfined s
  rebuild-IsConfined (create_invoice_intent i) =
      plan_only-IsConfined (build_invoice_tx lib ctx i) (build_invoice_tx-IsConfined i)
  rebuild-IsConfined (payment_intent i) = build_payment_tx-IsConfined i
  rebuild-IsConfined (payment_approval_intent i) = build_payment_approval_tx-IsConfined i
  rebuild-IsConfined (cancel_invoice_intent v) = build_cancel_invoice_tx-IsConfined v
