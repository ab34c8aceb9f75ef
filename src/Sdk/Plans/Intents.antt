-- ===== src/Sdk/Plans/Intents.antt =====
-- `validateTransactionPlan` of packages/sdk/src/plans.ts: a plan that comes from elsewhere is accepted
-- only if it is the one rebuilt from the reviewed intent.
pub mod Laws
pub mod Accepted
use aqua_orbital.Prelude.{
  ℕ, Bool, true, false, ◌&&◌, ◌||◌, not, List, [], ◌∷◌, Option, none, some, ◌==◌, Result, ok, err,
  ◌>>=◌, ◌>>◌, fail_if,
}
use aqua_orbital.Text.{same_text}
use aqua_orbital.Shared.{Address, same}
use aqua_orbital.Sdk.Errors.{Error, plan_differs}
use aqua_orbital.Sdk.Codec.{Abi}
use aqua_orbital.Sdk.Codec.Orders.{
  Label, approve_amount, swap_amount, activate, retire, ship_strategy, dock_strategy,
  create_invoice, pay_directly, swap_and_pay, cancel, claim, Plan,
}
use aqua_orbital.Sdk.Plans.{Context, FaucetInput, build_demo_faucet_tx, Strategy}
use aqua_orbital.Sdk.Plans.Swaps.{SwapInput, build_swap_tx, build_swap_approval_tx}
use aqua_orbital.Sdk.Plans.Makers.{
  build_maker_approval_tx, build_ship_tx, build_dock_tx, build_activate_tx, build_retire_tx,
}
use aqua_orbital.Sdk.Plans.Invoices.{
  CreateInput, build_invoice_tx, PaymentInput, build_payment_tx, build_payment_approval_tx,
  Snapshot, build_cancel_invoice_tx,
}

-- `PlanIntent`
pub data Intent : Type 0 where
  faucet_intent : FaucetInput → Intent
  swap_intent swap_approval_intent : SwapInput → Intent
  maker_approval_intent : Strategy → (token : Address) (reset : Bool) → Intent
  ship_intent dock_intent activate_intent retire_intent : Strategy → Intent
  create_invoice_intent : CreateInput → Intent
  payment_intent payment_approval_intent : PaymentInput → Intent
  cancel_invoice_intent : Snapshot → Intent

-- `buildInvoiceTx(ctx,intent.input).plan`
abbrev pub plan_only : Result Error (Plan × ℕ) → Result Error Plan
plan_only (err e) = err e
plan_only (ok (p, id)) = ok p

-- The switch over the intents.
unfoldable pub rebuild : Abi → Context → Intent → Result Error Plan
rebuild lib ctx (faucet_intent i) = build_demo_faucet_tx lib ctx i
rebuild lib ctx (swap_intent i) = build_swap_tx lib ctx i
rebuild lib ctx (swap_approval_intent i) = build_swap_approval_tx lib ctx i
rebuild lib ctx (maker_approval_intent s token reset) =
    build_maker_approval_tx lib ctx s token reset
rebuild lib ctx (ship_intent s) = build_ship_tx lib ctx s
rebuild lib ctx (dock_intent s) = build_dock_tx lib ctx s
rebuild lib ctx (activate_intent s) = build_activate_tx lib ctx s
rebuild lib ctx (retire_intent s) = build_retire_tx lib ctx s
rebuild lib ctx (create_invoice_intent i) = plan_only (build_invoice_tx lib ctx i)
rebuild lib ctx (payment_intent i) = build_payment_tx lib ctx i
rebuild lib ctx (payment_approval_intent i) = build_payment_approval_tx lib ctx i
rebuild lib ctx (cancel_invoice_intent v) = build_cancel_invoice_tx lib ctx v

-- `a.label===b.label`
abbrev pub same_label : Label → Label → Bool
same_label approve_amount approve_amount = true
same_label swap_amount swap_amount = true
same_label activate activate = true
same_label retire retire = true
same_label ship_strategy ship_strategy = true
same_label dock_strategy dock_strategy = true
same_label create_invoice create_invoice = true
same_label pay_directly pay_directly = true
same_label swap_and_pay swap_and_pay = true
same_label cancel cancel = true
same_label (claim s) (claim t) = same_text s t
same_label _ _ = false

-- A candidate of the type `TransactionPlan`, with whether it has other keys. The label is `none` for a
-- text that labels no plan.
pub record Candidate : Type 0 where
  pub chain_id : ℕ
  pub account : Address
  pub to : Address
  pub data_bytes : List ℕ
  pub value : ℕ
  pub label : Option Label
  pub has_other_keys : Bool

abbrev pub is_label : Option Label → Label → Bool
is_label none l = false
is_label (some k) l = same_label k l

-- The comparison of a candidate with the rebuilt plan.
abbrev pub agrees : Candidate → Plan → Bool
agrees p expected =
    (p.chain_id == expected.chain_id)
    && (p.value == 0)
    && same p.account expected.account
    && same p.to expected.to
    && same_text p.data_bytes expected.data_bytes
    && is_label p.label expected.label
    && not p.has_other_keys

-- `validateTransactionPlan`, of a candidate that is an object.
unfoldable pub validate_transaction_plan :
    Abi → Candidate → Context → Intent → Result Error Candidate
validate_transaction_plan lib p ctx intent = do
  expected ← rebuild lib ctx intent
  fail_if (not (agrees p expected)) plan_differs
  ok p
