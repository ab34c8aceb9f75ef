-- ===== src/Sdk/Execution/Tests.antt =====
-- A transaction (packages/sdk/src/execution.ts) that is sent, and followed after its record could not be
-- stored.
use aqua_orbital.Prelude.{◌≡◌, refl, Bool, true, false, [], ◌∷◌, some, none, ok, err}
use aqua_orbital.Sdk.Execution.{
  Plan, Identity, Fees, Estimate, Receipt, success, Port, unsaved, record_of, checked_receipt,
  execute_reviewed, resume_transaction, receipt, send, persist, identity, estimate,
}
use aqua_orbital.Sdk.Execution.Laws.{sends, IsGuarded, execute_reviewed-IsGuarded}
use aqua_orbital.Sdk.Execution.Recovery.{IsKept, resume_transaction-execute_reviewed}

abbrev plan : Plan
plan = record {
  chain_id = some 31337;
  account = some 7;
  to = some 9;
  value = 0;
  byte_count = some 4;
  bytes = 1;
  label = 1;
}

abbrev wallet : Identity
wallet = record { account = some 7; chain_id = 31337 }

abbrev fees : Fees
fees = record { gas = 21000; max_fee = 10; priority_fee = none }

abbrev quoted : Estimate
quoted = record { fees = fees; native_balance = 1000000; native_spend = none }

abbrev mined : Receipt
mined = record {
  hash = some 77;
  repriced_from = none;
  status = success;
  block_number = some 12;
  has_valid_gas = true;
}

-- The storage works or not.
abbrev port : Bool → Port
port works = record {
  identity = λ k. some wallet;
  estimate = λ k p. some quoted;
  send = λ k p f. some (some 77);
  receipt = λ k h. some mined;
  persist = λ k r. works;
}

succeeds : execute_reviewed (port true) plan ≡ (
  ok mined,
  identity
      ∷ estimate
      ∷ identity
      ∷ send plan fees
      ∷ persist (record_of plan (some 77))
      ∷ receipt (some 77)
      ∷ [],
)
unfolding execute_reviewed
succeeds = refl

loses : (execute_reviewed (port false) plan).0 ≡ err (unsaved (record_of plan (some 77)))
unfolding execute_reviewed
loses = refl

sends_once : sends (execute_reviewed (port false) plan).1 ≡ (plan, fees) ∷ []
unfolding execute_reviewed
sends_once = refl

execute_reviewed-IsGuarded_example :
    IsGuarded (port true) plan (sends (execute_reviewed (port true) plan).1)
execute_reviewed-IsGuarded_example = execute_reviewed-IsGuarded (port true) plan

resume_transaction-execute_reviewed_example :
    IsKept (port false) plan 77 (execute_reviewed (port false) plan).0
    × (resume_transaction (port true) (record_of plan (some 77))
        ≡ checked_receipt (some 77) ((port true).receipt 1 (some 77)))
resume_transaction-execute_reviewed_example =
    resume_transaction-execute_reviewed (port false) (port true) plan fees 77 wallet sends_once refl
      refl refl
