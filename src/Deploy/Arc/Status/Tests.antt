-- ===== src/Deploy/Arc/Status/Tests.antt =====
-- A plan of one step, from its first review to its receipt (scripts/lib/arc-deployment.mjs).
use aqua_orbital.Prelude.{
  ℕ, ◌^◌, ◌≡◌, refl, true, false, List, [], ◌∷◌, none, some, ok, length, ◌==◌, if◌then◌else◌,
}
use aqua_orbital.Deploy.Arc.{
  Step, ReviewedTransaction, Review, Transaction, Receipt, Plan, State, Rpc, check_reviewed,
  validate_review, validate_transaction, check_quantities, check_gas, check_receipt, runtime_of,
  verify_entry, verify_all, settle_pending, refresh,
}
use aqua_orbital.Deploy.Arc.Refreshed.{IsRefreshed, refresh-IsRefreshed}
use aqua_orbital.Deploy.Arc.Status.{
  Network, Evidence, Prepared, ready, complete, transaction_for, check_network, preflight,
  new_review, saved_review, next_transaction, next_step, settle_blockers, settle_status, word_six,
  zeros, check_hash, get_arc_status, record_arc_transaction,
}
use aqua_orbital.Deploy.Arc.Status.Ready.{IsReady, get_arc_status-IsReady}
use aqua_orbital.Deploy.Arc.Status.Recorded.{IsOutcome, record_arc_transaction-IsOutcome}

abbrev pub keccak : List ℕ → ℕ
keccak bytes = length bytes

-- The last step of a plan, which creates no contract.
abbrev step : Step
step = record {
  address = none;
  to = some 22;
  input = 5;
  nonce = 3;
  template = none;
  references = none;
  is_library = false;
}

abbrev plan : Plan
plan = record { deployer = 9; gas_limit_cap = 8000000; steps = step ∷ [] }

abbrev evidence : Evidence
evidence = record { address = 44; runtime_hash = 2 }

abbrev pub prepared : Prepared
prepared = record {
  plan = plan;
  self_deploy_aqua = false;
  aqua_address = 44;
  evidence = some evidence;
  usdc_code = 1 ∷ [];
}

abbrev pub network : Network
network = record {
  chain_id = λ clock. some 5042002;
  latest = λ clock.
      some (some (record { hash = some 77; base_fee = some 10; gas_limit = some 30000000 }));
  code = λ clock address. some (if address == 44 then 1 ∷ 2 ∷ [] else 1 ∷ []);
  decimals = λ clock. some word_six;
  balance = λ clock. some (10 ^ 18);
  nonce = λ clock. some 3;
  pending_nonce = λ clock. some 3;
  probe = λ clock address. some (zeros 64);
  priority = λ clock. some (some 1);
  estimate = λ clock tx. some (some 50000);
  simulate = λ clock tx. some (some []);
}

abbrev reviewed : ReviewedTransaction
reviewed = transaction_for plan step 70000 21 1

abbrev review : Review
review = record { step = 0; transaction = some reviewed; simulated = some [] }

abbrev sent : Transaction
sent = record {
  hash = some 60;
  from = some 9;
  to = some 22;
  input = some 5;
  chain_id = some 5042002;
  nonce = some 3;
  value = some 0;
  gas = some 70000;
  max_fee = some 21;
  max_priority = some 1;
  block_hash = some 80;
  block_number = some 8;
}

abbrev pub receipt : Receipt
receipt = record {
  has_succeeded = true;
  gas_used = some 40000;
  transaction_hash = some 60;
  block_hash = some 80;
  block_number = some 8;
  from = some 9;
  to = some 22;
  contract_address = none;
  text = 1;
}

abbrev pub rpc : Rpc
rpc = record {
  chain_id = λ clock. some 5042002;
  transaction = λ clock hash. some (some sent);
  receipt = λ clock hash. some (some receipt);
  block = λ clock number.
      some (some (record { hash = some 80; number = some 8; transactions = 60 ∷ [] }));
  code = λ clock address block. some (some []);
}

abbrev new : State
new = record { confirmed = []; pending_hash = none; review = none }

abbrev in_review : State
in_review = record { confirmed = []; pending_hash = none; review = some review }

abbrev in_flight : State
in_flight = record { confirmed = []; pending_hash = some 60; review = some review }

abbrev pub done : State
done = record {
  confirmed =
      record { hash = 60; review = some review; receipt = some receipt; runtime = none } ∷ [];
  pending_hash = none;
  review = none;
}

transaction-ready :
    get_arc_status keccak rpc network 0 prepared new ≡ (ready reviewed 1470000, in_review)
unfolding get_arc_status check_network refresh verify_all settle_pending preflight settle_status
    settle_blockers next_step next_transaction new_review
transaction-ready = refl

-- The saved review is shown again.
review-kept :
    get_arc_status keccak rpc network 0 prepared in_review ≡ (ready reviewed 1470000, in_review)
unfolding get_arc_status check_network refresh verify_all settle_pending preflight settle_status
    settle_blockers next_step next_transaction saved_review validate_review check_reviewed
review-kept = refl

pending-confirmed : refresh keccak rpc 0 plan in_flight ≡ ok done
unfolding refresh verify_all settle_pending validate_transaction check_quantities validate_review
    check_reviewed verify_entry check_gas check_receipt runtime_of
pending-confirmed = refl

deployment-complete : get_arc_status keccak rpc network 0 prepared done ≡ (complete, done)
unfolding get_arc_status check_network refresh verify_all settle_pending validate_transaction
    check_quantities validate_review check_reviewed verify_entry check_gas check_receipt runtime_of
    preflight settle_status settle_blockers
deployment-complete = refl

hash-recorded : record_arc_transaction keccak rpc network 0 plan in_review 60 ≡ (ok tt, done)
unfolding record_arc_transaction check_hash check_network refresh verify_all settle_pending
    validate_transaction check_quantities validate_review check_reviewed verify_entry check_gas
    check_receipt runtime_of
hash-recorded = refl

refresh-IsRefreshed_example : IsRefreshed keccak rpc plan in_flight done
refresh-IsRefreshed_example = refresh-IsRefreshed keccak rpc 0 plan in_flight done pending-confirmed

get_arc_status-IsReady_example : IsReady rpc network 0 plan reviewed 1470000 in_review
get_arc_status-IsReady_example =
    get_arc_status-IsReady keccak rpc network 0 prepared new in_review reviewed 1470000
      transaction-ready

record_arc_transaction-IsOutcome_example :
    IsOutcome in_review 60 (record_arc_transaction keccak rpc network 0 plan in_review 60)
record_arc_transaction-IsOutcome_example =
    record_arc_transaction-IsOutcome keccak rpc network 0 plan in_review 60
