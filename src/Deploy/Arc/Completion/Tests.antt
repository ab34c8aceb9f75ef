-- ===== src/Deploy/Arc/Completion/Tests.antt =====
-- The activation of a plan of one step, and what is verified of it later
-- (scripts/lib/arc-deployment.mjs).
use aqua_orbital.Prelude.{
  ℕ, zero, suc, ◌≡◌, refl, true, false, List, [], ◌∷◌, ◌++◌, none, some, ok, err,
}
use aqua_orbital.Sdk.Amount.{digits}
use aqua_orbital.Deploy.Arc.{
  State, other_state, incomplete, other_active, check_reviewed, validate_review,
  validate_transaction, check_quantities, check_gas, check_receipt, runtime_of, verify_entry,
  verify_all, settle_pending, refresh,
}
use aqua_orbital.Deploy.Arc.Status.{check_network, preflight, arc_usdc}
use aqua_orbital.Deploy.Arc.Status.Tests.{keccak, prepared, network, receipt, rpc, done}
use aqua_orbital.Deploy.Arc.Bindings.{
  Scalar, natural, flag, text, no_items, Getter, aqua_owner, aqua_multicall, router_aqua,
  router_weth, router_chain_id, router_owner, router_domain, router_order_typehash, router_hash,
  router_allowed_token, router_token_decimals, payments_usdc, payments_router,
  payments_allowed_token, demo_decimals, demo_chain_id, demo_name, demo_symbol, demo_faucet_amount,
  demo_cooldown, Contracts, Token, orbital, demo_dollar, check_reads, bindings,
}
use aqua_orbital.Deploy.Arc.Completion.{
  Loaded, Manifest, Report, save, advance, complete_with, verified_completion, check_report,
  activate, verify_active,
}

abbrev token : Token
token = record { address = 55; decimals = 6; symbol = b'o' ∷ []; is_mock = true }

abbrev loaded : Loaded
loaded = record {
  prepared = prepared;
  plan_id = 7;
  rpc_url = 1;
  addresses = record { aqua = 44; router = 22; payments = 33 };
  tokens = token ∷ [];
}

abbrev allowed : ℕ → List Scalar
allowed zero = flag false ∷ []
allowed (suc n) = flag true ∷ []

abbrev answers : Getter → List Scalar
answers aqua_owner = natural 9 ∷ []
answers aqua_multicall = []
answers router_aqua = natural 44 ∷ []
answers router_weth = natural 0 ∷ []
answers router_chain_id = natural 5042002 ∷ []
answers router_owner = natural 0 ∷ []
answers router_domain =
    natural 15
    ∷ text orbital
    ∷ text (b'1' ∷ [])
    ∷ natural 5042002
    ∷ natural 22
    ∷ natural 0
    ∷ no_items
    ∷ []
answers router_order_typehash = natural 46 ∷ []
answers router_hash = natural 22 ∷ []
answers (router_allowed_token t) = allowed t
answers (router_token_decimals t) = natural 6 ∷ []
answers payments_usdc = natural arc_usdc ∷ []
answers payments_router = natural 22 ∷ []
answers (payments_allowed_token t) = allowed t
answers demo_decimals = natural 6 ∷ []
answers demo_chain_id = natural 5042002 ∷ []
answers demo_name = text (demo_dollar ++ b'6' ∷ []) ∷ []
answers demo_symbol = text (b'o' ∷ []) ∷ []
answers demo_faucet_amount = natural 1000000000 ∷ []
answers demo_cooldown = natural 86400 ∷ []

abbrev contracts : Contracts
contracts = record {
  call = λ clock to getter. some (record { outputs = answers getter; is_canonical = true });
  again = λ clock. some (some (some 77));
}

abbrev order_hash : ℕ → ℕ → ℕ → ℕ
order_hash chain router maker = router

abbrev manifest : Manifest
manifest = record {
  rpc_url = 1;
  addresses = record { aqua = 44; router = 22; payments = 33 };
  start_block = 8;
  tokens = token ∷ [];
}

abbrev other_manifest : Manifest
other_manifest = record manifest { start_block = 9 }

abbrev report : Report
report = record {
  is_verified = true;
  plan_id = 7;
  self_deploy_aqua = false;
  usdc_hash = some 1;
  aqua_hash = some 2;
  manifest = manifest;
  receipts = record { hash = 60; receipt = some receipt; runtime = none } ∷ [];
}

abbrev started : State
started = record { confirmed = []; pending_hash = none; review = none }

other-refused :
    activate keccak order_hash rpc network contracts 0 loaded
      (some other_manifest)
      (save loaded done)
    ≡ (err other_active, save loaded done)
unfolding activate verified_completion advance complete_with bindings check_reads digits
    check_network refresh verify_all settle_pending validate_transaction check_quantities
    validate_review check_reviewed verify_entry check_gas check_receipt runtime_of preflight
other-refused = refl

verified-again :
    verify_active keccak order_hash rpc network contracts 0 loaded report
      (some manifest)
      (save loaded done)
    ≡ ok (some 77)
unfolding verify_active check_report verified_completion advance complete_with bindings check_reads
    digits check_network verify_all validate_transaction check_quantities validate_review
    check_reviewed verify_entry check_gas check_receipt runtime_of preflight
verified-again = refl

incomplete-refused :
    verify_active keccak order_hash rpc network contracts 0 loaded report
      (some manifest)
      (save loaded started)
    ≡ err incomplete
unfolding verify_active verified_completion advance check_network
incomplete-refused = refl

other_plan-refused :
    activate keccak order_hash rpc network contracts 0 loaded none
      (record (save loaded done) { plan_id = 8 })
    ≡ (err other_state, record (save loaded done) { plan_id = 8 })
unfolding activate verified_completion
other_plan-refused = refl
