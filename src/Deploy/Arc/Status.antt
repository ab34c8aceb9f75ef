-- ===== src/Deploy/Arc/Status.antt =====
-- The state of an Arc deployment, and its next transaction (scripts/lib/arc-deployment.mjs: `network`,
-- `preflight`, `getArcStatus`, `recordArcTransaction`). The plan and the saved state are loaded before,
-- and a write of the state does not fail. An empty code is `0x`.
pub mod Funded
pub mod Ready
pub mod Recorded
pub mod Tests
use aqua_orbital.Prelude.{
  ℕ, zero, suc, ◌+◌, ◌*◌, ◌/◌, ◌^◌, Bool, true, false, ◌&&◌, ◌||◌, not, List, [], ◌∷◌, ◌++◌, Option,
  none, some, ltb, leb, ◌==◌, any, map, length, get_elem?, if◌then◌else◌, Result, ok, err, ◌>>=◌,
  ◌>>◌, fail_if, or_fail,
}
use aqua_orbital.Text.{same_text}
use aqua_orbital.Chain.Table.{filter_by}
use aqua_orbital.Indexer.Canonical.{same_option}
use aqua_orbital.Deploy.Runtime.{Runtime}
use aqua_orbital.Deploy.Arc.{
  Error, rpc_failed, not_a_number, wrong_chain, no_block_identity, other_pending, no_reviewed_step,
  usdc_changed, nonce_changed, other_step, base_fee_exceeds, insufficient_balance, gas_exceeds,
  missing_step, missing_aqua, Step, ReviewedTransaction, Review, Transaction, Entry, Plan, State,
  Rpc, arc_chain_id, number, check_simulated, is_hash, validate_review, validate_transaction,
  refresh,
}

-- The answer to `eth_getBlockByNumber` of the latest block.
pub record Latest : Type 0 where
  pub hash : Option ℕ
  pub base_fee : Option ℕ
  pub gas_limit : Option ℕ

-- The other calls of the provider. A quantity is its number. `estimate` and `simulate` are given the
-- transaction.
pub record Network : Type 0 where
  pub chain_id : ℕ → Option ℕ
  pub latest : ℕ → Option (Option Latest)
  pub code : ℕ → ℕ → Option (List ℕ)
  pub decimals : ℕ → Option (List ℕ)
  pub balance : ℕ → Option ℕ
  pub nonce : ℕ → Option ℕ
  pub pending_nonce : ℕ → Option ℕ
  pub probe : ℕ → ℕ → Option (List ℕ)
  pub priority : ℕ → Option (Option ℕ)
  pub estimate : ℕ → ReviewedTransaction → Option (Option ℕ)
  pub simulate : ℕ → ReviewedTransaction → Option (Option (List ℕ))

pub data Blocker : Type 0 where
  usdc_unverified aqua_runtime_missing aqua_unverified_code aqua_runtime_differs : Blocker
  no_aqua no_evidence aqua_differs_from_evidence aqua_probe_failed : Blocker
  pending_transaction needs_usdc : Blocker

-- The evidence of an Aqua that is there already.
pub record Evidence : Type 0 where
  pub address : ℕ
  pub runtime_hash : ℕ

-- What `preflight` is asked for. The runtime is that of the confirmed Aqua.
pub record Preflight : Type 0 where
  pub self_deploy_aqua : Bool
  pub aqua_address : ℕ
  pub aqua_runtime : Option Runtime
  pub require_aqua : Bool
  pub require_wallet_ready : Bool

pub record Observation : Type 0 where
  pub aqua_code : List ℕ
  pub usdc_code : List ℕ
  pub balance : ℕ
  pub nonce : ℕ
  pub blockers : List Blocker

-- `ARC.aqua` and `ARC.usdc`
abbrev pub arc_aqua : ℕ
arc_aqua = 97433457373437972862685106908884131820005140746

abbrev pub arc_usdc : ℕ
arc_usdc = 54 * 2 ^ 152

-- The word that stands for 6, and the two words of an empty maker.
abbrev pub zeros : ℕ → List ℕ
zeros zero = []
zeros (suc n) = 0 ∷ zeros n

abbrev pub word_six : List ℕ
word_six = zeros 31 ++ 6 ∷ []

-- `network`
unfoldable pub check_network : Network → ℕ → Result Error Latest
check_network net clock = do
  chain_id ← or_fail (net.chain_id clock) rpc_failed
  fail_if (not (chain_id == arc_chain_id)) wrong_chain
  found ← or_fail (net.latest clock) rpc_failed
  block ← or_fail found no_block_identity
  fail_if (not (is_hash block.hash)) no_block_identity
  ok block

abbrev pub block_if : Bool → Blocker → List Blocker
block_if true b = b ∷ []
block_if false b = []

abbrev pub is_empty : List ℕ → Bool
is_empty [] = true
is_empty (b ∷ bs) = false

abbrev pub is_missing : Option Runtime → Bool
is_missing none = true
is_missing (some r) = false

abbrev pub differs : (List ℕ → ℕ) → List ℕ → Option Runtime → Bool
differs keccak code none = false
differs keccak code (some r) = not (keccak code == keccak r.code)

abbrev pub evidence_blockers : (List ℕ → ℕ) → List ℕ → Option Evidence → List Blocker
evidence_blockers keccak code none = no_evidence ∷ []
evidence_blockers keccak code (some e) =
    block_if (not (is_empty code) && not (keccak code == e.runtime_hash)) aqua_differs_from_evidence

-- The blockers of the two ways to have an Aqua.
abbrev pub aqua_blockers : (List ℕ → ℕ) → Preflight → Option Evidence → List ℕ → List Blocker
aqua_blockers keccak p evidence code =
    if p.self_deploy_aqua
    then block_if (is_empty code && p.require_aqua) aqua_runtime_missing
      ++ (block_if (not (is_empty code) && is_missing p.aqua_runtime) aqua_unverified_code
          ++ block_if (not (is_empty code) && differs keccak code p.aqua_runtime)
              aqua_runtime_differs)
    else block_if (is_empty code) no_aqua ++ evidence_blockers keccak code evidence

abbrev pub aqua_of : Preflight → Option Evidence → ℕ
aqua_of p evidence =
    if p.self_deploy_aqua
    then p.aqua_address
    else (elim evidence [ none ↦ arc_aqua | some e ↦ e.address ])

abbrev pub is_address : ℕ → Bool
is_address a = ltb a (2 ^ 160) && ltb 0 a

-- The probe of Aqua's `rawBalances`, if there is a code to ask.
abbrev pub probe_blockers : Network → ℕ → ℕ → Bool → Result Error (List Blocker)
probe_blockers net clock aqua false = ok []
probe_blockers net clock aqua true = do
  answer ← or_fail (net.probe clock aqua) rpc_failed
  ok (block_if (not (same_text answer (zeros 64))) aqua_probe_failed)

-- `preflight`
unfoldable pub preflight :
    (List ℕ → ℕ) → Network → ℕ → Option Evidence → Preflight → Result Error Observation
preflight keccak net clock evidence p = do
  block ← check_network net clock
  fail_if (not (is_address (aqua_of p evidence))) missing_aqua
  aqua_code ← or_fail (net.code clock (aqua_of p evidence)) rpc_failed
  usdc_code ← or_fail (net.code clock arc_usdc) rpc_failed
  decimals ← or_fail (net.decimals clock) rpc_failed
  balance ← or_fail (net.balance clock) rpc_failed
  nonce ← or_fail (net.nonce clock) rpc_failed
  pending ← or_fail (net.pending_nonce clock) rpc_failed
  probed ←
      probe_blockers net clock (aqua_of p evidence)
        (not (is_empty aqua_code) && (not p.self_deploy_aqua || not (is_missing p.aqua_runtime)))
  ok (record {
    aqua_code = aqua_code;
    usdc_code = usdc_code;
    balance = balance;
    nonce = nonce;
    blockers =
        block_if (is_empty usdc_code || not (same_text decimals word_six)) usdc_unverified
        ++ (aqua_blockers keccak p evidence aqua_code
            ++ (probed
                ++ (block_if (p.require_wallet_ready && not (nonce == pending)) pending_transaction
                    ++ block_if (p.require_wallet_ready && (balance == 0)) needs_usdc)));
  })

-- What a plan adds for its status: how it has its Aqua, and the code of USDC when it was prepared.
pub record Prepared : Type 0 where
  pub plan : Plan
  pub self_deploy_aqua : Bool
  pub aqua_address : ℕ
  pub evidence : Option Evidence
  pub usdc_code : List ℕ

abbrev pub first_runtime : List Entry → Option Runtime
first_runtime [] = none
first_runtime (e ∷ es) = e.runtime

-- `aquaPreflightOptions`
abbrev pub preflight_options : Prepared → State → Preflight
preflight_options p state = record {
  self_deploy_aqua = p.self_deploy_aqua;
  aqua_address = p.aqua_address;
  aqua_runtime = if p.self_deploy_aqua then first_runtime state.confirmed else none;
  require_aqua = p.self_deploy_aqua && ltb 0 (length state.confirmed);
  require_wallet_ready = true;
}

pub data Status : Type 0 where
  blocked : List Blocker → Status
  failed : Error → Status
  pending : ℕ → Status
  complete : Status
  ready : (transaction : ReviewedTransaction) (budget : ℕ) → Status

abbrev pub is_funding : Blocker → Bool
is_funding needs_usdc = true
is_funding _ = false

abbrev pub is_complete : Plan → State → Bool
is_complete plan state = length state.confirmed == length plan.steps

-- The blockers that count: funding is needed only while a transaction remains.
abbrev pub remaining : Bool → List Blocker → List Blocker
remaining done bs = filter_by (λ b. not (done && is_funding b)) bs

-- The branch of a saved review.
unfoldable pub saved_review :
    Plan → Step → State → Observation → Latest → Review → Result Error (ReviewedTransaction × ℕ)
saved_review plan step state seen block review = do
  fail_if (not (review.step == length state.confirmed)) other_step
  tx ← validate_review plan step (some review)
  gas ← number tx.gas
  max_fee ← number tx.max_fee
  base ← number block.base_fee
  fail_if (ltb max_fee base) base_fee_exceeds
  fail_if (ltb seen.balance (gas * max_fee)) insufficient_balance
  ok (tx, gas * max_fee)

-- The transaction of a step, with some gas and fees.
abbrev pub transaction_for : Plan → Step → (gas max_fee priority : ℕ) → ReviewedTransaction
transaction_for plan step gas max_fee priority = record {
  has_other_keys = false;
  from = some plan.deployer;
  to = step.to;
  input = some step.input;
  nonce = some step.nonce;
  value = some 0;
  chain_id = some arc_chain_id;
  gas = some gas;
  max_fee = some max_fee;
  max_priority = some priority;
}

-- The gas that is allowed for an estimate.
abbrev pub with_margin : ℕ → ℕ
with_margin estimated = estimated + estimated / 5 + 10000

-- The branch without a review: one is made.
unfoldable pub new_review :
    Network
    → ℕ
    → Plan
    → Step
    → State
    → Observation
    → Latest
    → Result Error (ReviewedTransaction × ℕ × Review)
new_review net clock plan step state seen block = do
  asked ← or_fail (net.priority clock) rpc_failed
  priority ← number asked
  base ← number block.base_fee
  let max_fee = base * 2 + priority
  found ←
      or_fail (net.estimate clock (transaction_for plan step plan.gas_limit_cap max_fee priority))
        rpc_failed
  estimated ← number found
  fail_if (ltb plan.gas_limit_cap (with_margin estimated)) gas_exceeds
  limit ← number block.gas_limit
  fail_if (ltb limit (with_margin estimated)) gas_exceeds
  fail_if (ltb seen.balance (with_margin estimated * max_fee)) insufficient_balance
  simulated ←
      or_fail
        (net.simulate clock (transaction_for plan step (with_margin estimated) max_fee priority))
        rpc_failed
  check_simulated step step.address simulated
  ok (
    transaction_for plan step (with_margin estimated) max_fee priority,
    with_margin estimated * max_fee,
    record {
      step = length state.confirmed;
      transaction = some (transaction_for plan step (with_margin estimated) max_fee priority);
      simulated = simulated;
    },
  )

-- What follows the tests of the observation: the next transaction, and the state with its review.
unfoldable pub next_transaction :
    Network
    → ℕ
    → Plan
    → Step
    → State
    → Observation
    → Latest
    → Option Review
    → Result Error (Status × State)
next_transaction net clock plan step state seen block (some review) = do
  (tx, budget) ← saved_review plan step state seen block review
  ok (ready tx budget, state)
next_transaction net clock plan step state seen block none = do
  (tx, budget, review) ← new_review net clock plan step state seen block
  ok (ready tx budget, record state { review = some review })

-- The step that is next.
unfoldable pub next_step : Network → ℕ → Plan → State → Observation → Result Error (Status × State)
next_step net clock plan state seen = do
  step ← or_fail (get_elem? plan.steps (length state.confirmed)) missing_step
  fail_if (not (seen.nonce == step.nonce)) nonce_changed
  found ← or_fail (net.latest clock) rpc_failed
  block ← or_fail found not_a_number
  next_transaction net clock plan step state seen block state.review

-- The hash of a code, if there is one.
abbrev pub code_hash : (List ℕ → ℕ) → List ℕ → Option ℕ
code_hash keccak [] = none
code_hash keccak (b ∷ bs) = some (keccak (b ∷ bs))

-- What follows the blockers that count.
unfoldable pub settle_blockers :
    Network → ℕ → Prepared → State → Observation → List Blocker → Result Error (Status × State)
settle_blockers net clock p state seen (b ∷ bs) = ok (blocked (b ∷ bs), state)
settle_blockers net clock p state seen [] =
    if is_complete p.plan state then ok (complete, state) else next_step net clock p.plan state seen

-- What follows the observation.
unfoldable pub settle_status :
    (List ℕ → ℕ) → Network → ℕ → Prepared → State → Observation → Result Error (Status × State)
settle_status keccak net clock p state seen = do
  fail_if (not (same_option (code_hash keccak seen.usdc_code) (code_hash keccak p.usdc_code)))
      usdc_changed
  settle_blockers net clock p state seen (remaining (is_complete p.plan state) seen.blockers)

abbrev pub status_after :
    (List ℕ → ℕ) → Network → ℕ → Prepared → State → Option ℕ → Result Error (Status × State)
status_after keccak net clock p state (some hash) = ok (pending hash, state)
status_after keccak net clock p state none = do
  seen ← preflight keccak net clock p.evidence (preflight_options p state)
  settle_status keccak net clock p state seen

-- `catch (error)`
abbrev pub caught : State → Result Error (Status × State) → Status × State
caught state (err e) = (failed e, state)
caught state (ok r) = r

abbrev pub status_from :
    (List ℕ → ℕ) → Network → ℕ → Prepared → State → Result Error State → Status × State
status_from keccak net clock p state (err e) = (failed e, state)
status_from keccak net clock p state (ok fresh) =
    caught fresh (status_after keccak net clock p fresh fresh.pending_hash)

-- `getArcStatus`: the status, and the state that is saved.
unfoldable pub get_arc_status : (List ℕ → ℕ) → Rpc → Network → ℕ → Prepared → State → Status × State
get_arc_status keccak rpc net clock p state =
    status_from keccak net clock p state
      (check_network net clock >>= λ block. refresh keccak rpc clock p.plan state)

-- Whether an entry has a hash.
abbrev pub is_confirmed : ℕ → State → Bool
is_confirmed hash state = any (λ (e : Entry). e.hash == hash) state.confirmed

abbrev pub is_other : Option ℕ → ℕ → Bool
is_other none hash = false
is_other (some h) hash = not (h == hash)

abbrev pub is_for_step : Option Review → ℕ → Bool
is_for_step none n = false
is_for_step (some r) n = r.step == n

abbrev pub check_found : Plan → State → Option Transaction → Result Error (Unit {0})
check_found plan state none = ok tt
check_found plan state (some tx) = do
  step ← or_fail (get_elem? plan.steps (length state.confirmed)) missing_step
  validate_transaction plan step state.review tx

-- The tests of a hash before it is recorded.
unfoldable pub check_hash : Rpc → Network → ℕ → Plan → State → ℕ → Result Error (Unit {0})
check_hash rpc net clock plan state hash = do
  fail_if (is_other state.pending_hash hash) other_pending
  fail_if (not (is_for_step state.review (length state.confirmed))) no_reviewed_step
  block ← check_network net clock
  tx ← or_fail (rpc.transaction clock hash) rpc_failed
  check_found plan state tx

abbrev pub with_pending : ℕ → State → State
with_pending hash state = record state { pending_hash = some hash }

-- A refresh that throws leaves the state that was saved.
abbrev pub refreshed : State → Result Error State → Result Error (Unit {0}) × State
refreshed state (err e) = (err e, state)
refreshed state (ok fresh) = (ok tt, fresh)

abbrev pub record_after :
    (List ℕ → ℕ)
    → Rpc
    → ℕ
    → Plan
    → State
    → ℕ
    → Result Error (Unit {0})
    → Result Error (Unit {0}) × State
record_after keccak rpc clock plan state hash (err e) = (err e, state)
record_after keccak rpc clock plan state hash (ok u) =
    refreshed (with_pending hash state) (refresh keccak rpc clock plan (with_pending hash state))

-- `recordArcTransaction`, of a hash: whether it is recorded, and the state that is saved.
unfoldable pub record_arc_transaction :
    (List ℕ → ℕ) → Rpc → Network → ℕ → Plan → State → ℕ → Result Error (Unit {0}) × State
record_arc_transaction keccak rpc net clock plan state hash =
    if is_confirmed hash state
    then (ok tt, state)
    else record_after keccak rpc clock plan state hash (check_hash rpc net clock plan state hash)
