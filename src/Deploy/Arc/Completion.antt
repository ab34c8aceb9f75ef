-- ===== src/Deploy/Arc/Completion.antt =====
-- The end of an Arc deployment (scripts/lib/arc-deployment.mjs: `stateFor`, `verifiedCompletion`,
-- `activateArcDeployment`, `verifyActiveArcDeployment`). The plan is loaded before; a state file that is
-- absent stands for the first state, and a write does not fail. A text of a file is a number.
pub mod Verified
mod Tests
use aqua_orbital.Prelude.{
  ℕ, Bool, true, false, ◌&&◌, ◌||◌, not, List, [], ◌∷◌, Option, none, some, ltb, ◌==◌, map, length,
  Result, ok, err, ◌>>=◌, ◌>>◌, fail_if, or_fail,
}
use aqua_orbital.Text.{same_text}
use aqua_orbital.Indexer.Canonical.{same_option, same_flag}
use aqua_orbital.Deploy.Runtime.{Runtime}
use aqua_orbital.Deploy.Arc.{
  Error, missing_step, usdc_changed, other_state, incomplete, has_blockers, other_active, no_report,
  report_mismatch, Review, Receipt, Entry, Plan, State, Rpc, number, same_runtime, verify_all,
  refresh,
}
use aqua_orbital.Deploy.Arc.Status.{
  Network, Blocker, Preflight, Observation, Prepared, check_network, preflight, preflight_options,
  is_complete, code_hash,
}
use aqua_orbital.Deploy.Arc.Bindings.{Contracts, Token, Addresses, expected_reads, bindings}

-- A plan that is loaded.
pub record Loaded : Type 0 where
  pub prepared : Prepared
  pub plan_id : ℕ
  pub rpc_url : ℕ
  pub addresses : Addresses
  pub tokens : List Token

-- The file of the state. Confirmed entries that are no list are `none`.
pub record Saved : Type 0 where
  pub plan_id : ℕ
  pub confirmed : Option (List Entry)
  pub pending_hash : Option ℕ
  pub review : Option Review

pub record Manifest : Type 0 where
  pub rpc_url : ℕ
  pub addresses : Addresses
  pub start_block : ℕ
  pub tokens : List Token

-- A confirmed step in a report.
pub record Receipted : Type 0 where
  pub hash : ℕ
  pub receipt : Option Receipt
  pub runtime : Option Runtime

-- The report of an activation. `is_verified` says whether its version, scope and flag are as they are
-- written, and the path of its plan a text.
pub record Report : Type 0 where
  pub is_verified : Bool
  pub plan_id : ℕ
  pub self_deploy_aqua : Bool
  pub usdc_hash : Option ℕ
  pub aqua_hash : Option ℕ
  pub manifest : Manifest
  pub receipts : List Receipted

pub record Completion : Type 0 where
  pub state : State
  pub manifest : Manifest
  pub seen : Observation
  pub block_hash : Option ℕ

-- `stateFor`
abbrev pub state_for : Loaded → Saved → Result Error State
state_for l saved = do
  fail_if (not (saved.plan_id == l.plan_id)) other_state
  confirmed ← or_fail saved.confirmed other_state
  fail_if (ltb (length l.prepared.plan.steps) (length confirmed)) other_state
  ok (record { confirmed = confirmed; pending_hash = saved.pending_hash; review = saved.review })

abbrev pub save : Loaded → State → Saved
save l state = record {
  plan_id = l.plan_id;
  confirmed = some state.confirmed;
  pending_hash = state.pending_hash;
  review = state.review;
}

abbrev pub has_pending : Option ℕ → Bool
has_pending none = false
has_pending (some h) = true

abbrev pub is_unfinished : Plan → State → Bool
is_unfinished plan state = has_pending state.pending_hash || not (is_complete plan state)

-- The verification of the entries, which a reader does not advance.
unfoldable pub advance :
    (List ℕ → ℕ) → Rpc → ℕ → Plan → (read_only : Bool) → State → Result Error State
advance keccak rpc clock plan true state = do
  fail_if (is_unfinished plan state) incomplete
  rest ← verify_all keccak rpc clock plan plan.steps state.confirmed
  ok state
advance keccak rpc clock plan false state = refresh keccak rpc clock plan state

abbrev pub has_any : List Blocker → Bool
has_any [] = false
has_any (b ∷ bs) = true

-- The options of the last preflight: the wallet is done.
abbrev pub final_options : Prepared → State → Preflight
final_options p state = record {
  self_deploy_aqua = p.self_deploy_aqua;
  aqua_address = p.aqua_address;
  aqua_runtime = (preflight_options p state).aqua_runtime;
  require_aqua = (preflight_options p state).require_aqua;
  require_wallet_ready = false;
}

-- The block of the first receipt.
abbrev pub start_of : List Entry → Result Error ℕ
start_of [] = err missing_step
start_of (e ∷ es) = or_fail e.receipt missing_step >>= λ r. number r.block_number

module _ (keccak : List ℕ → ℕ) (order_hash : ℕ → ℕ → ℕ → ℕ) (rpc : Rpc) (net : Network)
    (contracts : Contracts) (clock : ℕ) (l : Loaded) where
  -- What follows the verification of the entries.
  unfoldable pub complete_with : State → Result Error Completion
  complete_with state = do
    fail_if (is_unfinished l.prepared.plan state) incomplete
    seen ← preflight keccak net clock l.prepared.evidence (final_options l.prepared state)
    fail_if
        (not
          (same_option (code_hash keccak seen.usdc_code) (code_hash keccak l.prepared.usdc_code)))
        usdc_changed
    fail_if (has_any seen.blockers) has_blockers
    bound ← bindings contracts net clock (
        expected_reads keccak order_hash l.prepared.self_deploy_aqua l.prepared.plan.deployer
          l.addresses l.tokens)
    start ← start_of state.confirmed
    ok (record {
      state = state;
      manifest = record {
        rpc_url = l.rpc_url;
        addresses = l.addresses;
        start_block = start;
        tokens = l.tokens;
      };
      seen = seen;
      block_hash = bound;
    })

  abbrev pub after_advance : Saved → Result Error State → Result Error Completion × Saved
  after_advance saved (err e) = (err e, saved)
  after_advance saved (ok state) = (complete_with state, save l state)

  abbrev pub from_state : Bool → Saved → Result Error State → Result Error Completion × Saved
  from_state read_only saved (err e) = (err e, saved)
  from_state read_only saved (ok state) = after_advance saved (
      check_network net clock >>= λ block. advance keccak rpc clock l.prepared.plan read_only state)

  -- `verifiedCompletion`: its result, and the state that is saved.
  unfoldable pub verified_completion : Bool → Saved → Result Error Completion × Saved
  verified_completion read_only saved = from_state read_only saved (state_for l saved)

abbrev pub same_token : Token → Token → Bool
same_token t u =
    (t.address == u.address)
    && (t.decimals == u.decimals)
    && same_text t.symbol u.symbol
    && same_flag t.is_mock u.is_mock

abbrev pub same_tokens : List Token → List Token → Bool
same_tokens [] [] = true
same_tokens (t ∷ ts) (u ∷ us) = same_token t u && same_tokens ts us
same_tokens _ _ = false

abbrev pub same_manifest : Manifest → Manifest → Bool
same_manifest m n =
    (m.rpc_url == n.rpc_url)
    && (m.addresses.aqua == n.addresses.aqua)
    && (m.addresses.router == n.addresses.router)
    && (m.addresses.payments == n.addresses.payments)
    && (m.start_block == n.start_block)
    && same_tokens m.tokens n.tokens

abbrev pub is_other_manifest : Option Manifest → Manifest → Bool
is_other_manifest none m = false
is_other_manifest (some n) m = not (same_manifest n m)

abbrev pub receipted : Entry → Receipted
receipted e = record { hash = e.hash; receipt = e.receipt; runtime = e.runtime }

abbrev pub report_of : (List ℕ → ℕ) → Loaded → Completion → Report
report_of keccak l done = record {
  is_verified = true;
  plan_id = l.plan_id;
  self_deploy_aqua = l.prepared.self_deploy_aqua;
  usdc_hash = code_hash keccak done.seen.usdc_code;
  aqua_hash = code_hash keccak done.seen.aqua_code;
  manifest = done.manifest;
  receipts = map receipted done.state.confirmed;
}

-- The two files of an activation.
abbrev pub files_for :
    (List ℕ → ℕ)
    → Loaded
    → Option Manifest
    → Result Error Completion
    → Result Error (Report × Manifest)
files_for keccak l existing completed = do
  done ← completed
  fail_if (is_other_manifest existing done.manifest) other_active
  ok (report_of keccak l done, done.manifest)

abbrev pub same_receipt : Option Receipt → Option Receipt → Bool
same_receipt none none = true
same_receipt (some r) (some s) = r.text == s.text
same_receipt _ _ = false

abbrev pub same_evidence : (List ℕ → ℕ) → Option Runtime → Option Runtime → Bool
same_evidence keccak none none = true
same_evidence keccak (some r) (some s) = same_runtime keccak r s
same_evidence keccak _ _ = false

abbrev pub same_receipts : (List ℕ → ℕ) → List Receipted → List Receipted → Bool
same_receipts keccak [] [] = true
same_receipts keccak (r ∷ rs) (s ∷ ss) =
    (r.hash == s.hash)
    && same_receipt r.receipt s.receipt
    && same_evidence keccak r.runtime s.runtime
    && same_receipts keccak rs ss
same_receipts keccak _ _ = false

-- The tests of a report and of the active manifest, against what is verified again.
unfoldable pub check_report :
    (List ℕ → ℕ) → Loaded → Report → Option Manifest → Completion → Result Error (Unit {0})
check_report keccak l report active done = do
  fail_if (not (report.plan_id == l.plan_id)) report_mismatch
  fail_if (not (same_flag report.self_deploy_aqua l.prepared.self_deploy_aqua)) report_mismatch
  fail_if (not (same_option report.usdc_hash (code_hash keccak done.seen.usdc_code)))
      report_mismatch
  fail_if (not (same_option report.aqua_hash (code_hash keccak done.seen.aqua_code)))
      report_mismatch
  fail_if (not (same_manifest report.manifest done.manifest)) report_mismatch
  manifest ← or_fail active no_report
  fail_if (not (same_manifest manifest done.manifest)) report_mismatch
  fail_if (not (same_receipts keccak report.receipts (map receipted done.state.confirmed)))
      report_mismatch

module _ (keccak : List ℕ → ℕ) (order_hash : ℕ → ℕ → ℕ → ℕ) (rpc : Rpc) (net : Network)
    (contracts : Contracts) (clock : ℕ) (l : Loaded) where
  -- `activateArcDeployment`: the files it writes, and the state that is saved.
  unfoldable pub activate : Option Manifest → Saved → Result Error (Report × Manifest) × Saved
  activate existing saved =
      let (completed, after) =
        verified_completion keccak order_hash rpc net contracts clock l false saved in
      (files_for keccak l existing completed, after)

  -- `verifyActiveArcDeployment`, of the plan that the report names.
  unfoldable pub verify_active : Report → Option Manifest → Saved → Result Error (Option ℕ)
  verify_active report active saved = do
    fail_if (not report.is_verified) no_report
    done ← (verified_completion keccak order_hash rpc net contracts clock l true saved).0
    check_report keccak l report active done
    ok done.block_hash
