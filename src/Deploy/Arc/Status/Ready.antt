-- ===== src/Deploy/Arc/Status/Ready.antt =====
-- The status of an Arc deployment that is ready (scripts/lib/arc-deployment.mjs, `getArcStatus`).
use mathlib.Core.Path.{subst}
use aqua_orbital.Prelude.{
  ℕ, ◌≡◌, refl, sym, ap, ◌∙◌, not, ◌||◌, ◌&&◌, List, [], ◌∷◌, Option, none, some, ◌==◌, ==_iff,
  length, get_elem?, Bool-cases, inl, inr, ok, err, Result, ◌>>=◌, or_fail, >>=-elim, or_fail-eq-ok,
  ok-injective, fail_if->>-eq-ok,
}
use aqua_orbital.Projections.Strategies.Lives.{not-eq-false}
use aqua_orbital.Indexer.Canonical.{same_option}
use aqua_orbital.Deploy.Arc.{
  Error, rpc_failed, not_a_number, missing_step, missing_aqua, nonce_changed, usdc_changed, Step,
  ReviewedTransaction, Review, Plan, State, Rpc, refresh,
}
use aqua_orbital.Deploy.Arc.Refreshed.{AllConfirmed, refresh-IsRefreshed}
use aqua_orbital.Deploy.Arc.Status.{
  Latest, Network, Blocker, Evidence, Preflight, Observation, check_network, aqua_of, is_address,
  arc_usdc, probe_blockers, is_empty, is_missing, preflight, Prepared, preflight_options, Status,
  ready, failed, is_complete, remaining, saved_review, new_review, next_transaction, next_step,
  code_hash, settle_blockers, settle_status, status_after, caught, status_from, get_arc_status,
}
use aqua_orbital.Deploy.Arc.Status.Funded.{IsFunded, saved_review-IsFunded, new_review-IsFunded}

-- The status of an outcome that is ready.
abbrev pub IsFor : Plan → Observation → State → Status → State → Type 0
IsFor plan seen state (ready tx budget) out =
    (step : Step) × (get_elem? plan.steps (length state.confirmed) ≡ some step)
    × (seen.nonce ≡ step.nonce)
    × (out.confirmed ≡ state.confirmed)
    × (out.pending_hash ≡ state.pending_hash)
    × IsFunded plan step (length state.confirmed) seen.balance tx budget out.review
IsFor plan seen state _ out = Unit

module _ (net : Network) (clock : ℕ) where
  next_transaction-IsFor :
      (plan : Plan) (step : Step) (state : State) (seen : Observation) (block : Latest)
      (review : Option Review) (r : Status × State)
      → get_elem? plan.steps (length state.confirmed) ≡ some step
      → seen.nonce ≡ step.nonce
      → state.review ≡ review
      → next_transaction net clock plan step state seen block review ≡ ok r
      → IsFor plan seen state r.0 r.1
  unfolding next_transaction
  next_transaction-IsFor plan step state seen block (some review) r here nonce given e =
      >>=-elim (saved_review plan step state seen block review) _ e (λ x good e1.
        subst (λ (y : Status × State). IsFor plan seen state y.0 y.1) (ok-injective e1)
          (
            step,
            here,
            nonce,
            refl,
            refl,
            subst (IsFunded plan step (length state.confirmed) seen.balance x.0 x.1) (sym given)
                (saved_review-IsFunded plan step state seen block review x good),
          ))
  next_transaction-IsFor plan step state seen block none r here nonce given e =
      >>=-elim (new_review net clock plan step state seen block) _ e (λ x good e1.
        subst (λ (y : Status × State). IsFor plan seen state y.0 y.1) (ok-injective e1)
          (
            step,
            here,
            nonce,
            refl,
            refl,
            new_review-IsFunded plan step net clock state seen block x good,
          ))

  next_step-IsFor :
      (plan : Plan) (state : State) (seen : Observation) (r : Status × State)
      → next_step net clock plan state seen ≡ ok r
      → IsFor plan seen state r.0 r.1
  unfolding next_step
  next_step-IsFor plan state seen r e =
      >>=-elim (or_fail (get_elem? plan.steps (length state.confirmed)) missing_step) _ e
        (λ step there e1.
          let (same, e2) = fail_if->>-eq-ok (not (seen.nonce == step.nonce)) nonce_changed _ e1 in
          >>=-elim (or_fail (net.latest clock) rpc_failed) _ e2 (λ found asked e3.
            >>=-elim (or_fail found not_a_number) _ e3 (λ block b e4.
              next_transaction-IsFor plan step state seen block state.review r
                (or_fail-eq-ok _ _ there) ((==_iff seen.nonce step.nonce).0 (not-eq-false _ same))
                refl e4)))

  settle_blockers-IsFor :
      (p : Prepared) (state : State) (seen : Observation) (bs : List Blocker) (r : Status × State)
      → settle_blockers net clock p state seen bs ≡ ok r
      → IsFor p.plan seen state r.0 r.1
  unfolding settle_blockers
  settle_blockers-IsFor p state seen (b ∷ bs) r e =
      subst (λ (y : Status × State). IsFor p.plan seen state y.0 y.1) (ok-injective e) tt
  settle_blockers-IsFor p state seen [] r e = elim (Bool-cases (is_complete p.plan state)) [
    | inl done ↦
        subst (λ (y : Status × State). IsFor p.plan seen state y.0 y.1)
          (ok-injective (rw done at e)) tt
    | inr more ↦ next_step-IsFor p.plan state seen r (rw more at e)
  ]

-- What the observation of a deployment shows of its account.
record IsSeen (net : Network) (clock : ℕ) (seen : Observation) : Type 0 where
  balance : net.balance clock ≡ some seen.balance
  nonce : net.nonce clock ≡ some seen.nonce

preflight-IsSeen :
    (keccak : List ℕ → ℕ) (net : Network) (clock : ℕ) (evidence : Option Evidence) (p : Preflight)
    (seen : Observation)
    → preflight keccak net clock evidence p ≡ ok seen
    → IsSeen net clock seen
unfolding preflight
preflight-IsSeen keccak net clock evidence p seen e =
    >>=-elim (check_network net clock) _ e (λ block n e0.
      let (there, e1) =
        fail_if->>-eq-ok (not (is_address (aqua_of p evidence))) missing_aqua _ e0 in
      >>=-elim (or_fail (net.code clock (aqua_of p evidence)) rpc_failed) _ e1 (λ aqua_code c e2.
        >>=-elim (or_fail (net.code clock arc_usdc) rpc_failed) _ e2 (λ usdc_code u e3.
          >>=-elim (or_fail (net.decimals clock) rpc_failed) _ e3 (λ decimals d e4.
            >>=-elim (or_fail (net.balance clock) rpc_failed) _ e4 (λ balance b e5.
              >>=-elim (or_fail (net.nonce clock) rpc_failed) _ e5 (λ nonce k e6.
                >>=-elim (or_fail (net.pending_nonce clock) rpc_failed) _ e6 (λ later l e7.
                  >>=-elim
                    (probe_blockers net clock (aqua_of p evidence) (
                      not (is_empty aqua_code)
                      && (not p.self_deploy_aqua || not (is_missing p.aqua_runtime))))
                    _ e7
                    (λ probed q e8. subst (IsSeen net clock) (ok-injective e8) (record {
                      balance = or_fail-eq-ok _ _ b;
                      nonce = or_fail-eq-ok _ _ k;
                    })))))))))

-- What a status that is ready shows: the step after the confirmed ones, and its reviewed transaction.
pub record IsReady (rpc : Rpc) (net : Network) (clock : ℕ) (plan : Plan) (tx : ReviewedTransaction)
    (spent : ℕ) (out : State) : Type 0 where
  pub step : Step
  pub balance : ℕ
  pub confirmed : AllConfirmed rpc plan plan.steps out.confirmed
  pub here : get_elem? plan.steps (length out.confirmed) ≡ some step
  pub nonce : net.nonce clock ≡ some step.nonce
  pub idle : out.pending_hash ≡ none
  pub funds : net.balance clock ≡ some balance
  pub funded : IsFunded plan step (length out.confirmed) balance tx spent out.review

abbrev IsFailed : Status → Type 0
IsFailed (failed e) = Unit
IsFailed _ = ⊥

module _ (keccak : List ℕ → ℕ) (rpc : Rpc) (net : Network) (clock : ℕ) (p : Prepared) where
  IsFor-IsReady :
      (seen : Observation) (fresh out : State) (tx : ReviewedTransaction) (budget : ℕ)
      → AllConfirmed rpc p.plan p.plan.steps fresh.confirmed
      → fresh.pending_hash ≡ none
      → IsSeen net clock seen
      → IsFor p.plan seen fresh (ready tx budget) out
      → IsReady rpc net clock p.plan tx budget out
  IsFor-IsReady seen fresh out tx budget confirmed idle observed
        (step, here, nonce, same, still, funded) =
      record {
        step = step;
        balance = seen.balance;
        confirmed = subst (AllConfirmed rpc p.plan p.plan.steps) (sym same) confirmed;
        here = ap (λ es. get_elem? p.plan.steps (length es)) same ∙ here;
        nonce = observed.nonce ∙ ap (λ (n : ℕ). some n) nonce;
        idle = still ∙ idle;
        funds = observed.balance;
        funded =
            subst (λ es. IsFunded p.plan step (length es) seen.balance tx budget out.review)
              (sym same) funded;
      }

  status_after-IsReady :
      (fresh out : State) (tx : ReviewedTransaction) (budget : ℕ) (waiting : Option ℕ)
      → AllConfirmed rpc p.plan p.plan.steps fresh.confirmed
      → fresh.pending_hash ≡ waiting
      → status_after keccak net clock p fresh waiting ≡ ok (ready tx budget, out)
      → IsReady rpc net clock p.plan tx budget out
  unfolding settle_status
  status_after-IsReady fresh out tx budget (some hash) h w e = cc
  status_after-IsReady fresh out tx budget none h w e =
      >>=-elim (preflight keccak net clock p.evidence (preflight_options p fresh)) _ e
        (λ seen observed e1.
          let (same, e2) =
            fail_if->>-eq-ok
              (not (same_option (code_hash keccak seen.usdc_code) (code_hash keccak p.usdc_code)))
              usdc_changed _ e1 in
          IsFor-IsReady seen fresh out tx budget h w
            (preflight-IsSeen keccak net clock p.evidence (preflight_options p fresh) seen observed)
            (settle_blockers-IsFor net clock p fresh seen
              (remaining (is_complete p.plan fresh) seen.blockers) (ready tx budget, out) e2))

  caught-ready :
      (state out : State) (tx : ReviewedTransaction) (budget : ℕ)
      (r : Result Error (Status × State))
      → caught state r ≡ (ready tx budget, out)
      → r ≡ ok (ready tx budget, out)
  caught-ready state out tx budget (err e) h =
      absurd (subst IsFailed (ap (λ (x : Status × State). x.0) h) tt)
  caught-ready state out tx budget (ok r) h = ap ok h

  status_from-IsReady :
      (state out : State) (tx : ReviewedTransaction) (budget : ℕ) (r : Result Error State)
      → ((fresh : State) → r ≡ ok fresh → AllConfirmed rpc p.plan p.plan.steps fresh.confirmed)
      → status_from keccak net clock p state r ≡ (ready tx budget, out)
      → IsReady rpc net clock p.plan tx budget out
  status_from-IsReady state out tx budget (err e) k h =
      absurd (subst IsFailed (ap (λ (x : Status × State). x.0) h) tt)
  status_from-IsReady state out tx budget (ok fresh) k h =
      status_after-IsReady fresh out tx budget fresh.pending_hash (k fresh refl) refl (
        caught-ready fresh out tx budget (status_after keccak net clock p fresh fresh.pending_hash)
          h)

-- If `getArcStatus` answers that a transaction is ready, then the confirmed entries are those of the first
-- steps of the plan, none is pending, and the transaction is the next step's: from the deployer at the
-- nonce of the account, with the step's data, no native value and at most the capped gas; the account has
-- its whole budget; and the state keeps the review of this transaction and no other.
pub get_arc_status-IsReady :
    (keccak : List ℕ → ℕ) (rpc : Rpc) (net : Network) (clock : ℕ) (p : Prepared) (state out : State)
    (tx : ReviewedTransaction) (budget : ℕ)
    → get_arc_status keccak rpc net clock p state ≡ (ready tx budget, out)
    → IsReady rpc net clock p.plan tx budget out
unfolding get_arc_status
get_arc_status-IsReady keccak rpc net clock p state out tx budget h =
    status_from-IsReady keccak rpc net clock p state out tx budget
      (check_network net clock >>= λ block. refresh keccak rpc clock p.plan state)
      (λ fresh e.
        >>=-elim (check_network net clock) _ e
          (λ block n e1. (refresh-IsRefreshed keccak rpc clock p.plan state fresh e1).0))
      h
