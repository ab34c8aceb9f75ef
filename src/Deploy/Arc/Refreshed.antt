-- ===== src/Deploy/Arc/Refreshed.antt =====
-- The entries of an Arc deployment after a refresh (scripts/lib/arc-deployment.mjs).
use mathlib.Core.Path.{subst}
use aqua_orbital.Prelude.{
  ℕ, ◌+◌, ◌*◌, ◌≡◌, ◌⊎◌, inl, inr, refl, sym, ap, ◌∙◌, List, [], ◌∷◌, ◌++◌, Option, none, some,
  length, ok, or_fail, >>=-elim, ok-injective,
}
use aqua_orbital.Deploy.Arc.{
  rpc_failed, Step, Transaction, Receipt, Entry, Plan, State, Rpc, validate_transaction,
  verify_entry, verify_all, pending_entry, confirm, promote, settle_pending, refresh,
}
use aqua_orbital.Deploy.Arc.Reviews.{IsConfirmed, verify_entry-IsConfirmed}

-- The entries are confirmed, each as the step of its place.
abbrev pub AllConfirmed : Rpc → Plan → List Step → List Entry → Type 0
AllConfirmed rpc plan ss [] = Unit
AllConfirmed rpc plan [] (e ∷ es) = ⊥
AllConfirmed rpc plan (s ∷ ss) (e ∷ es) =
    IsConfirmed plan s rpc e.hash e.review × AllConfirmed rpc plan ss es

-- The steps that are left once the entries are taken away.
abbrev pub drop_steps : List Step → List Entry → List Step
drop_steps ss [] = ss
drop_steps [] (e ∷ es) = []
drop_steps (s ∷ ss) (e ∷ es) = drop_steps ss es

cons-injective : {s t : Step} {ss ts : List Step} → ◌≡◌ {A = List Step} (s ∷ ss) (t ∷ ts) → s ≡ t
cons-injective h = cc

-- A refresh keeps the state, or confirms the pending transaction as the next step.
pub record IsPromoted (state out : State) : Type 0 where
  pub entry : Entry
  pub pending : state.pending_hash ≡ some entry.hash
  pub reviewed : entry.review ≡ state.review
  pub confirmed : out.confirmed ≡ state.confirmed ++ entry ∷ []
  pub settled : out.pending_hash ≡ none
  pub cleared : out.review ≡ none

module _ (keccak : List ℕ → ℕ) (rpc : Rpc) (plan : Plan) where
  verify_all-AllConfirmed :
      (clock : ℕ) (ss : List Step) (es : List Entry) (rest : List Step)
      → verify_all keccak rpc clock plan ss es ≡ ok rest
      → AllConfirmed rpc plan ss es × (rest ≡ drop_steps ss es)
  unfolding verify_all
  verify_all-AllConfirmed clock ss [] rest e = (tt, sym (ok-injective e))
  verify_all-AllConfirmed clock [] (x ∷ es) rest e = cc
  verify_all-AllConfirmed clock (s ∷ ss) (x ∷ es) rest e =
      >>=-elim (verify_entry keccak rpc clock plan s x) _ e (λ v verified e1.
        let (later, left) = verify_all-AllConfirmed (clock + 2) ss es rest e1 in
        (((verify_entry-IsConfirmed plan s keccak rpc clock x v verified).0, later), left))

  AllConfirmed-snoc :
      (ss : List Step) (es : List Entry) (s : Step) (left : List Step) (x : Entry)
      → AllConfirmed rpc plan ss es
      → drop_steps ss es ≡ s ∷ left
      → IsConfirmed plan s rpc x.hash x.review
      → AllConfirmed rpc plan ss (es ++ x ∷ [])
  AllConfirmed-snoc [] [] s left x h d c = cc
  AllConfirmed-snoc (t ∷ ss) [] s left x h d c =
      (subst (λ k. IsConfirmed plan k rpc x.hash x.review) (cons-injective (sym d)) c, tt)
  AllConfirmed-snoc [] (y ∷ es) s left x h d c = absurd h
  AllConfirmed-snoc (t ∷ ss) (y ∷ es) s left x h d c =
      (h.0, AllConfirmed-snoc ss es s left x h.1 d c)

  -- What is known of the state after a refresh.
  abbrev pub IsRefreshed : State → State → Type 0
  IsRefreshed state out =
      AllConfirmed rpc plan plan.steps out.confirmed × ((out ≡ state) ⊎ IsPromoted state out)

  confirm-IsRefreshed :
      (clock : ℕ) (step : Step) (left : List Step) (hash : ℕ) (state out : State)
      (receipt : Option Receipt)
      → AllConfirmed rpc plan plan.steps state.confirmed
      → drop_steps plan.steps state.confirmed ≡ step ∷ left
      → state.pending_hash ≡ some hash
      → confirm keccak rpc clock plan step hash state receipt ≡ ok out
      → IsRefreshed state out
  confirm-IsRefreshed clock step left hash state out none h d p e = (
    subst (λ (s : State). AllConfirmed rpc plan plan.steps s.confirmed) (ok-injective e) h,
    inl (sym (ok-injective e)),
  )
  confirm-IsRefreshed clock step left hash state out (some r) h d p e =
      >>=-elim (verify_entry keccak rpc clock plan step (pending_entry hash state)) _ e
        (λ x verified e1.
          let (good, same_hash, same_review) =
            verify_entry-IsConfirmed plan step keccak rpc clock (pending_entry hash state) x
              verified in
          let moved =
            subst (λ k. IsConfirmed plan step rpc x.hash k) (sym same_review)
              (subst (λ n. IsConfirmed plan step rpc n state.review) (sym same_hash) good) in
          subst (IsRefreshed state) (ok-injective e1) (
            AllConfirmed-snoc plan.steps state.confirmed step left x h d moved,
            inr (record {
              entry = x;
              pending = p ∙ ap (λ (n : ℕ). some n) (sym same_hash);
              reviewed = same_review;
              confirmed = refl;
              settled = refl;
              cleared = refl;
            }),
          ))

  promote-IsRefreshed :
      (clock : ℕ) (step : Step) (left : List Step) (hash : ℕ) (state out : State)
      (tx : Option Transaction)
      → AllConfirmed rpc plan plan.steps state.confirmed
      → drop_steps plan.steps state.confirmed ≡ step ∷ left
      → state.pending_hash ≡ some hash
      → promote keccak rpc clock plan step hash state tx ≡ ok out
      → IsRefreshed state out
  promote-IsRefreshed clock step left hash state out none h d p e = (
    subst (λ (s : State). AllConfirmed rpc plan plan.steps s.confirmed) (ok-injective e) h,
    inl (sym (ok-injective e)),
  )
  promote-IsRefreshed clock step left hash state out (some tx) h d p e =
      >>=-elim (validate_transaction plan step state.review tx) _ e (λ u valid e1.
        >>=-elim (or_fail (rpc.receipt clock hash) rpc_failed) _ e1
          (λ r asked e2. confirm-IsRefreshed (clock + 2) step left hash state out r h d p e2))

  settle_pending-IsRefreshed :
      (clock : ℕ) (rest : List Step) (state out : State) (pending : Option ℕ)
      → AllConfirmed rpc plan plan.steps state.confirmed
      → rest ≡ drop_steps plan.steps state.confirmed
      → state.pending_hash ≡ pending
      → settle_pending keccak rpc clock plan rest state pending ≡ ok out
      → IsRefreshed state out
  unfolding settle_pending
  settle_pending-IsRefreshed clock rest state out none h d p e = (
    subst (λ (s : State). AllConfirmed rpc plan plan.steps s.confirmed) (ok-injective e) h,
    inl (sym (ok-injective e)),
  )
  settle_pending-IsRefreshed clock [] state out (some hash) h d p e = cc
  settle_pending-IsRefreshed clock (step ∷ rest) state out (some hash) h d p e =
      >>=-elim (or_fail (rpc.transaction clock hash) rpc_failed) _ e
        (λ tx asked e1. promote-IsRefreshed clock step rest hash state out tx h (sym d) p e1)

-- If `refresh` succeeds, every entry that is kept has, as the step of its place in the plan, a review and a
-- transaction that the provider has: from the deployer, on Arc, with the step's recipient, data and nonce,
-- no native value, at most the capped and the reviewed gas, and at most the reviewed fees; the provider
-- has its successful receipt at the step's address; and the state is the one before, or its pending
-- transaction has become the next entry, and no review is left.
pub refresh-IsRefreshed :
    (keccak : List ℕ → ℕ) (rpc : Rpc) (clock : ℕ) (plan : Plan) (state out : State)
    → refresh keccak rpc clock plan state ≡ ok out
    → IsRefreshed keccak rpc plan state out
unfolding refresh
refresh-IsRefreshed keccak rpc clock plan state out e =
    >>=-elim (verify_all keccak rpc clock plan plan.steps state.confirmed) _ e (λ rest verified e1.
      let (confirmed, left) =
        verify_all-AllConfirmed keccak rpc plan clock plan.steps state.confirmed rest verified in
      settle_pending-IsRefreshed keccak rpc plan (clock + 2 * length state.confirmed) rest state out
        state.pending_hash confirmed left refl e1)
