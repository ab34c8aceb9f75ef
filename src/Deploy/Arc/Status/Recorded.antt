-- ===== src/Deploy/Arc/Status/Recorded.antt =====
-- The hashes that are recorded for an Arc deployment (scripts/lib/arc-deployment.mjs,
-- `recordArcTransaction`).
use aqua_orbital.Prelude.{
  ℕ, ◌≡◌, ◌⊎◌, inl, inr, refl, true, false, List, Bool-cases, Result, ok, err, fail_if->>-eq-ok,
}
use aqua_orbital.Deploy.Arc.{Error, other_pending, Plan, State, Rpc, refresh}
use aqua_orbital.Deploy.Arc.Refreshed.{IsPromoted, refresh-IsRefreshed}
use aqua_orbital.Deploy.Arc.Status.{
  Network, is_confirmed, is_other, check_hash, with_pending, refreshed, record_after,
  record_arc_transaction,
}

-- No other hash was pending, and this one is, or has become the next entry.
abbrev pub IsTaken : State → ℕ → State → Type 0
IsTaken state hash out =
    (is_other state.pending_hash hash ≡ false)
    × ((out ≡ with_pending hash state) ⊎ IsPromoted (with_pending hash state) out)

-- The state after a hash, whether the call throws or not.
abbrev pub IsOutcome : State → ℕ → Result Error (Unit {0}) × State → Type 0
IsOutcome state hash (err e, out) = (out ≡ state) ⊎ IsTaken state hash out
IsOutcome state hash (ok u, out) =
    ((is_confirmed hash state ≡ true) × (out ≡ state)) ⊎ IsTaken state hash out

check_hash-pending :
    (rpc : Rpc) (net : Network) (clock : ℕ) (plan : Plan) (state : State) (hash : ℕ) {u : Unit {0}}
    → check_hash rpc net clock plan state hash ≡ ok u
    → is_other state.pending_hash hash ≡ false
unfolding check_hash
check_hash-pending rpc net clock plan state hash e =
    let (same, e1) = fail_if->>-eq-ok (is_other state.pending_hash hash) other_pending _ e in same

module _ (keccak : List ℕ → ℕ) (rpc : Rpc) (clock : ℕ) (plan : Plan) (state : State)
    (hash : ℕ) where
  refreshed-IsOutcome :
      (r : Result Error State)
      → is_other state.pending_hash hash ≡ false
      → ((out : State)
          → r ≡ ok out
          → (out ≡ with_pending hash state) ⊎ IsPromoted (with_pending hash state) out)
      → IsOutcome state hash (refreshed (with_pending hash state) r)
  refreshed-IsOutcome (err e) free k = inr (free, inl refl)
  refreshed-IsOutcome (ok out) free k = inr (free, k out refl)

  record_after-IsOutcome :
      (r : Result Error (Unit {0}))
      → ((u : Unit {0}) → r ≡ ok u → is_other state.pending_hash hash ≡ false)
      → IsOutcome state hash (record_after keccak rpc clock plan state hash r)
  record_after-IsOutcome (err e) k = inl refl
  record_after-IsOutcome (ok u) k =
      refreshed-IsOutcome (refresh keccak rpc clock plan (with_pending hash state)) (k u refl)
        (λ out e. (refresh-IsRefreshed keccak rpc clock plan (with_pending hash state) out e).1)

-- If `recordArcTransaction` succeeds, the hash is one of a confirmed entry and the state stays, or no other
-- hash was pending and the hash is pending now or has become the next entry, whose review is the one
-- that was kept. If it throws, the state stays, or the hash is recorded in the same way.
pub record_arc_transaction-IsOutcome :
    (keccak : List ℕ → ℕ) (rpc : Rpc) (net : Network) (clock : ℕ) (plan : Plan) (state : State)
    (hash : ℕ)
    → IsOutcome state hash (record_arc_transaction keccak rpc net clock plan state hash)
unfolding record_arc_transaction
record_arc_transaction-IsOutcome keccak rpc net clock plan state hash =
    elim (Bool-cases (is_confirmed hash state)) [
      | inl known ↦ rw known (inl (known, refl))
      | inr new ↦ rw new (
          record_after-IsOutcome keccak rpc clock plan state hash
            (check_hash rpc net clock plan state hash)
            (λ u e. check_hash-pending rpc net clock plan state hash e))
    ]
