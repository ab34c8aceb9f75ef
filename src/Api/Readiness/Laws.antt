-- ===== src/Api/Readiness/Laws.antt =====
-- What an index that is reported ready has shown (apps/api/src/readiness.ts).
use mathlib.Core.Path.{subst}
use aqua_orbital.Prelude.{
  ℕ, ◌+◌, ◌-◌, ◌≤◌, ◌≡◌, ◌∙◌, ap, ◌⊎◌, inl, inr, min, leb, Bool-cases, refl, Bool, true, false,
  ◌||◌, not, Option, none, some, ltb, ◌==◌, ==_iff, arith, ||-eq-false, ok, or_fail, >>=-elim,
  ok-injective, or_fail-eq-ok, fail_if-eq-ok, fail_if->>-eq-ok,
}
use aqua_orbital.Shared.{Manifest}
use aqua_orbital.Shared.Observations.{is_fresh_indexed_head, max_lag}
use aqua_orbital.Api.Readiness.{
  indexer_resync_required, indexer_stale, indexer_orphaned, indexer_unconfirmed,
  indexer_catching_up, indexer_changed, rpc_chain_mismatch, materialization_not_started,
  materialization_deployment_mismatch, materialization_orphaned,
  materialization_version_unsupported, materialization_behind, materialization_ahead,
  materialization_stale, materialization_changed, Projected, Materialization, IndexedState, Head,
  Dependencies, Ready, is_hash, is_fresh, is_stuck, is_version_one, verified_of, check_projected,
  check_materialization, check_cursor, check_head, same_cursor, check_latest, time_of, oldest,
  settle,
}

pub not-eq-false : (b : Bool) → not b ≡ false → b ≡ true
not-eq-false true e = refl
not-eq-false false e = cc

==-eq : (a b : ℕ) → not (a == b) ≡ false → a ≡ b
==-eq a b e = (==_iff a b).0 (not-eq-false (a == b) e)

-- A cursor of the deployment's projections at the state's own block.
pub record IsProjected (state : IndexedState) (now deployment : ℕ) (c : Projected) : Type 0 where
  pub materialization :
      (m : Materialization) × (state.materialization ≡ some m)
      × (m.identity_matches ≡ true)
      × (m.deployment_id ≡ deployment)
      × (m.cursor ≡ some c)
  pub canonical : c.canonical ≡ true
  pub version : c.projection_version ≡ some 1
  pub height : c.height ≡ state.height
  pub hash : c.hash.value ≡ state.hash.value
  pub fresh : is_fresh now c.updated_at ≡ true

-- A read of the database that has passed its tests.
pub record IsLive (state : IndexedState) (now deployment : ℕ) (c : Projected) : Type 0 where
  pub indexing : is_stuck state.status ≡ false
  pub canonical : state.canonical ≡ true
  pub fresh : is_fresh now state.updated_at ≡ true
  pub projected : IsProjected state now deployment c

-- A head at which the block of the index is confirmed, canonical and not too old.
pub record IsConfirmed (chain_id : ℕ) (state : IndexedState) (rpc : Head) : Type 0 where
  pub chain : rpc.chain_id ≡ chain_id
  pub hash : rpc.indexed_block_hash.value ≡ state.hash.value
  pub confirmed : state.height + 2 ≤ rpc.head
  pub near : rpc.head ≤ state.height + max_lag chain_id

version_one : (v : Option ℕ) → is_version_one v ≡ true → v ≡ some 1
version_one none h = cc
version_one (some v) h = rw ((==_iff v 1).0 h) refl

check_projected-IsProjected :
    (state : IndexedState) (now : ℕ) (m : Materialization) (c : Projected) {u : Unit {0}}
    → state.materialization ≡ some m
    → m.identity_matches ≡ true
    → m.cursor ≡ some c
    → check_projected state now c ≡ ok u
    → IsProjected state now m.deployment_id c
unfolding check_projected
check_projected-IsProjected state now m c there matches here e =
    let (real, e1) =
      fail_if->>-eq-ok (not c.canonical || not (is_hash c.hash)) materialization_orphaned _ e in
    let (first, e2) =
      fail_if->>-eq-ok (not (is_version_one c.projection_version))
        materialization_version_unsupported _ e1 in
    let (not_behind, e3) =
      fail_if->>-eq-ok (ltb c.height state.height) materialization_behind _ e2 in
    let (not_ahead, e4) = fail_if->>-eq-ok (ltb state.height c.height) materialization_ahead _ e3 in
    let (same, e5) =
      fail_if->>-eq-ok (not (c.hash.value == state.hash.value)) materialization_orphaned _ e4 in
    let young = fail_if-eq-ok (not (is_fresh now c.updated_at)) materialization_stale e5 in
    record {
      materialization = (m, there, matches, refl, here);
      canonical = not-eq-false _ (||-eq-false (not c.canonical) (not (is_hash c.hash)) real).0;
      version = version_one _ (not-eq-false _ first);
      height = ground (arith, not_behind, not_ahead);
      hash = ==-eq _ _ same;
      fresh = not-eq-false _ young;
    }

check_materialization-IsProjected :
    (state : IndexedState) (now d : ℕ) (c : Projected)
    → check_materialization state now ≡ ok (d, c)
    → IsProjected state now d c
unfolding check_materialization
check_materialization-IsProjected state now d c e =
    >>=-elim (or_fail state.materialization materialization_not_started) _ e (λ m there e1.
      let (matches, e2) =
        fail_if->>-eq-ok (not m.identity_matches) materialization_deployment_mismatch _ e1 in
      >>=-elim (or_fail m.cursor materialization_not_started) _ e2 (λ p here e3.
        >>=-elim (check_projected state now p) _ e3 (λ u passed e4.
          subst (λ (r : ℕ × Projected). IsProjected state now r.0 r.1) (ok-injective e4)
            (check_projected-IsProjected state now m p (or_fail-eq-ok _ _ there)
              (not-eq-false _ matches) (or_fail-eq-ok _ _ here) passed))))

pub check_cursor-IsLive :
    (now d : ℕ) (state : IndexedState) (c : Projected)
    → check_cursor now state ≡ ok (d, c)
    → IsLive state now d c
unfolding check_cursor
check_cursor-IsLive now d state c e =
    let (running, e1) = fail_if->>-eq-ok (is_stuck state.status) indexer_resync_required _ e in
    let (young, e2) =
      fail_if->>-eq-ok (not (is_fresh now state.updated_at) || not (is_hash state.hash))
        indexer_stale _ e1 in
    let (real, e3) = fail_if->>-eq-ok (not state.canonical) indexer_orphaned _ e2 in
    record {
      indexing = running;
      canonical = not-eq-false _ real;
      fresh =
          not-eq-false _
            (||-eq-false (not (is_fresh now state.updated_at)) (not (is_hash state.hash)) young).0;
      projected = check_materialization-IsProjected state now d c e3;
    }

pub check_head-IsConfirmed :
    (chain_id : ℕ) (state : IndexedState) (rpc : Head) {u : Unit {0}}
    → check_head chain_id state rpc ≡ ok u
    → IsConfirmed chain_id state rpc
unfolding check_head is_fresh_indexed_head
check_head-IsConfirmed chain_id state rpc e =
    let (chain, e1) = fail_if->>-eq-ok (not (rpc.chain_id == chain_id)) rpc_chain_mismatch _ e in
    let (same, e2) =
      fail_if->>-eq-ok (not (rpc.indexed_block_hash.value == state.hash.value)) indexer_orphaned _
        e1 in
    let (deep, e3) = fail_if->>-eq-ok (ltb rpc.head (state.height + 2)) indexer_unconfirmed _ e2 in
    let near =
      fail_if-eq-ok (not (is_fresh_indexed_head chain_id rpc.head state.height)) indexer_catching_up
        e3 in
    record {
      chain = ==-eq _ _ chain;
      hash = ==-eq _ _ same;
      confirmed = ground (arith, deep);
      near = ground (arith, near);
    }

-- The second read, and what it says of the first one at its time.
pub record IsStill (checked_at d : ℕ) (cursor latest : IndexedState) (c : Projected) : Type 0 where
  pub live : IsLive latest checked_at d c
  pub height : latest.height ≡ cursor.height
  pub hash : latest.hash.value ≡ cursor.hash.value
  pub fresh : is_fresh checked_at cursor.updated_at ≡ true

pub check_latest-IsStill :
    (checked_at d : ℕ) (cursor latest : IndexedState) (c : Projected)
    → check_latest checked_at cursor latest ≡ ok (d, c)
    → IsStill checked_at d cursor latest c
unfolding check_latest
check_latest-IsStill checked_at d cursor latest c e =
    let (running, e1) = fail_if->>-eq-ok (is_stuck latest.status) indexer_resync_required _ e in
    let (same, e2) = fail_if->>-eq-ok (not (same_cursor latest cursor)) indexer_changed _ e1 in
    let (real, e3) = fail_if->>-eq-ok (not latest.canonical) indexer_orphaned _ e2 in
    let (young, e4) =
      fail_if->>-eq-ok
        (not (is_fresh checked_at latest.updated_at) || not (is_fresh checked_at cursor.updated_at))
        indexer_stale _ e3 in
    let (later, sooner) =
      ||-eq-false (not (is_fresh checked_at latest.updated_at))
        (not (is_fresh checked_at cursor.updated_at)) young in
    record {
      live = record {
        indexing = running;
        canonical = not-eq-false _ real;
        fresh = not-eq-false _ later;
        projected = check_materialization-IsProjected latest checked_at d c e4;
      };
      height = ground (arith, same);
      hash = ground (arith, same);
      fresh = not-eq-false _ sooner;
    }

-- What a readiness shows: two reads of the database around one of the chain.
pub record IsReady (m : Manifest) (d : Dependencies) (now : ℕ) (r : Ready) : Type 0 where
  pub cursor : IndexedState
  pub latest : IndexedState
  pub head : Head
  pub deployment : ℕ
  pub projected : Projected
  pub projected_later : Projected
  pub first_read : d.read_database 0 ≡ some (some cursor)
  pub second_read : d.read_database 1 ≡ some (some latest)
  pub chain_read : d.read_rpc cursor ≡ some head
  pub verified : m.verified ≡ true
  pub live : IsLive cursor now deployment projected
  pub confirmed : IsConfirmed m.chain_id cursor head
  pub still : IsStill (now + d.elapsed) deployment cursor latest projected_later
  pub chain_id : r.chain_id ≡ m.chain_id
  pub block : r.block ≡ cursor.height
  pub hash : r.hash ≡ cursor.hash
  pub oldest_first :
      (r.indexed_at ≤ time_of cursor.updated_at)
      × (r.indexed_at ≤ time_of latest.updated_at)
      × (r.indexed_at ≤ time_of projected.updated_at)
      × (r.indexed_at ≤ time_of projected_later.updated_at)
  pub observed :
      (some r.indexed_at ≡ cursor.updated_at)
      ⊎ ((some r.indexed_at ≡ latest.updated_at)
          ⊎ ((some r.indexed_at ≡ projected.updated_at)
              ⊎ (some r.indexed_at ≡ projected_later.updated_at)))
  pub age : now + d.elapsed ≤ r.indexed_at + r.age_ms
  pub young : r.age_ms ≤ 10000

min-either : (a b : ℕ) → (min a b ≡ a) ⊎ (min a b ≡ b)
min-either a b = elim (Bool-cases (leb a b)) [
  | inl e ↦ inl (ground (arith, e))
  | inr e ↦ inr (ground (arith, e))
]

-- A fresh date is a date.
fresh-date : (now : ℕ) (t : Option ℕ) → is_fresh now t ≡ true → some (time_of t) ≡ t
fresh-date now none h = cc
fresh-date now (some t) h = refl

dated : (n : ℕ) (t : Option ℕ) → some (time_of t) ≡ t → n ≡ time_of t → some n ≡ t
dated n t h e = ap (λ (x : ℕ). some x) e ∙ h

-- The oldest of the four dates is one of them.
pub oldest-observed :
    (now later : ℕ) (cursor latest : IndexedState) (p q : Projected)
    → is_fresh now cursor.updated_at ≡ true
    → is_fresh later latest.updated_at ≡ true
    → is_fresh now p.updated_at ≡ true
    → is_fresh later q.updated_at ≡ true
    → let n = oldest cursor latest p q in
      (some n ≡ cursor.updated_at)
      ⊎ ((some n ≡ latest.updated_at) ⊎ ((some n ≡ p.updated_at) ⊎ (some n ≡ q.updated_at)))
oldest-observed now later cursor latest p q f g h k =
    let a = time_of cursor.updated_at in
    let b = time_of latest.updated_at in
    let c = time_of p.updated_at in
    let d = time_of q.updated_at in
    elim (min-either a (min b (min c d))) [
      | inl e ↦ inl (dated _ _ (fresh-date now _ f) e)
      | inr e ↦ inr (elim (min-either b (min c d)) [
        | inl e2 ↦ inl (dated _ _ (fresh-date later _ g) (e ∙ e2))
        | inr e2 ↦ inr (elim (min-either c d) [
          | inl e3 ↦ inl (dated _ _ (fresh-date now _ h) (e ∙ e2 ∙ e3))
          | inr e3 ↦ inr (dated _ _ (fresh-date later _ k) (e ∙ e2 ∙ e3))
        ])
      ])
    ]

pub verified_of-verified :
    (o : Option Manifest) (m : Manifest)
    → verified_of o ≡ some m
    → (o ≡ some m) × (m.verified ≡ true)
verified_of-verified none m e = cc
verified_of-verified (some n) m e = ground arith

pub settle-ready :
    (chain_id checked_at : ℕ) (cursor latest : IndexedState) (d d' : ℕ) (p q : Projected)
    (r : Ready)
    → settle chain_id checked_at cursor latest (d, p) (d', q) ≡ ok r
    → (d' ≡ d)
      × (checked_at - oldest cursor latest p q ≤ 10000)
      × (record {
        chain_id = chain_id;
        block = cursor.height;
        hash = cursor.hash;
        indexed_at = oldest cursor latest p q;
        age_ms = checked_at - oldest cursor latest p q;
      }
          ≡ r)
unfolding settle
settle-ready chain_id checked_at cursor latest d d' p q r e =
    let (same, e1) = fail_if->>-eq-ok (not (d' == d)) materialization_changed _ e in
    let (young, e2) =
      fail_if->>-eq-ok (ltb 10000 (checked_at - oldest cursor latest p q)) materialization_stale _
        e1 in
    (==-eq d' d same, ground (arith, young), ok-injective e2)
