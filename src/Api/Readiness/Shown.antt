-- ===== src/Api/Readiness/Shown.antt =====
-- The readiness of apps/api/src/readiness.ts as a whole.
use mathlib.Core.Path.{subst}
use aqua_orbital.Prelude.{
  ℕ, ◌+◌, ◌≡◌, refl, sym, true, Option, some, arith, ok, or_fail, >>=-elim, or_fail-eq-ok,
}
use aqua_orbital.Shared.{Manifest}
use aqua_orbital.Api.Readiness.{
  deployment_unavailable, database_unavailable, indexer_not_started, indexer_changed,
  rpc_unavailable, Code, Projected, IndexedState, Head, Dependencies, Ready, verified_of,
  check_cursor, check_head, check_latest, settle, check_readiness,
}
use aqua_orbital.Api.Readiness.Laws.{
  IsReady, IsStill, check_cursor-IsLive, check_head-IsConfirmed, check_latest-IsStill,
  verified_of-verified, settle-ready, oldest-observed,
}

module _ (m : Manifest) (d : Dependencies) (now : ℕ) (r : Ready) (cursor latest : IndexedState)
    (head : Head) where
  settled :
      (p q : ℕ × Projected) {u : Unit {0}}
      → m.verified ≡ true
      → d.read_database 0 ≡ some (some cursor)
      → d.read_database 1 ≡ some (some latest)
      → d.read_rpc cursor ≡ some head
      → check_cursor now cursor ≡ ok p
      → check_head m.chain_id cursor head ≡ ok u
      → check_latest (now + d.elapsed) cursor latest ≡ ok q
      → settle m.chain_id (now + d.elapsed) cursor latest p q ≡ ok r
      → IsReady m d now r
  settled (d1, p) (d2, q) verified first second asked live confirmed still e =
      let (same, young, made) =
        settle-ready m.chain_id (now + d.elapsed) cursor latest d1 d2 p q r e in
      subst (IsReady m d now) made (record {
        cursor = cursor;
        latest = latest;
        head = head;
        deployment = d1;
        projected = p;
        projected_later = q;
        first_read = first;
        second_read = second;
        chain_read = asked;
        verified = verified;
        live = check_cursor-IsLive now d1 cursor p live;
        confirmed = check_head-IsConfirmed m.chain_id cursor head confirmed;
        still =
            subst (λ i. IsStill (now + d.elapsed) i cursor latest q) same
              (check_latest-IsStill (now + d.elapsed) d2 cursor latest q still);
        chain_id = refl;
        block = refl;
        hash = refl;
        oldest_first = (omega arith, omega arith, omega arith, omega arith);
        observed =
            let one = check_cursor-IsLive now d1 cursor p live in
            let two = check_latest-IsStill (now + d.elapsed) d2 cursor latest q still in
            oldest-observed now (now + d.elapsed) cursor latest p q one.fresh two.live.fresh
              one.projected.fresh two.live.projected.fresh;
        age = omega arith;
        young = young;
      })

some-injective : {a b : Manifest} → ◌≡◌ {A = Option Manifest} (some a) (some b) → a ≡ b
some-injective h = cc

read_at :
    (read : Option (Option IndexedState)) (found : Option IndexedState) (s : IndexedState)
    (c c' : Code)
    → or_fail read c ≡ ok found
    → or_fail found c' ≡ ok s
    → read ≡ some (some s)
read_at read found s c c' f g =
    subst (λ o. read ≡ some o) (or_fail-eq-ok found c' g) (or_fail-eq-ok read c f)

-- If `checkReadiness` reports ready, then the deployment is verified; the first read of the database has
-- shown a block that is canonical, fresh, and where the deployment's projections of version 1 stand, which
-- are canonical and fresh; the chain has that block, at least 2 and at most the allowed lag below its
-- head; the second read has shown the same block and deployment, still canonical and with projections
-- there, fresh at its time; and the answer is that block, with the oldest of the four dates, which was not
-- more than 10 seconds ago.
pub check_readiness-IsReady :
    (m : Manifest) (d : Dependencies) (now : ℕ) (r : Ready)
    → check_readiness (some m) (some d) now ≡ ok r
    → IsReady m d now r
unfolding check_readiness
check_readiness-IsReady m d now r e =
    >>=-elim (or_fail (verified_of (some m)) deployment_unavailable) _ e (λ n good e1.
      let (same, verified) = verified_of-verified (some m) n (or_fail-eq-ok _ _ good) in
      >>=-elim (or_fail (d.read_database 0) database_unavailable) _ e1 (λ found first e2.
        >>=-elim (or_fail found indexer_not_started) _ e2 (λ cursor started e3.
          >>=-elim (check_cursor now cursor) _ e3 (λ p live e4.
            >>=-elim (or_fail (d.read_rpc cursor) rpc_unavailable) _ e4 (λ head asked e5.
              >>=-elim (check_head n.chain_id cursor head) _ e5 (λ u confirmed e6.
                >>=-elim (or_fail (d.read_database 1) database_unavailable) _ e6 (λ again second e7.
                  >>=-elim (or_fail again indexer_changed) _ e7 (λ latest there e8.
                    >>=-elim (check_latest (now + d.elapsed) cursor latest) _ e8 (λ q still e9.
                      subst (λ k. IsReady k d now r) (some-injective (sym same))
                        (settled n d now r cursor latest head p q verified
                          (read_at (d.read_database 0) found cursor _ _ first started)
                          (read_at (d.read_database 1) again latest _ _ second there)
                          (or_fail-eq-ok _ _ asked) live confirmed still e9))))))))))
