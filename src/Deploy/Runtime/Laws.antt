-- ===== src/Deploy/Runtime/Laws.antt =====
-- What a verified code has in common with the compiler's (scripts/lib/local-deployment.mjs).
use mathlib.Core.Path.{subst}
use aqua_orbital.Prelude.{
  ℕ, zero, suc, ◌+◌, ◌≤◌, ◌≡◌, refl, sym, ap, ◌∙◌, Bool, true, ◌||◌, not, List, [], ◌∷◌, Option,
  some, ltb, leb, ◌==◌, all, length, get_elem?, arith, &&-eq-true, ok, or_fail, >>=-elim,
  or_fail-eq-ok, ok-injective, fail_if->>-eq-ok,
}
use aqua_orbital.Text.{same_text, same_text-eq-true}
use aqua_orbital.Projections.Strategies.Lives.{not-eq-false}
use aqua_orbital.Deploy.Runtime.{
  immutable_value_mismatch, runtime_simulation_mismatch, runtime_template_mismatch, Location, Span,
  slice, zero_out, immutable_spans, value_of, differs, mask_all, Runtime, verify_runtime,
}

-- Whether a place is in no span.
abbrev pub is_outside : ℕ → Span → Bool
is_outside i s = ltb i s.start || leb (s.start + 32) i

get_elem?-zero_out :
    (s n : ℕ) (xs : List ℕ) (i : ℕ)
    → (ltb i s || leb (s + n) i) ≡ true
    → get_elem? (zero_out s n xs) i ≡ get_elem? xs i
unfolding zero_out
get_elem?-zero_out zero n [] i h = refl
get_elem?-zero_out (suc s) n [] i h = refl
get_elem?-zero_out zero zero (x ∷ xs) i h = refl
get_elem?-zero_out zero (suc n) (x ∷ xs) zero h = absurd (ground (arith, h))
get_elem?-zero_out zero (suc n) (x ∷ xs) (suc i) h =
    get_elem?-zero_out zero n xs i (ground (arith, h))
get_elem?-zero_out (suc s) n (x ∷ xs) zero h = refl
get_elem?-zero_out (suc s) n (x ∷ xs) (suc i) h = get_elem?-zero_out s n xs i (ground (arith, h))

get_elem?-mask_all :
    (ss : List Span) (code : List ℕ) (values : List (ℕ × List ℕ)) (r : List ℕ × List (ℕ × List ℕ))
    (i : ℕ)
    → mask_all ss code values ≡ ok r
    → all (is_outside i) ss ≡ true
    → get_elem? r.0 i ≡ get_elem? code i
unfolding mask_all
get_elem?-mask_all [] code values r i e h =
    sym (ap (λ (x : List ℕ × List (ℕ × List ℕ)). get_elem? x.0 i) (ok-injective e))
get_elem?-mask_all (s ∷ ss) code values r i e h =
    let (same, e1) =
      fail_if->>-eq-ok (differs (value_of s.id values) (slice s.start 32 code))
        immutable_value_mismatch _ e in
    let (here, later) = &&-eq-true (is_outside i s) (all (is_outside i) ss) h in
    get_elem?-mask_all ss (zero_out s.start 32 code) _ r i e1 later
    ∙ get_elem?-zero_out s.start 32 code i here

-- A runtime that is the simulated one, and the compiler's outside the immutables.
pub record IsRuntime (template : Option (List ℕ))
    (references : Option (List (Option ℕ × List Location))) (simulated actual : Option (List ℕ))
    (r : Runtime) : Type 0 where
  pub code : List ℕ
  pub spans : List Span
  pub compiled : immutable_spans template references ≡ ok (code, spans)
  pub deployed : actual ≡ some r.code
  pub simulation : simulated ≡ some r.code
  pub size : length r.code ≡ length code
  pub small : length r.code ≤ 24576
  pub same : (i : ℕ) → all (is_outside i) spans ≡ true → get_elem? r.code i ≡ get_elem? code i

-- If `verifyRuntime` gives a runtime, it is the deployed code, which is the simulated one and has the length
-- of the compiler's, at most 24576 bytes; and each byte outside the immutables is the compiler's.
pub verify_runtime-IsRuntime :
    (template : Option (List ℕ)) (references : Option (List (Option ℕ × List Location)))
    (simulated actual : Option (List ℕ)) (r : Runtime)
    → verify_runtime template references simulated actual ≡ ok r
    → IsRuntime template references simulated actual r
unfolding verify_runtime
verify_runtime-IsRuntime template references simulated actual r e =
    >>=-elim (immutable_spans template references) _ e (λ c compiled e1.
      >>=-elim (or_fail simulated runtime_simulation_mismatch) _ e1 (λ sim simulation e2.
        >>=-elim (or_fail actual runtime_simulation_mismatch) _ e2 (λ act deployed e3.
          let (equal, e4) =
            fail_if->>-eq-ok (not (same_text act sim)) runtime_simulation_mismatch _ e3 in
          let (sized, e5) =
            fail_if->>-eq-ok
              (not (length act == length c.0) || (length act == 0) || ltb 24576 (length act))
              runtime_template_mismatch _ e4 in
          >>=-elim (mask_all c.1 act []) _ e5 (λ m masked e6.
            let (whole, e7) =
              fail_if->>-eq-ok (not (same_text m.0 c.0)) runtime_template_mismatch _ e6 in
            subst (IsRuntime template references simulated actual) (ok-injective e7) (record {
              code = c.0;
              spans = c.1;
              compiled = compiled;
              deployed = or_fail-eq-ok _ _ deployed;
              simulation =
                  or_fail-eq-ok _ _ simulation
                  ∙ ap (λ (x : List ℕ). some x)
                      (sym (same_text-eq-true act sim (not-eq-false _ equal)));
              size = ground (arith, sized);
              small = ground (arith, sized);
              same = λ i outside.
                  sym (get_elem?-mask_all c.1 act [] m i masked outside)
                  ∙ ap (λ (x : List ℕ). get_elem? x i)
                      (same_text-eq-true m.0 c.0 (not-eq-false _ whole));
            })))))
