-- ===== src/Deploy/Arc/Bindings/Shown.antt =====
-- What the contracts of an Arc deployment have answered when their bindings are verified
-- (scripts/lib/arc-deployment.mjs, `bindings`).
use mathlib.Core.Path.{ap₂}
use aqua_orbital.Prelude.{
  ℕ, ◌≡◌, refl, ap, ◌∙◌, true, false, not, List, [], ◌∷◌, Option, some, ==_iff, &&-eq-true, ok,
  or_fail, >>=-elim, or_fail-eq-ok, ok-injective, fail_if->>-eq-ok,
}
use aqua_orbital.Text.{same_text-eq-true}
use aqua_orbital.Projections.Strategies.Lives.{not-eq-false}
use aqua_orbital.Indexer.Canonical.{same_option}
use aqua_orbital.Deploy.Arc.{
  rpc_failed, not_a_number, noncanonical_getter, binding_mismatch, block_orphaned,
}
use aqua_orbital.Deploy.Arc.Reviews.{same_option-eq}
use aqua_orbital.Deploy.Arc.Status.{Network, check_network}
use aqua_orbital.Deploy.Arc.Bindings.{
  Scalar, natural, flag, text, no_items, Answer, Contracts, Expected, same_scalar, same_outputs,
  check_reads, bindings,
}

-- Every getter answers what is expected of it, in its one encoding.
abbrev pub AllRead : Contracts → ℕ → List Expected → Type 0
AllRead contracts clock [] = Unit
AllRead contracts clock (e ∷ es) =
    (contracts.call clock e.to e.getter
      ≡ some (record { outputs = e.outputs; is_canonical = true }))
    × AllRead contracts clock es

same_scalar-eq-true : (x y : Scalar) → same_scalar x y ≡ true → x ≡ y
same_scalar-eq-true (natural n) (natural m) h = ap natural ((==_iff n m).0 h)
same_scalar-eq-true (natural n) (flag b) h = cc
same_scalar-eq-true (natural n) (text t) h = cc
same_scalar-eq-true (natural n) no_items h = cc
same_scalar-eq-true (flag a) (natural m) h = cc
same_scalar-eq-true (flag true) (flag true) h = refl
same_scalar-eq-true (flag true) (flag false) h = cc
same_scalar-eq-true (flag false) (flag true) h = cc
same_scalar-eq-true (flag false) (flag false) h = refl
same_scalar-eq-true (flag a) (text t) h = cc
same_scalar-eq-true (flag a) no_items h = cc
same_scalar-eq-true (text s) (natural m) h = cc
same_scalar-eq-true (text s) (flag b) h = cc
same_scalar-eq-true (text s) (text t) h = ap text (same_text-eq-true s t h)
same_scalar-eq-true (text s) no_items h = cc
same_scalar-eq-true no_items (natural m) h = cc
same_scalar-eq-true no_items (flag b) h = cc
same_scalar-eq-true no_items (text t) h = cc
same_scalar-eq-true no_items no_items h = refl

same_outputs-eq-true : (xs ys : List Scalar) → same_outputs xs ys ≡ true → xs ≡ ys
same_outputs-eq-true [] [] h = refl
same_outputs-eq-true [] (y ∷ ys) h = cc
same_outputs-eq-true (x ∷ xs) [] h = cc
same_outputs-eq-true (x ∷ xs) (y ∷ ys) h =
    let (first, rest) = &&-eq-true (same_scalar x y) (same_outputs xs ys) h in
    ap₂ (λ a as1. a ∷ as1) (same_scalar-eq-true x y first) (same_outputs-eq-true xs ys rest)

answer_with :
    (a : Answer) (xs : List Scalar)
    → a.is_canonical ≡ true
    → a.outputs ≡ xs
    → a ≡ record { outputs = xs; is_canonical = true }
answer_with a xs c o = ap₂ (λ o2 c2. record { outputs = o2; is_canonical = c2 }) o c

check_reads-AllRead :
    (contracts : Contracts) (clock : ℕ) (es : List Expected) {u : Unit {0}}
    → check_reads contracts clock es ≡ ok u
    → AllRead contracts clock es
unfolding check_reads
check_reads-AllRead contracts clock [] h = tt
check_reads-AllRead contracts clock (x ∷ es) h =
    >>=-elim (or_fail (contracts.call clock x.to x.getter) rpc_failed) _ h (λ found answered h1.
      let (canonical, h2) = fail_if->>-eq-ok (not found.is_canonical) noncanonical_getter _ h1 in
      let (same, h3) =
        fail_if->>-eq-ok (not (same_outputs found.outputs x.outputs)) binding_mismatch _ h2 in
      (
        or_fail-eq-ok _ _ answered
            ∙ ap (λ (a : Answer). some a)
                (answer_with found x.outputs (not-eq-false found.is_canonical canonical) (
                  same_outputs-eq-true found.outputs x.outputs
                    (not-eq-false (same_outputs found.outputs x.outputs) same))),
        check_reads-AllRead contracts clock es h3,
      ))

-- The reads are as expected, and the block that they were made at has kept its hash.
pub bindings-AllRead :
    (contracts : Contracts) (net : Network) (clock : ℕ) (reads : List Expected) (hash : Option ℕ)
    → bindings contracts net clock reads ≡ ok hash
    → AllRead contracts clock reads × (contracts.again clock ≡ some (some hash))
unfolding bindings
bindings-AllRead contracts net clock reads hash h =
    >>=-elim (check_network net clock) _ h (λ block n h1.
      >>=-elim (check_reads contracts clock reads) _ h1 (λ u read h2.
        >>=-elim (or_fail (contracts.again clock) rpc_failed) _ h2 (λ asked a h3.
          >>=-elim (or_fail asked not_a_number) _ h3 (λ again g h4.
            let (same, h5) =
              fail_if->>-eq-ok (not (same_option again block.hash)) block_orphaned _ h4 in
            (
              check_reads-AllRead contracts clock reads read,
              or_fail-eq-ok _ _ a
                  ∙ ap (λ (o : Option (Option ℕ)). some o)
                      (or_fail-eq-ok _ _ g
                        ∙ ap (λ (o : Option ℕ). some o)
                            (same_option-eq again block.hash same ∙ ok-injective h5)),
            )))))
