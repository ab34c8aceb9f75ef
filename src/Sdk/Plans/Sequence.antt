-- ===== src/Sdk/Plans/Sequence.antt =====
-- The order of the steps of `buildMakerPlan` (packages/sdk/src/plans.ts).
use mathlib.Core.Path.{ap₂}
use aqua_orbital.Prelude.{
  ℕ, zero, suc, ◌+◌, ◌*◌, ◌≤◌, ◌≡◌, ◌⊎◌, Bool, true, false, ◌&&◌, List, [], ◌∷◌, ◌++◌, Option, map,
  length, ltb, leb, arith, if◌then◌else◌, Result, err, ◌>>◌, fail_if, All, fail_if->>-eq-ok,
}
use aqua_orbital.Shared.{Address}
use aqua_orbital.Sdk.Errors.{Error, nonce_exhausted}
use aqua_orbital.Sdk.Codec.Orders.{Plan, Label, approve_amount, activate, ship_strategy}
use aqua_orbital.Sdk.Plans.{Strategy}
use aqua_orbital.Sdk.Plans.Makers
use aqua_orbital.Sdk.Plans.Makers.{Lifecycle, Observed}
pub mod Tests

abbrev pub labels : List Plan → List Label
labels ps = map (λ (p : Plan). p.label) ps

abbrev pub shipping : Bool → List Label
shipping true = []
shipping false = ship_strategy ∷ []

-- The approvals that a token needs: none for an allowance of four times the funding; else one, after one
-- that resets the allowance if the token asks for it and there is some.
abbrev pub needed : (initial allowance : ℕ) (needs_reset : Bool) → ℕ
needed initial allowance needs_reset =
    if leb (initial * 4) allowance then 0 else if needs_reset && ltb 0 allowance then 2 else 1

-- An approval, which is sent to the token itself.
abbrev pub IsApproval : Address → Plan → Type 0
IsApproval token p = (p.label ≡ approve_amount) × (p.to ≡ token)

-- The approvals of the tokens in order, each as many as it needs.
abbrev pub Approved : List Address → List ℕ → List ℕ → List Bool → List Plan → Type 0
Approved (t ∷ ts) (i ∷ is) (a ∷ as1) (r ∷ rs) ps =
    (first rest : List Plan) × (ps ≡ first ++ rest)
    × (length first ≡ needed i a r)
    × All (IsApproval t) first
    × Approved ts is as1 rs rest
Approved _ _ _ _ ps = ps ≡ []

-- The approvals that the observed allowances need, then the shipping if it has not been, then the
-- activation.
abbrev pub IsPublication : Strategy → Observed → List Plan → Type 0
IsPublication s seen steps =
    (first second : List Plan) × (last : Plan) × (steps ≡ first ++ second ++ last ∷ [])
    × Approved s.config.tokens s.config.initial_amounts_raw seen.allowances seen.reset_required
        first
    × (labels second ≡ shipping seen.shipped)
    × (last.label ≡ activate)

-- The steps for a lifecycle: an active strategy needs none.
abbrev pub IsFor : Strategy → Observed → List Plan → Lifecycle → Type 0
IsFor s seen steps Makers.active = steps ≡ []
IsFor s seen steps _ = IsPublication s seen steps

record HasLabel (l : Label) (p : Plan) : Type 0 where
  is_label : p.label ≡ l
