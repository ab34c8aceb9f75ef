-- ===== src/Sdk/Controls/Tests.antt =====
-- The largest input (packages/sdk/src/swap-controls.ts) of a balance of one token.
use aqua_orbital.Prelude.{ℕ, ◌-◌, ◌≡◌, refl, [], ◌∷◌, Option, some, arith, ok}
use aqua_orbital.Sdk.Controls.{
  Stage, swap, maximum_swap_input, try_candidates, estimate_maximum_swap, reserve,
}
use aqua_orbital.Sdk.Controls.Laws.{
  IsAffordable, estimate_maximum_swap-IsAffordable, estimate_maximum_swap_steady,
}

-- Every swap costs 0.03 of the token in gas.
abbrev steady_cost : ℕ → ℕ → Option (Stage × ℕ)
steady_cost step input = some (swap, 30000000000000000)

accepts : estimate_maximum_swap steady_cost 1000000 ≡ ok 940000
unfolding estimate_maximum_swap try_candidates maximum_swap_input
accepts = refl

estimate_maximum_swap-IsAffordable_example : IsAffordable steady_cost 1000000 940000
estimate_maximum_swap-IsAffordable_example =
    estimate_maximum_swap-IsAffordable steady_cost 1000000 940000 accepts

estimate_maximum_swap_steady_example :
    estimate_maximum_swap steady_cost 1000000 ≡ ok (1000000 - reserve (30000000000000000 ∷ []))
estimate_maximum_swap_steady_example =
    estimate_maximum_swap_steady steady_cost 1000000 30000000000000000 (λ k a. refl) (omega arith)
      (omega arith)
