-- ===== src/Sdk/Plans/Sequence/Tests.antt =====
-- The steps that publish the strategy of Sdk/Plans/Tests (`buildMakerPlan`, packages/sdk/src/plans.ts).
use aqua_orbital.Prelude.{true, false, List, [], ◌∷◌}
use aqua_orbital.Shared.{Address}
use aqua_orbital.Sdk.Codec.Orders
use aqua_orbital.Sdk.Codec.Orders.{
  Plan, Label, approve_amount, ship_strategy, activate, encode_order,
}
use aqua_orbital.Sdk.Plans.{Context}
use aqua_orbital.Sdk.Plans.Tests.{at, manifest}
use aqua_orbital.Sdk.Plans.Makers.{Observed, unknown}

abbrev maker_context : Context
maker_context = record { manifest = manifest; chain_id = 31337; account = at 9; now = 1000 }

-- The first token has an allowance that is reset before it is raised.
abbrev seen : Observed
seen = record {
  allowances = 5 ∷ 0 ∷ [];
  reset_required = true ∷ false ∷ [];
  shipped = false;
  docked = false;
  lifecycle = unknown;
}

abbrev step : Address → Label → Plan
step to label = record {
  chain_id = 31337;
  account = at 9;
  to = to;
  data_bytes = 4 ∷ [];
  value = 0;
  label = label;
}

abbrev steps : List Plan
steps =
    step (at 11) approve_amount
    ∷ step (at 11) approve_amount
    ∷ step (at 12) approve_amount
    ∷ step (at 21) ship_strategy
    ∷ step (at 22) activate
    ∷ []
