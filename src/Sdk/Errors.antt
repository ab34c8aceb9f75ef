-- ===== src/Sdk/Errors.antt =====
-- The errors that packages/sdk/src/codec.ts and packages/sdk/src/plans.ts throw.
use aqua_orbital.Prelude.{Result, err, ok}
use aqua_orbital.Sdk.Amount

pub data Error : Type 0 where
  amount_error : Amount.Error → Error
  encoding_failed undefined_value invalid_manifest invalid_swap_quote : Error
  invalid_config_hash invalid_pair_or_crossing invalid_recipient deadline_required : Error
  invalid_shape unsorted_tokens funding_required full_range_tick_required : Error
  tick_ordering invalid_cap radius_range normalized_funding_range : Error
  not_verified unsupported_network invalid_account unknown_token_or_spender : Error
  invalid_address invalid_amount invalid_hash wrong_network not_demo_token cooldown : Error
  deployment_mismatch not_maker unlisted_token noncanonical invalid_pair : Error
  expired_deadline input_range fee_too_large crossing_bound : Error
  quote_crossings quote_mismatch quote_stale quote_below_minimum : Error
  invalid_settlement nonce_exhausted invalid_approval : Error
  invalid_observations inconsistent_observations needs_fresh_nonce : Error
  invalid_recipients invalid_or_duplicate_recipient shares_total expiry_range : Error
  invoice_deployment not_payable invalid_payer not_merchant plan_differs : Error

-- A call of the amounts' functions.
abbrev pub checked {ℓ} : {A : Type ℓ} → Result Amount.Error A → Result Error A
checked (err e) = err (amount_error e)
checked (ok a) = ok a
