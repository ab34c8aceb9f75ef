-- ===== src/Shared/Observations/Tests.antt =====
-- An answer without an invoice (packages/shared/src/index.ts), six blocks below the head of Arc.
use aqua_orbital.Prelude.{◌≡◌, refl, true, false, none}
use aqua_orbital.Shared.Observations.{Detail, invoice_not_found, is_detail, is_fresh_indexed_head}
use aqua_orbital.Shared.Observations.Laws.{IsObservation, is_detail-IsObservation}

abbrev detail : Detail
detail = record {
  is_stale_status = false;
  code = invoice_not_found;
  chain_id = 5042002;
  as_of = record { height = 20; hash = 3 };
  current = record { height = 20; hash = 3 };
  historical = false;
  age_ms = 900;
  head = 26;
  stale = false;
  from_block = 5;
  to_block = 20;
  expected_blocks = 16;
  canonical_blocks = 16;
  covered_blocks = 16;
  invoice = none;
  has_absent_fields = true;
}

detail-accepted : is_detail detail ≡ true
unfolding is_detail is_fresh_indexed_head
detail-accepted = refl

is_detail-IsObservation_example : IsObservation detail
is_detail-IsObservation_example = is_detail-IsObservation detail detail-accepted
