-- ===== src/Deploy/Arc/Inspect/Tests.antt =====
-- Two inspections of Arc (scripts/lib/arc-deployment.mjs, `inspectArc`).
use aqua_orbital.Prelude.{ℕ, ◌+◌, ◌≡◌, refl, true, false, [], ◌∷◌, some, ok, err}
use aqua_orbital.Deploy.Arc.{incomplete_source, two_ways}
use aqua_orbital.Deploy.Arc.Status.{zeros}
use aqua_orbital.Deploy.Arc.Status.Tests.{keccak, network}
use aqua_orbital.Deploy.Arc.Inspect.{
  Source, EvidenceFile, check_sources, evidence_record, inspect_arc,
}

abbrev contract_address : ℕ → ℕ → ℕ
contract_address deployer nonce = deployer + nonce

abbrev source : Source
source = record {
  url = some (record { is_https = true; has_user = false; has_password = false });
  content_hash = some 5;
  excerpt = some (zeros 20);
}

abbrev insecure_source : Source
insecure_source = record source {
  url = some (record { is_https = false; has_user = false; has_password = false });
}

abbrev file : EvidenceFile
file = record {
  chain_id = some 5042002;
  address = some 44;
  runtime_hash = some 2;
  has_revision = true;
  has_kind = true;
  sources = some (source ∷ []);
  reviewed_by = some (zeros 2);
  review_notes = some (zeros 20);
  has_date = true;
}

evidence-accepted :
    evidence_record (some file) ≡ ok (some (record { address = 44; runtime_hash = 2 }))
unfolding evidence_record check_sources
evidence-accepted = refl

insecure-refused :
    evidence_record (some (record file { sources = some (insecure_source ∷ []) }))
    ≡ err incomplete_source
unfolding evidence_record check_sources
insecure-refused = refl

both-refused :
    inspect_arc keccak contract_address network 0 (some 9) (some file) true ≡ err two_ways
unfolding inspect_arc
both-refused = refl
