-- ===== src/Deploy/Arc/Inspect.antt =====
-- The evidence of a reviewed Aqua, and the inspection of Arc before a plan
-- (scripts/lib/arc-deployment.mjs: `evidenceRecord`, `inspectArc`). A text is the list of its UTF-16
-- units, and a field of another type or form is `none`. The address of the provider is taken as valid.
mod Tests
use aqua_orbital.Prelude.{
  ℕ, Bool, true, false, ◌&&◌, ◌||◌, not, List, [], ◌∷◌, Option, none, some, ltb, length, Result, ok,
  ◌>>=◌, ◌>>◌, fail_if, or_fail,
}
use aqua_orbital.Indexer.Canonical.{same_option}
use aqua_orbital.Deploy.Arc.{
  Error, rpc_failed, invalid_evidence, incomplete_source, no_deployer, two_ways, arc_chain_id,
  is_hash,
}
use aqua_orbital.Deploy.Arc.Status.{Network, Evidence, Observation, arc_aqua, is_address, preflight}

pub record Url : Type 0 where
  pub is_https : Bool
  pub has_user : Bool
  pub has_password : Bool

-- A primary source. A URL that the library refuses is `none`.
pub record Source : Type 0 where
  pub url : Option Url
  pub content_hash : Option ℕ
  pub excerpt : Option (List ℕ)

-- A record of evidence as it is given. `has_revision` says whether it names the pinned revision,
-- `has_kind` whether its kind is one of the two, and `has_date` whether it has the date of its review.
pub record EvidenceFile : Type 0 where
  pub chain_id : Option ℕ
  pub address : Option ℕ
  pub runtime_hash : Option ℕ
  pub has_revision : Bool
  pub has_kind : Bool
  pub sources : Option (List Source)
  pub reviewed_by : Option (List ℕ)
  pub review_notes : Option (List ℕ)
  pub has_date : Bool

-- The loop over the sources.
unfoldable pub check_sources : List Source → Result Error (Unit {0})
check_sources [] = ok tt
check_sources (s ∷ ss) = do
  url ← or_fail s.url incomplete_source
  content ← or_fail s.content_hash incomplete_source
  excerpt ← or_fail s.excerpt incomplete_source
  fail_if (not url.is_https || url.has_user || url.has_password || ltb (length excerpt) 20)
      incomplete_source
  check_sources ss

-- `evidenceRecord`, of what the preflight uses of it.
unfoldable pub evidence_record : Option EvidenceFile → Result Error (Option Evidence)
evidence_record none = ok none
evidence_record (some f) = do
  address ← or_fail f.address invalid_evidence
  runtime_hash ← or_fail f.runtime_hash invalid_evidence
  sources ← or_fail f.sources invalid_evidence
  reviewed_by ← or_fail f.reviewed_by invalid_evidence
  review_notes ← or_fail f.review_notes invalid_evidence
  fail_if
      (not (same_option f.chain_id (some arc_chain_id))
        || not (is_address address)
        || not (is_hash (some runtime_hash))
        || not f.has_revision
        || not f.has_kind
        || ltb (length sources) 1
        || ltb 8 (length sources)
        || ltb (length reviewed_by) 2
        || ltb (length review_notes) 20
        || not f.has_date)
      invalid_evidence
  check_sources sources
  ok (some (record { address = address; runtime_hash = runtime_hash }))

abbrev pub is_given : Option EvidenceFile → Bool
is_given none = false
is_given (some f) = true

-- The address of an Aqua that the deployer creates next, by the library's `getContractAddress`.
abbrev pub own_aqua : (ℕ → ℕ → ℕ) → Network → ℕ → ℕ → Bool → Result Error ℕ
own_aqua contract_address net clock deployer false = ok arc_aqua
own_aqua contract_address net clock deployer true = do
  nonce ← or_fail (net.nonce clock) rpc_failed
  ok (contract_address deployer nonce)

-- `inspectArc`
unfoldable pub inspect_arc :
    (List ℕ → ℕ)
    → (contract_address : ℕ → ℕ → ℕ) → Network
    → ℕ
    → (deployer : Option ℕ) → Option EvidenceFile
    → (self_deploy_aqua : Bool) → Result Error Observation
inspect_arc keccak contract_address net clock deployer file self_deploy_aqua = do
  sender ← or_fail deployer no_deployer
  fail_if (not (is_address sender)) no_deployer
  fail_if (self_deploy_aqua && is_given file) two_ways
  aqua ← own_aqua contract_address net clock sender self_deploy_aqua
  evidence ← evidence_record file
  preflight keccak net clock evidence (record {
    self_deploy_aqua = self_deploy_aqua;
    aqua_address = aqua;
    aqua_runtime = none;
    require_aqua = false;
    require_wallet_ready = true;
  })
