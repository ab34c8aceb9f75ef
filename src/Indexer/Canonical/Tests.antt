-- ===== src/Indexer/Canonical/Tests.antt =====
-- Two logs of a block (apps/indexer/src/materializer.ts), out of order and one of them twice.
use aqua_orbital.Prelude.{ℕ, ◌+◌, ◌≡◌, refl, false, List, [], ◌∷◌, some, ok, err}
use aqua_orbital.Indexer.Canonical.{
  Header, RawLog, canonical_logs, insert_logs, insert_log, conflicting_block_log,
}
use aqua_orbital.Indexer.Canonical.Laws.{IsCanonical, canonical_logs-IsCanonical}

abbrev header : Header
header = record {
  number = 10;
  hash = some 100;
  parent_hash = some 90;
  transactions = some 1 ∷ some 2 ∷ [];
}

abbrev log : (index transaction bytes : ℕ) → RawLog
log index transaction bytes = record {
  block_number = 10;
  block_hash = some 100;
  transaction_hash = some (transaction + 1);
  transaction_index = some transaction;
  log_index = index;
  address = 22;
  topics = some 5 ∷ [];
  byte_count = some 32;
  bytes = bytes;
  removed = false;
}

abbrev input : List RawLog
input = log 7 1 3 ∷ log 2 0 4 ∷ log 7 1 3 ∷ []

abbrev output : List RawLog
output = log 2 0 4 ∷ log 7 1 3 ∷ []

canonical : canonical_logs (22 ∷ 23 ∷ []) header input ≡ ok output
unfolding canonical_logs insert_logs insert_log
canonical = refl

-- Two logs of one index that differ are refused.
conflicting :
    canonical_logs (22 ∷ []) header (log 7 1 3 ∷ log 7 1 4 ∷ []) ≡ err conflicting_block_log
unfolding canonical_logs insert_logs insert_log
conflicting = refl

canonical_logs-IsCanonical_example : IsCanonical (22 ∷ 23 ∷ []) header input output
canonical_logs-IsCanonical_example =
    canonical_logs-IsCanonical (22 ∷ 23 ∷ []) header input output canonical
