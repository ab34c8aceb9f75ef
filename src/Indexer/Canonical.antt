-- ===== src/Indexer/Canonical.antt =====
-- `checkedBlock` and `canonicalLogs` of apps/indexer/src/materializer.ts: what a provider answers is put
-- into one form or refused. Hashes, addresses and topics are numbers that stand for their texts in any
-- case, and `none` for a text that is none.
pub mod Same
pub mod Inserted
pub mod Laws
mod Tests
use aqua_orbital.Prelude.{
  ℕ, ◌+◌, ◌-◌, ◌^◌, Bool, true, false, ◌&&◌, ◌||◌, not, List, [], ◌∷◌, Option, none, some, ltb, leb,
  ◌==◌, any, all, length, includes, get_elem?, if◌then◌else◌, Result, ok, err, ◌>>=◌, ◌>>◌, fail_if,
}

pub data Error : Type 0 where
  invalid_block_header invalid_block_log block_log_limit conflicting_block_log : Error

-- The answer of `getBlock`.
pub record Header : Type 0 where
  pub number : ℕ
  pub hash : Option ℕ
  pub parent_hash : Option ℕ
  pub transactions : List (Option ℕ)

-- `RawLog`. The data is its number of bytes, if it is a text of whole bytes, and a number that stands
-- for them.
pub record RawLog : Type 0 where
  pub block_number : ℕ
  pub block_hash : Option ℕ
  pub transaction_hash : Option ℕ
  pub transaction_index : Option ℕ
  pub log_index : ℕ
  pub address : ℕ
  pub topics : List (Option ℕ)
  pub byte_count : Option ℕ
  pub bytes : ℕ
  pub removed : Bool

abbrev pub is_hash : Option ℕ → Bool
is_hash none = false
is_hash (some h) = true

abbrev pub same : Option ℕ → Option ℕ → Bool
same (some a) (some b) = a == b
same _ _ = false

-- `checkedBlock`, on the answer.
unfoldable pub checked_block : ℕ → Header → Result Error Header
checked_block number b = do
  fail_if
      (not (b.number == number)
        || not (is_hash b.hash)
        || not (is_hash b.parent_hash)
        || not (all is_hash b.transactions))
      invalid_block_header
  ok b

-- `Number.isSafeInteger`
abbrev pub is_safe : ℕ → Bool
is_safe n = ltb n (2 ^ 53)

-- Whether a block has a transaction at an index.
abbrev pub has_transaction : Header → Option ℕ → Option ℕ → Bool
has_transaction b none hash = false
has_transaction b (some i) hash =
    is_safe i && (elim (get_elem? b.transactions i) [ none ↦ false | some t ↦ same t hash ])

-- 32,770 characters are `0x` and 16,384 bytes.
abbrev pub is_data : Option ℕ → Bool
is_data none = false
is_data (some n) = leb n 16384

-- The tests of one log.
abbrev pub is_log : List ℕ → Header → RawLog → Bool
is_log emitters b l =
    (l.block_number == b.number)
    && same l.block_hash b.hash
    && not l.removed
    && is_safe l.log_index
    && is_hash l.transaction_hash
    && has_transaction b l.transaction_index l.transaction_hash
    && includes l.address emitters
    && leb (length l.topics) 4
    && all is_hash l.topics
    && is_data l.byte_count

abbrev pub same_option : Option ℕ → Option ℕ → Bool
same_option none none = true
same_option (some a) (some b) = a == b
same_option _ _ = false

abbrev pub same_topics : List (Option ℕ) → List (Option ℕ) → Bool
same_topics [] [] = true
same_topics (a ∷ as1) (b ∷ bs) = same_option a b && same_topics as1 bs
same_topics _ _ = false

abbrev pub same_flag : Bool → Bool → Bool
same_flag true b = b
same_flag false b = not b

-- Whether two logs have one JSON text.
abbrev pub same_log : RawLog → RawLog → Bool
same_log a b =
    (a.block_number == b.block_number)
    && same_option a.block_hash b.block_hash
    && same_option a.transaction_hash b.transaction_hash
    && same_option a.transaction_index b.transaction_index
    && (a.log_index == b.log_index)
    && (a.address == b.address)
    && same_topics a.topics b.topics
    && same_option a.byte_count b.byte_count
    && (a.bytes == b.bytes)
    && same_flag a.removed b.removed

-- `MAX_BLOCK_LOGS`
abbrev pub max_block_logs : ℕ
max_block_logs = 2000

-- `unique.get` and `unique.set`, on the values in the order of their indices, which are all different.
unfoldable pub insert_log : RawLog → List RawLog → Result Error (List RawLog)
insert_log l [] = ok (l ∷ [])
insert_log l (x ∷ xs) =
    let rest = insert_log l xs in
    if ltb l.log_index x.log_index
    then ok (l ∷ x ∷ xs)
    else (if l.log_index == x.log_index
        then (fail_if (not (same_log x l)) conflicting_block_log >> ok (x ∷ xs))
        else (rest >>= λ out. ok (x ∷ out)))

-- The loop over the logs, with those taken before.
unfoldable pub insert_logs :
    List ℕ → Header → List RawLog → List RawLog → Result Error (List RawLog)
insert_logs emitters b [] unique = ok unique
insert_logs emitters b (l ∷ ls) unique = do
  fail_if (not (is_log emitters b l)) invalid_block_log
  next ← insert_log l unique
  insert_logs emitters b ls next

-- `canonicalLogs`
unfoldable pub canonical_logs : List ℕ → Header → List RawLog → Result Error (List RawLog)
canonical_logs emitters b input = do
  fail_if (ltb max_block_logs (length input)) block_log_limit
  insert_logs emitters b input []
