-- ===== src/Shared/Observations.antt =====
-- The freshness of the index and `invoiceDetailSchema` of
-- packages/shared/src/index.ts. Flags whose value a schema fixes are left out.
pub mod Laws
mod Tests
use aqua_orbital.Prelude.{
  ℕ, ◌+◌, ◌-◌, Bool, true, false, ◌&&◌, ◌||◌, not, List, [], ◌∷◌, Option, none, some, ltb, leb,
  ◌==◌, all, map, length, min, distinct, if◌then◌else◌,
}
use aqua_orbital.Shared.{is_hash, is_uint, is_chain_id}
use aqua_orbital.Shared.Invoices.{Invoice, Receipt, is_invoice, same_flag}

-- `INDEXER_CONFIRMATIONS` and `ARC_MAX_HEAD_LAG`
abbrev pub indexer_confirmations : ℕ
indexer_confirmations = 2

abbrev pub arc_max_head_lag : ℕ
arc_max_head_lag = 8

abbrev pub max_lag : ℕ → ℕ
max_lag chain_id = if chain_id == 5042002 then arc_max_head_lag else indexer_confirmations

-- `isFreshIndexedHead`, on heights. A head below the cursor has a negative lag.
unfoldable pub is_fresh_indexed_head : ℕ → ℕ → ℕ → Bool
is_fresh_indexed_head chain_id head cursor =
    leb (cursor + indexer_confirmations) head && leb head (cursor + max_lag chain_id)

-- `invoiceBlockSchema`
pub record BlockRef : Type 0 where
  pub height : ℕ
  pub hash : ℕ

pub data Code : Type 0 where
  invoices_available invoices_stale invoice_not_found : Code

-- The code of an answer that has an invoice.
abbrev pub is_found_code : Bool → Code → Bool
is_found_code false invoices_available = true
is_found_code true invoices_stale = true
is_found_code _ _ = false

abbrev pub is_missing_code : Code → Bool
is_missing_code invoice_not_found = true
is_missing_code _ = false

-- `InvoiceDetailDTO`. `is_stale_status` says whether the status is stale, and `has_absent_fields`
-- whether it is not retryable and the field is the id.
pub record Detail : Type 0 where
  pub is_stale_status : Bool
  pub code : Code
  pub chain_id : ℕ
  pub as_of : BlockRef
  pub current : BlockRef
  pub historical : Bool
  pub age_ms : ℕ
  pub head : ℕ
  pub stale : Bool
  pub from_block : ℕ
  pub to_block : ℕ
  pub expected_blocks : ℕ
  pub canonical_blocks : ℕ
  pub covered_blocks : ℕ
  pub invoice : Option Invoice
  pub has_absent_fields : Bool

-- `Invalid indexed observation`
abbrev pub has_place : Detail → Bool
has_place v =
    leb v.as_of.height v.current.height
    && leb v.from_block v.as_of.height
    && same_flag v.historical (ltb v.as_of.height v.current.height)
    && (not (v.as_of.height == v.current.height) || (v.as_of.hash == v.current.hash))

-- `Invalid freshness observation`
abbrev pub has_freshness : Detail → Bool
has_freshness v =
    leb (v.as_of.height + 2) v.head
    && same_flag v.stale v.is_stale_status
    && same_flag v.stale
        (ltb 10000 v.age_ms || not (is_fresh_indexed_head v.chain_id v.head v.current.height))

-- `Incomplete canonical history`
abbrev pub has_coverage : Detail → Bool
has_coverage v =
    (v.to_block == v.as_of.height)
    && (v.expected_blocks + v.from_block == v.as_of.height + 1)
    && (v.expected_blocks == v.canonical_blocks)
    && (v.expected_blocks == v.covered_blocks)

-- `Receipt conflicts with indexed block`
abbrev pub agrees_at : BlockRef → Receipt → Bool
agrees_at b r = not (r.block_number == b.height) || (r.block_hash == b.hash)

abbrev pub has_invoice : Detail → Option Invoice → Bool
has_invoice v none = is_missing_code v.code && v.has_absent_fields
has_invoice v (some i) =
    is_found_code v.is_stale_status v.code
    && leb v.from_block i.created.block_number
    && leb i.updated.block_number v.as_of.height
    && agrees_at v.as_of i.created
    && agrees_at v.as_of i.updated

abbrev pub is_invoice_or_null : Option Invoice → Bool
is_invoice_or_null none = true
is_invoice_or_null (some i) = is_invoice i

abbrev pub has_detail_shape : Detail → Bool
has_detail_shape v =
    is_chain_id v.chain_id
    && is_uint v.as_of.height
    && is_hash v.as_of.hash
    && is_uint v.current.height
    && is_hash v.current.hash
    && is_uint v.head
    && is_uint v.from_block
    && is_uint v.to_block
    && is_uint v.expected_blocks
    && is_uint v.canonical_blocks
    && is_uint v.covered_blocks

-- `invoiceDetailSchema`
unfoldable pub is_detail : Detail → Bool
is_detail v =
    has_detail_shape v
    && is_invoice_or_null v.invoice
    && has_place v
    && has_freshness v
    && has_coverage v
    && has_invoice v v.invoice
