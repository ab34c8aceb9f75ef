-- ===== src/Shared/Observations/Laws.antt =====
-- What an answer that `invoiceDetailSchema` (packages/shared/src/index.ts) accepts says of the index.
use aqua_orbital.Prelude.{
  ℕ, ◌+◌, ◌≡◌, ◌≤◌, Bool, true, false, ◌||◌, not, Option, none, some, ltb, leb, leb→le, &&-eq-true,
  arith,
}
use aqua_orbital.Shared.Invoices.{Invoice, same_flag}
use aqua_orbital.Shared.Invoices.Laws.{IsSound, is_invoice-IsSound}
use aqua_orbital.Shared.Observations.{
  max_lag, is_fresh_indexed_head, Detail, has_place, has_freshness, has_coverage, agrees_at,
  has_invoice, is_invoice_or_null, has_detail_shape, is_detail,
}

-- The bounds of the head above the cursor.
abbrev pub IsNear : ℕ → ℕ → ℕ → Type 0
IsNear chain_id head cursor = (cursor + 2 ≤ head) × (head ≤ cursor + max_lag chain_id)

is_fresh_indexed_head_lem :
    (chain_id head cursor : ℕ)
    → is_fresh_indexed_head chain_id head cursor ≡ true
    → IsNear chain_id head cursor
unfolding is_fresh_indexed_head
is_fresh_indexed_head_lem chain_id head cursor h =
    let (low, high) = &&-eq-true (leb (cursor + 2) head) _ h in (leb→le _ _ low, leb→le _ _ high)

-- An invoice within the covered blocks.
abbrev pub IsWithin : Detail → Option Invoice → Type 0
IsWithin v none = Unit
IsWithin v (some i) =
    IsSound i × (v.from_block ≤ i.created.block_number) × (i.updated.block_number ≤ v.as_of.height)

pub record IsObservation (v : Detail) : Type 0 where
  pub pinned : (v.from_block ≤ v.as_of.height) × (v.as_of.height ≤ v.current.height)
  pub confirmed : v.as_of.height + 2 ≤ v.head
  pub fresh :
      v.is_stale_status ≡ false → (v.age_ms ≤ 10000) × IsNear v.chain_id v.head v.current.height
  pub complete : v.covered_blocks + v.from_block ≡ v.as_of.height + 1
  pub within : IsWithin v v.invoice

fresh_lem :
    (s t old near : Bool)
    → same_flag s t ≡ true
    → same_flag s (old || not near) ≡ true
    → t ≡ false
    → (old ≡ false) × (near ≡ true)
fresh_lem s t old near h k e = ground arith

has_coverage_lem :
    (v : Detail) → has_coverage v ≡ true → v.covered_blocks + v.from_block ≡ v.as_of.height + 1
has_coverage_lem v h = ground arith

has_invoice-IsWithin :
    (v : Detail) (i : Option Invoice)
    → is_invoice_or_null i ≡ true
    → has_invoice v i ≡ true
    → IsWithin v i
has_invoice-IsWithin v none sound h = tt
has_invoice-IsWithin v (some i) sound h =
    let (h1, last) = &&-eq-true _ (agrees_at v.as_of i.updated) h in
    let (h2, first) = &&-eq-true _ (agrees_at v.as_of i.created) h1 in
    let (h3, high) = &&-eq-true _ (leb i.updated.block_number v.as_of.height) h2 in
    let (code, low) = &&-eq-true _ (leb v.from_block i.created.block_number) h3 in
    (is_invoice-IsSound i sound, leb→le _ _ low, leb→le _ _ high)

-- An answer that `invoiceDetailSchema` accepts is pinned within the index and two blocks below the head,
-- and its covered blocks are all from the first one to the pin. Unless it is stale it is at most ten
-- seconds old, and the index is two blocks below the head, or up to eight on the Arc network. An
-- invoice in it has sound money, and its receipts are in the covered blocks.
pub is_detail-IsObservation : (v : Detail) → is_detail v ≡ true → IsObservation v
unfolding is_detail
is_detail-IsObservation v h =
    let (h1, found) = &&-eq-true _ (has_invoice v v.invoice) h in
    let (h2, covered) = &&-eq-true _ (has_coverage v) h1 in
    let (h3, freshness) = &&-eq-true _ (has_freshness v) h2 in
    let (h4, place) = &&-eq-true _ (has_place v) h3 in
    let (shape, sound) = &&-eq-true (has_detail_shape v) (is_invoice_or_null v.invoice) h4 in
    let near = is_fresh_indexed_head v.chain_id v.head v.current.height in
    let (f1, by_age) =
      &&-eq-true _ (same_flag v.stale (ltb 10000 v.age_ms || not near)) freshness in
    let (confirmed, by_status) =
      &&-eq-true (leb (v.as_of.height + 2) v.head) (same_flag v.stale v.is_stale_status) f1 in
    record {
      pinned = ground arith;
      confirmed = leb→le _ _ confirmed;
      fresh = λ e.
          let (young, fresh_head) =
            fresh_lem v.stale v.is_stale_status (ltb 10000 v.age_ms) near by_status by_age e in
          (ground arith, is_fresh_indexed_head_lem _ _ _ fresh_head);
      complete = has_coverage_lem v covered;
      within = has_invoice-IsWithin v v.invoice sound found;
    }
