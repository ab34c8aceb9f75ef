-- ===== src/PaymentSearch/Search/Outcomes.antt =====
-- The outcomes of one stage of `searchPaymentInput` (apps/api/src/payment-search.ts), and the totals
-- kept for each order.
use aqua_orbital.Prelude.{
  ℕ, ◌+◌, Bool, true, false, ◌&&◌, not, List, [], ◌∷◌, Option, none, some, ◌==◌, includes,
  if◌then◌else◌,
}

-- `'quoted' | 'unavailable'`, or another text.
pub data Status : Type 0 where
  quoted unavailable other : Status

-- `malformed` is an element that is no object with exactly an order hash and a status.
pub data Outcome : Type 0 where
  malformed : Outcome
  outcome : ℕ → Status → Outcome

pub record Tally : Type 0 where
  pub order_hash : ℕ
  pub quoted : ℕ
  pub unavailable : ℕ

abbrev pub fresh : ℕ → Tally
fresh hash = record { order_hash = hash; quoted = 0; unavailable = 0 }

-- `expected.has(hash)`
abbrev pub expects : ℕ → List Tally → Bool
expects hash [] = false
expects hash (t ∷ ts) = if t.order_hash == hash then true else expects hash ts

abbrev pub bump : Status → Tally → Tally
bump Status.quoted t = record t { quoted = t.quoted + 1 }
bump _ t = record t { unavailable = t.unavailable + 1 }

-- `result.outcomes[expected.get(hash)]`, counted on.
abbrev pub tally : ℕ → Status → List Tally → List Tally
tally hash status [] = []
tally hash status (t ∷ ts) =
    if t.order_hash == hash then bump status t ∷ ts else t ∷ tally hash status ts

abbrev pub quoted_of : Status → ℕ
quoted_of Status.quoted = 1
quoted_of _ = 0

-- The tests that the loop makes of an outcome with a hash and a status.
abbrev pub acceptable : ℕ → Status → List ℕ → List Tally → Bool
acceptable hash Status.other seen ts = false
acceptable hash _ seen ts = expects hash ts && not (includes hash seen)

-- The loop over `response.outcomes`, with the hashes seen, the number quoted and the totals. `none` is
-- the error PAYMENT_STAGE_INVALID.
unfoldable pub record_outcomes : List Outcome → List ℕ → ℕ → List Tally → Option (ℕ × List Tally)
record_outcomes [] seen n ts = some (n, ts)
record_outcomes (malformed ∷ rest) seen n ts = none
record_outcomes (outcome hash status ∷ rest) seen n ts =
    let next = record_outcomes rest (hash ∷ seen) (n + quoted_of status) (tally hash status ts) in
    if acceptable hash status seen ts then next else none
