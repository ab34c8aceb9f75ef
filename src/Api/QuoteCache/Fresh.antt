-- ===== src/Api/QuoteCache/Fresh.antt =====
-- What the quote cache finds (apps/api/src/quote-cache.ts).
use aqua_orbital.Prelude.{
  ℕ, suc, ◌+◌, ◌-◌, ◌≤◌, ◌≡◌, ◌⊎◌, List, [], ◌∷◌, Option, some, ltb, leb, ◌==◌, ==_iff, arith,
  Bool-cases, inl, inr,
}
use aqua_orbital.Api.QuoteCache.{Options, Entry, Cache, sweep, time, get, find}

-- An entry that is not older than the time to live.
pub record IsFresh (ttl now k : ℕ) (vs : List (Option ℕ)) (e : Entry) : Type 0 where
  pub key : e.key ≡ k
  pub values : e.values ≡ vs
  pub young : suc now ≤ e.at + ttl

abbrev pub Holds : ℕ → ℕ → ℕ → List (Option ℕ) → List Entry → Type 0
Holds ttl now k vs [] = ⊥
Holds ttl now k vs (e ∷ es) = IsFresh ttl now k vs e ⊎ Holds ttl now k vs es

some-injective :
    {xs ys : List (Option ℕ)} → ◌≡◌ {A = Option (List (Option ℕ))} (some xs) (some ys) → xs ≡ ys
some-injective h = cc

module _ (ttl now k : ℕ) (vs : List (Option ℕ)) where
  find-sweep :
      (es : List Entry) (payload : ℕ)
      → find k (sweep ttl now es payload).0 ≡ some vs
      → Holds ttl now k vs es
  unfolding sweep
  find-sweep [] payload h = cc
  find-sweep (e ∷ es) payload h = elim (Bool-cases (leb ttl (now - e.at))) [
    | inl gone ↦ inr (find-sweep es (payload - e.bytes) (rw gone at h))
    | inr kept ↦ elim (Bool-cases (e.key == k)) [
      | inl here ↦ inl (record {
        key = (==_iff e.key k).0 here;
        values = some-injective (rw here at (rw kept at h));
        young = ground (arith, kept);
      })
      | inr later ↦ inr (find-sweep es payload (rw later at (rw kept at h)))
    ]
  ]

-- What a cache finds at a reading of the clock are the values of an entry that it kept with that key, whose
-- stamp is younger than the time to live.
pub get-IsFresh :
    (o : Options) (now k : ℕ) (c : Cache) (vs : List (Option ℕ))
    → (get o (some now) (some k) c).1 ≡ some vs
    → Holds o.ttl now k vs c.entries
unfolding get time
get-IsFresh o now k c vs h = elim (Bool-cases (ltb now c.previous)) [
  | inl back ↦ let none_found = rw back at h in cc
  | inr on ↦ find-sweep o.ttl now k vs c.entries c.payload_bytes (rw on at h)
]
