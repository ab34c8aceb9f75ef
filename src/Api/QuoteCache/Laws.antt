-- ===== src/Api/QuoteCache/Laws.antt =====
-- The bounds of the quote cache (apps/api/src/quote-cache.ts).
use aqua_orbital.Prelude.{
  ℕ, suc, ◌+◌, ◌-◌, ◌≤◌, ◌≡◌, refl, true, false, ◌||◌, List, [], ◌∷◌, ◌++◌, Option, none, some, ltb,
  leb, length, includes, arith, Bool-cases, inl, inr,
}
use aqua_orbital.Api.QuoteCache.{
  Options, is_options, Stamp, Entry, Cache, empty, sweep, time, begin, issue, get, batch_bytes,
  is_refused, evict, entry_of, keep, put_stamped, put, spend, Operation, beginning, getting,
  putting, clearing, counting, after, run,
}

abbrev pub total : List Entry → ℕ
total [] = 0
total (e ∷ es) = e.bytes + total es

-- The bytes are counted, and they and the entries are within the limits.
pub record IsBounded (o : Options) (es : List Entry) (payload : ℕ) : Type 0 where
  pub counted : payload ≡ total es
  pub few : length es ≤ o.max_entries
  pub small : payload ≤ o.max_bytes

abbrev pub IsCache : Options → Cache → Type 0
IsCache o c = IsBounded o c.entries c.payload_bytes

-- What is removed is taken off the count, whatever else is counted.
sweep-counted :
    (ttl now : ℕ) (es : List Entry) (payload k : ℕ)
    → payload ≡ total es + k
    → ((sweep ttl now es payload).1 ≡ total (sweep ttl now es payload).0 + k)
      × (length (sweep ttl now es payload).0 ≤ length es)
      × (total (sweep ttl now es payload).0 ≤ total es)
unfolding sweep
sweep-counted ttl now [] payload k h = (h, omega arith, omega arith)
sweep-counted ttl now (e ∷ es) payload k h = elim (Bool-cases (leb ttl (now - e.at))) [
  | inl gone ↦
      let (c, l, t) = sweep-counted ttl now es (payload - e.bytes) k (omega (arith, h)) in
      rw gone (c, omega (arith, l), omega (arith, t))
  | inr kept ↦
      let (c, l, t) = sweep-counted ttl now es payload (e.bytes + k) (omega (arith, h)) in
      rw kept (omega (arith, c), omega (arith, l), omega (arith, t))
]

evict-bounded :
    (o : Options) (bytes : ℕ) (es : List Entry) (payload : ℕ)
    → 1 ≤ o.max_entries
    → bytes ≤ o.max_bytes
    → payload ≡ total es
    → ((evict o bytes es payload).1 ≡ total (evict o bytes es payload).0)
      × (suc (length (evict o bytes es payload).0) ≤ o.max_entries)
      × ((evict o bytes es payload).1 + bytes ≤ o.max_bytes)
unfolding evict
evict-bounded o bytes [] payload room fits h = (h, omega (arith, room), omega (arith, fits, h))
evict-bounded o bytes (e ∷ es) payload room fits h =
    elim (Bool-cases (leb o.max_entries (suc (length es)) || ltb o.max_bytes (payload + bytes))) [
      | inl full ↦
          let r = evict-bounded o bytes es (payload - e.bytes) room fits (omega (arith, h)) in
          rw full r
      | inr free ↦ rw free (h, ground (arith, free), ground (arith, free))
    ]

total-snoc : (es : List Entry) (e : Entry) → total (es ++ e ∷ []) ≡ total es + e.bytes
total-snoc [] e = omega arith
total-snoc (d ∷ es) e = let r = total-snoc es e in omega (arith, r)

length-snoc : (es : List Entry) (e : Entry) → length (es ++ e ∷ []) ≡ suc (length es)
length-snoc [] e = refl
length-snoc (d ∷ es) e = let r = length-snoc es e in omega (arith, r)

module _ (o : Options) (valid : is_options o ≡ true) where
  empty-IsBounded : IsBounded o [] 0
  empty-IsBounded = record { counted = refl; few = omega arith; small = omega arith }

  time-IsCache : (reading : Option ℕ) (c : Cache) → IsCache o c → IsCache o (time o reading c).0
  unfolding time
  time-IsCache none c h = empty-IsBounded
  time-IsCache (some now) c h = elim (Bool-cases (ltb now c.previous)) [
    | inl back ↦ rw back empty-IsBounded
    | inr on ↦
        let (k, l, t) =
          sweep-counted o.ttl now c.entries c.payload_bytes 0
            (let e = h.counted in omega (arith, e)) in
        let f = h.few in
        let s = h.small in
        let e = h.counted in
        rw on (record {
          counted = omega (arith, k);
          few = omega (arith, l, f);
          small = omega (arith, k, t, s, e);
        })
  ]

  refused :
      (now k : ℕ) (s : Stamp) (vs : List (Option ℕ)) (c : Cache)
      → is_refused o now k s vs c ≡ false
      → batch_bytes vs ≤ o.max_bytes
  refused now k s vs c h = ground (arith, h)

  has_room : 1 ≤ o.max_entries
  has_room = ground (arith, valid)

  keep-IsCache :
      (now key : Option ℕ) (s : Stamp) (vs : List (Option ℕ)) (c : Cache)
      → IsCache o c
      → IsCache o (keep o now key s vs c)
  keep-IsCache none key s vs c h = h
  keep-IsCache (some now) none s vs c h = h
  keep-IsCache (some now) (some k) s vs c h = elim (Bool-cases (is_refused o now k s vs c)) [
    | inl bad ↦ rw bad h
    | inr fine ↦
        let kept = evict o (batch_bytes vs) c.entries c.payload_bytes in
        let (e, l, t) =
          evict-bounded o (batch_bytes vs) c.entries c.payload_bytes has_room
            (refused now k s vs c fine) h.counted in
        let snoc = total-snoc kept.0 (entry_of k s vs) in
        let one = length-snoc kept.0 (entry_of k s vs) in
        rw fine
          (record { counted = omega (arith, e, snoc); few = omega (arith, l, one); small = t })
  ]

  put_stamped-IsCache :
      (now key : Option ℕ) (stamp : Option Stamp) (vs : List (Option ℕ)) (c : Cache)
      → IsCache o c
      → IsCache o (put_stamped o now key stamp vs c)
  put_stamped-IsCache now key none vs c h = h
  put_stamped-IsCache now key (some s) vs c h = elim (Bool-cases (includes s.id c.issued)) [
    | inl known ↦ rw known (keep-IsCache now key s vs (spend s.id c) h)
    | inr other ↦ rw other h
  ]

  begin-IsCache : (reading : Option ℕ) (c : Cache) → IsCache o c → IsCache o (begin o reading c).0
  unfolding begin
  begin-IsCache reading c h = issued-IsCache (time o reading c) (time-IsCache reading c h)
    where
      issued-IsCache : (r : Cache × Option ℕ) → IsCache o r.0 → IsCache o (issue r).0
      issued-IsCache (d, none) k = k
      issued-IsCache (d, some now) k = k

  after-IsCache : (x : Operation) (c : Cache) → IsCache o c → IsCache o (after o x c)
  unfolding get put
  after-IsCache (beginning reading) c h = begin-IsCache reading c h
  after-IsCache (getting reading key) c h = time-IsCache reading c h
  after-IsCache (putting reading key stamp vs) c h =
      put_stamped-IsCache (time o reading c).1 key stamp vs (time o reading c).0
        (time-IsCache reading c h)
  after-IsCache clearing c h = empty-IsBounded
  after-IsCache (counting reading) c h = time-IsCache reading c h

  run-kept : (xs : List Operation) (c : Cache) → IsCache o c → IsCache o (run o xs c)
  run-kept [] c h = h
  run-kept (x ∷ xs) c h = run-kept xs (after o x c) (after-IsCache x c h)

-- With a valid configuration, after any operations on a new cache, whatever the clock reads, the payload is
-- the sum of the bytes of the entries, and it and the number of entries are within their limits.
pub run-IsCache :
    (o : Options) (xs : List Operation) → is_options o ≡ true → IsCache o (run o xs empty)
run-IsCache o xs valid = run-kept o valid xs empty (empty-IsBounded o valid)
