-- ===== src/Api/QuoteCache/Tests.antt =====
-- A cache of two batches (apps/api/src/quote-cache.ts).
use aqua_orbital.Prelude.{ℕ, ◌≡◌, refl, List, [], ◌∷◌, Option, none, some, length}
use aqua_orbital.Api.QuoteCache.{
  Options, Stamp, empty, sweep, time, begin, get, evict, put, Operation, beginning, putting, run,
}
use aqua_orbital.Api.QuoteCache.Fresh.{Holds, get-IsFresh}
use aqua_orbital.Api.QuoteCache.Laws.{IsCache, run-IsCache}

abbrev options : Options
options = record { ttl = 5000; max_entries = 2; max_bytes = 2000 }

abbrev stamp : ℕ → ℕ → Option Stamp
stamp id at = some (record { id = id; at = at; generation = 0 })

abbrev batch : List (Option ℕ)
batch = some 1 ∷ []

-- The third batch takes the place of the first.
abbrev three : List Operation
three =
    beginning (some 10)
    ∷ putting (some 20) (some 1) (stamp 0 10) batch
    ∷ beginning (some 30)
    ∷ putting (some 40) (some 2) (stamp 1 30) batch
    ∷ beginning (some 50)
    ∷ putting (some 60) (some 3) (stamp 2 50) (some 4 ∷ some 5 ∷ [])
    ∷ []

abbrev found : Option ℕ → ℕ → List Operation → Option (List (Option ℕ))
found reading key xs = (get options reading (some key) (run options xs empty)).1

oldest-evicted : found (some 70) 1 three ≡ none
unfolding get time sweep begin put evict
oldest-evicted = refl

newest-found : found (some 70) 3 three ≡ some (some 4 ∷ some 5 ∷ [])
unfolding get time sweep begin put evict
newest-found = refl

-- A stamp is spent once.
stamp-spent :
    length
      (run options
        (beginning (some 10)
          ∷ putting (some 20) (some 1) (stamp 0 10) batch
          ∷ putting (some 20) (some 2) (stamp 0 10) batch
          ∷ [])
        empty).entries
    ≡ 1
unfolding get time sweep begin put evict
stamp-spent = refl

-- An entry is as old as its stamp, and a clock that steps back clears the cache.
entry-expired :
    found (some 5010) 1 (beginning (some 10) ∷ putting (some 4000) (some 1) (stamp 0 10) batch ∷ [])
    ≡ none
unfolding get time sweep begin put evict
entry-expired = refl

cache-cleared : found (some 59) 3 three ≡ none
unfolding get time sweep begin put evict
cache-cleared = refl

run-IsCache_example : IsCache options (run options three empty)
run-IsCache_example = run-IsCache options three refl

get-IsFresh_example : Holds 5000 70 3 (some 4 ∷ some 5 ∷ []) (run options three empty).entries
get-IsFresh_example =
    get-IsFresh options 70 3 (run options three empty) (some 4 ∷ some 5 ∷ []) newest-found
