-- ===== src/Api/QuoteCache.antt =====
-- The cache of whole quote batches (apps/api/src/quote-cache.ts). A reading of the clock is `none` where it
-- is negative or not finite, and otherwise a number of the unit of the time to live; a key is `none` where
-- it is not 64 hexadecimal digits, and a value is `none` where it is not a text of 192 after its prefix.
pub mod Laws
pub mod Fresh
mod Tests
use aqua_orbital.Prelude.{
  ℕ, zero, suc, ◌+◌, ◌-◌, ◌*◌, Bool, true, false, ◌&&◌, ◌||◌, not, List, [], ◌∷◌, ◌++◌, Option,
  none, some, ltb, leb, ◌==◌, any, all, length, includes, if◌then◌else◌,
}

-- `QuoteCacheOptions`, with the values that stand for the missing ones put in.
pub record Options : Type 0 where
  pub ttl : ℕ
  pub max_entries : ℕ
  pub max_bytes : ℕ

abbrev pub is_within : ℕ → ℕ → Bool
is_within value limit = leb 1 value && leb value limit

-- The test of the configuration.
abbrev pub is_options : Options → Bool
is_options o = is_within o.ttl 5000 && is_within o.max_entries 256 && is_within o.max_bytes 1048576

-- `QuoteCacheStamp`, with a number in place of the identity of the object.
pub record Stamp : Type 0 where
  pub id : ℕ
  pub at : ℕ
  pub generation : ℕ

pub record Entry : Type 0 where
  pub key : ℕ
  pub at : ℕ
  pub values : List (Option ℕ)
  pub bytes : ℕ

-- What a cache keeps: the map in the order of insertion, and the stamps that are issued.
pub record Cache : Type 0 where
  pub entries : List Entry
  pub issued : List ℕ
  pub next : ℕ
  pub generation : ℕ
  pub previous : ℕ
  pub payload_bytes : ℕ

abbrev pub empty : Cache
empty = record {
  entries = [];
  issued = [];
  next = 0;
  generation = 0;
  previous = 0;
  payload_bytes = 0;
}

-- `clear`
abbrev pub clear : Cache → Cache
clear c = record {
  entries = [];
  issued = c.issued;
  next = c.next;
  generation = c.generation + 1;
  previous = c.previous;
  payload_bytes = 0;
}

abbrev pub at_time : ℕ → Cache → Cache
at_time now c = record {
  entries = c.entries;
  issued = c.issued;
  next = c.next;
  generation = c.generation;
  previous = now;
  payload_bytes = c.payload_bytes;
}

abbrev pub with_entries : List Entry × ℕ → Cache → Cache
with_entries kept c = record {
  entries = kept.0;
  issued = c.issued;
  next = c.next;
  generation = c.generation;
  previous = c.previous;
  payload_bytes = kept.1;
}

-- The loop of `time`, which removes what is too old. The age of an entry from later than now is 0.
unfoldable pub sweep : ℕ → ℕ → List Entry → ℕ → List Entry × ℕ
sweep ttl now [] payload = ([], payload)
sweep ttl now (e ∷ es) payload =
    let gone = leb ttl (now - e.at) in
    let rest = sweep ttl now es (if gone then payload - e.bytes else payload) in
    if gone then rest else (e ∷ rest.0, rest.1)

-- `time`
unfoldable pub time : Options → Option ℕ → Cache → Cache × Option ℕ
time o none c = (at_time 0 (clear c), none)
time o (some now) c =
    if ltb now c.previous
    then (at_time now (clear c), none)
    else (with_entries (sweep o.ttl now c.entries c.payload_bytes) (at_time now c), some now)

abbrev pub issue : Cache × Option ℕ → Cache × Option Stamp
issue (c, none) = (c, none)
issue (c, some now) = (
  record {
    entries = c.entries;
    issued = c.next ∷ c.issued;
    next = c.next + 1;
    generation = c.generation;
    previous = c.previous;
    payload_bytes = c.payload_bytes;
  },
  some (record { id = c.next; at = now; generation = c.generation }),
)

-- `begin`
unfoldable pub begin : Options → Option ℕ → Cache → Cache × Option Stamp
begin o reading c = issue (time o reading c)

-- `entries.get(key)`
abbrev pub find : ℕ → List Entry → Option (List (Option ℕ))
find k [] = none
find k (e ∷ es) = if e.key == k then some e.values else find k es

abbrev pub look_up : Option ℕ → Option ℕ → Cache → Option (List (Option ℕ))
look_up (some now) (some k) c = find k c.entries
look_up _ _ c = none

-- `get`
unfoldable pub get : Options → Option ℕ → Option ℕ → Cache → Cache × Option (List (Option ℕ))
get o reading key c = let seen = time o reading c in (seen.0, look_up seen.1 key seen.0)

abbrev pub without : ℕ → List ℕ → List ℕ
without n [] = []
without n (m ∷ ms) = if m == n then without n ms else m ∷ without n ms

abbrev pub spend : ℕ → Cache → Cache
spend n c = record {
  entries = c.entries;
  issued = without n c.issued;
  next = c.next;
  generation = c.generation;
  previous = c.previous;
  payload_bytes = c.payload_bytes;
}

abbrev pub is_text : Option ℕ → Bool
is_text none = false
is_text (some v) = true

-- Two bytes for each of the 64 characters of the key and the 194 of each value.
abbrev pub batch_bytes : List (Option ℕ) → ℕ
batch_bytes vs = 2 * (64 + 194 * length vs)

abbrev pub has_key : ℕ → List Entry → Bool
has_key k es = any (λ (e : Entry). e.key == k) es

-- The guards of `put`, once the stamp is spent.
abbrev pub is_refused : Options → ℕ → ℕ → Stamp → List (Option ℕ) → Cache → Bool
is_refused o now k s vs c =
    not (s.generation == c.generation)
    || ltb now s.at
    || leb o.ttl (now - s.at)
    || has_key k c.entries
    || ltb (length vs) 1
    || ltb 8 (length vs)
    || not (all is_text vs)
    || ltb o.max_bytes (batch_bytes vs)

-- The loop of `put`, which removes the oldest entries until the batch has room.
unfoldable pub evict : Options → ℕ → List Entry → ℕ → List Entry × ℕ
evict o bytes [] payload = ([], payload)
evict o bytes (e ∷ es) payload =
    let rest = evict o bytes es (payload - e.bytes) in
    if leb o.max_entries (suc (length es)) || ltb o.max_bytes (payload + bytes)
    then rest
    else (e ∷ es, payload)

abbrev pub added : Entry → List Entry × ℕ → List Entry × ℕ
added e kept = (kept.0 ++ e ∷ [], kept.1 + e.bytes)

abbrev pub entry_of : ℕ → Stamp → List (Option ℕ) → Entry
entry_of k s vs = record { key = k; at = s.at; values = vs; bytes = batch_bytes vs }

abbrev pub keep : Options → Option ℕ → Option ℕ → Stamp → List (Option ℕ) → Cache → Cache
keep o (some now) (some k) s vs c =
    if is_refused o now k s vs c
    then c
    else with_entries (added (entry_of k s vs) (evict o (batch_bytes vs) c.entries c.payload_bytes))
        c
keep o _ _ s vs c = c

abbrev pub put_stamped :
    Options → Option ℕ → Option ℕ → Option Stamp → List (Option ℕ) → Cache → Cache
put_stamped o now key none vs c = c
put_stamped o now key (some s) vs c =
    if includes s.id c.issued then keep o now key s vs (spend s.id c) else c

-- `put`
unfoldable pub put : Options → Option ℕ → Option ℕ → Option Stamp → List (Option ℕ) → Cache → Cache
put o reading key stamp vs c =
    let seen = time o reading c in put_stamped o seen.1 key stamp vs seen.0

-- `stats`
abbrev pub stats : Options → Option ℕ → Cache → Cache × (ℕ × ℕ)
stats o reading c =
    let seen = (time o reading c).0 in (seen, (length seen.entries, seen.payload_bytes))

pub data Operation : Type 0 where
  beginning : Option ℕ → Operation
  getting : Option ℕ → Option ℕ → Operation
  putting : Option ℕ → Option ℕ → Option Stamp → List (Option ℕ) → Operation
  clearing : Operation
  counting : Option ℕ → Operation

abbrev pub after : Options → Operation → Cache → Cache
after o (beginning reading) c = (begin o reading c).0
after o (getting reading key) c = (get o reading key c).0
after o (putting reading key stamp vs) c = put o reading key stamp vs c
after o clearing c = clear c
after o (counting reading) c = (stats o reading c).0

abbrev pub run : Options → List Operation → Cache → Cache
run o [] c = c
run o (x ∷ xs) c = run o xs (after o x c)
