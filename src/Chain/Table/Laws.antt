-- ===== src/Chain/Table/Laws.antt =====
-- The invariant of the block store (packages/db/src/reorg.ts and `atomicBlock` of
-- packages/db/src/index.ts), and what deleting the rows above a height leaves.
use mathlib.Core.Path.{subst}
use mathlib.Core.Option.{some-injective}
use aqua_orbital.Prelude.{
  ℕ, zero, suc, ◌+◌, ◌≤◌, ◌<◌, ◌≡◌, refl, ap, inl, inr, Bool, true, false, not, List, [], ◌∷◌, ◌++◌,
  Option, none, some, arith, find, take, includes, All, All-middle, Bool-cases, ==_iff, ◌||◌,
}
use aqua_orbital.Chain.Table.{Block, Cursor, Event, Coverage, Db, hashes, at_most, above, filter_by}

-- Each row stands one above the next and names it as its parent.
abbrev pub Linked : List Block → Type 0
Linked [] = Unit
Linked (b ∷ []) = Unit
Linked (child ∷ parent ∷ bs) =
    (child.number ≡ parent.number + 1) × (child.parent_hash ≡ parent.hash) × Linked (parent ∷ bs)

-- The cursor is the highest row.
abbrev pub IsTip : Option Cursor → List Block → Type 0
IsTip none [] = Unit
IsTip none (b ∷ bs) = ⊥
IsTip (some c) [] = ⊥
IsTip (some c) (b ∷ bs) = (c.height ≡ b.number) × (c.hash ≡ b.hash)

-- No hash stands twice.
abbrev pub Distinct : List Block → Type 0
Distinct [] = Unit
Distinct (b ∷ bs) = (includes b.hash (hashes bs) ≡ false) × Distinct bs

pub record IsValid (db : Db) : Type 0 where
  pub linked : Linked db.blocks
  pub tip : IsTip db.cursor db.blocks
  pub distinct : Distinct db.blocks
  pub events_stored : All (λ (e : Event). includes e.block_hash (hashes db.blocks) ≡ true) db.events
  pub coverage_stored :
      All (λ (c : Coverage). includes c.hash (hashes db.blocks) ≡ true) db.coverage

abbrev pub AllBelow : ℕ → List Block → Type 0
AllBelow h bs = All (λ (b : Block). b.number < h) bs

AllBelow-mono : (h k : ℕ) (bs : List Block) → h ≤ k → AllBelow h bs → AllBelow k bs
AllBelow-mono h k [] le a = tt
AllBelow-mono h k (b ∷ bs) le (p, a) = (omega arith, AllBelow-mono h k bs le a)

pub Linked-AllBelow : (b : Block) (bs : List Block) → Linked (b ∷ bs) → AllBelow b.number bs
Linked-AllBelow b [] l = tt
Linked-AllBelow b (c ∷ bs) (n, h, l) =
    (omega arith, AllBelow-mono c.number b.number bs (omega arith) (Linked-AllBelow c bs l))

at_most_of_AllBelow : (h : ℕ) (bs : List Block) → AllBelow h bs → at_most h bs ≡ bs
at_most_of_AllBelow h [] a = refl
at_most_of_AllBelow h (b ∷ bs) (p, a) = ground (arith, at_most_of_AllBelow h bs a)

above_of_AllBelow : (h : ℕ) (bs : List Block) → AllBelow h bs → above h bs ≡ []
above_of_AllBelow h [] a = refl
above_of_AllBelow h (b ∷ bs) (p, a) = ground (arith, above_of_AllBelow h bs a)

-- A row of the store splits it: the rows above it, then itself and the rows below it.
pub record Split (p : Block → Bool) (bs : List Block) (a : Block) : Type 0 where
  pub upper : List Block
  pub lower : List Block
  pub whole : bs ≡ upper ++ a ∷ lower
  pub chosen : p a ≡ true
  pub passed : All (λ b. p b ≡ false) upper
  pub kept : at_most a.number bs ≡ a ∷ lower
  pub gone : above a.number bs ≡ upper
  pub linked : Linked (a ∷ lower)
  pub higher : All (λ (b : Block). a.number < b.number) upper

Linked-tail : (b : Block) (bs : List Block) → Linked (b ∷ bs) → Linked bs
Linked-tail b [] l = tt
Linked-tail b (c ∷ bs) l = l.2

Split-here :
    (p : Block → Bool) (b : Block) (bs : List Block)
    → Linked (b ∷ bs)
    → p b ≡ true
    → Split p (b ∷ bs) b
Split-here p b bs l h =
    let below = Linked-AllBelow b bs l in
    record {
      upper = [];
      lower = bs;
      whole = refl;
      chosen = h;
      passed = tt;
      kept = ground (arith, at_most_of_AllBelow b.number bs below);
      gone = ground (arith, above_of_AllBelow b.number bs below);
      linked = l;
      higher = tt;
    }

Split-there :
    (p : Block → Bool) (b : Block) (bs : List Block) (a : Block)
    → Linked (b ∷ bs)
    → p b ≡ false
    → Split p bs a
    → Split p (b ∷ bs) a
Split-there p b bs a l miss r =
    let all_below : AllBelow b.number (r.upper ++ a ∷ r.lower) =
      subst (AllBelow b.number) r.whole (Linked-AllBelow b bs l) in
    let below : a.number < b.number =
      All-middle (λ (c : Block). c.number < b.number) r.upper r.lower a all_below in
    record {
      upper = b ∷ r.upper;
      lower = r.lower;
      whole = ap (λ (xs : List Block). b ∷ xs) r.whole;
      chosen = r.chosen;
      passed = (miss, r.passed);
      kept = ground (arith, r.kept);
      gone = ground (arith, r.gone);
      linked = r.linked;
      higher = (below, r.higher);
    }

-- The first row that passes a test, among the highest `n`.
pub find-Split :
    (p : Block → Bool) (n : ℕ) (bs : List Block) (a : Block)
    → Linked bs
    → find p (take n bs) ≡ some a
    → Split p bs a
find-Split p zero bs a l e = cc
find-Split p (suc n) [] a l e = cc
find-Split p (suc n) (b ∷ bs) a l e = elim (Bool-cases (p b)) [
  | inl hit ↦
      let same : b ≡ a = some-injective _ _ (rw hit at e) in
      subst (Split p (b ∷ bs)) same (Split-here p b bs l hit)
  | inr miss ↦ Split-there p b bs a l miss (find-Split p n bs a (Linked-tail b bs l) (rw miss at e))
]

-- Membership among the hashes of a split store.
hashes-append :
    (x : ℕ) (bs cs : List Block)
    → includes x (hashes (bs ++ cs)) ≡ (includes x (hashes bs) || includes x (hashes cs))
hashes-append x [] cs = refl
hashes-append x (b ∷ bs) cs = ground (arith, hashes-append x bs cs)

pub Distinct-suffix : (bs cs : List Block) → Distinct (bs ++ cs) → Distinct cs
Distinct-suffix [] cs d = d
Distinct-suffix (b ∷ bs) cs d = Distinct-suffix bs cs d.1

-- A hash of the removed rows is none of the kept ones.
Distinct-disjoint :
    (x : ℕ) (bs cs : List Block)
    → Distinct (bs ++ cs)
    → includes x (hashes bs) ≡ true
    → includes x (hashes cs) ≡ false
Distinct-disjoint x [] cs d h = cc
Distinct-disjoint x (b ∷ bs) cs (new, d) h =
    ground (arith, Distinct-disjoint x bs cs d, hashes-append x bs cs, ==_iff b.hash x)

-- Of two disjoint parts, not to be in the removed one is to be in the kept one.
pub not-includes-gone :
    (x : ℕ) (bs cs : List Block)
    → Distinct (bs ++ cs)
    → includes x (hashes (bs ++ cs)) ≡ true
    → not (includes x (hashes bs)) ≡ includes x (hashes cs)
not-includes-gone x bs cs d h = ground (arith, hashes-append x bs cs, Distinct-disjoint x bs cs d)

-- Cascading a deletion keeps exactly the rows of the blocks that are kept.
module _ {A : Type 0} (hash_of : A → ℕ) (upper lower : List Block)
    (d : Distinct (upper ++ lower)) where
  pub cascade_lem :
      (es : List A)
      → All (λ e. includes (hash_of e) (hashes (upper ++ lower)) ≡ true) es
      → filter_by (λ e. not (includes (hash_of e) (hashes upper))) es
        ≡ filter_by (λ e. includes (hash_of e) (hashes lower)) es
  cascade_lem [] h = refl
  cascade_lem (e ∷ es) (here, rest) =
      rw (not-includes-gone (hash_of e) upper lower d here, cascade_lem es rest)

pub All-filter_by :
    {A : Type 0} (p : A → Bool) (es : List A) → All (λ e. p e ≡ true) (filter_by p es)
All-filter_by p [] = tt
All-filter_by p (e ∷ es) = elim (Bool-cases (p e)) [
  | inl keep ↦ rw keep (keep, All-filter_by p es)
  | inr drop ↦ rw drop (All-filter_by p es)
]
