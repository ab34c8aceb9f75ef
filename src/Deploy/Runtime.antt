-- ===== src/Deploy/Runtime.antt =====
-- The code of a deployed contract, compared with the compiler's (scripts/lib/local-deployment.mjs:
-- `immutableSpans`, `verifyRuntime`). A hexadecimal text is the list of its bytes, and `none` where it is
-- none; a name of an immutable is a number, and `none` where it is no valid one.
pub mod Laws
mod Tests
use aqua_orbital.Prelude.{
  ℕ, zero, suc, ◌+◌, Bool, true, false, ◌&&◌, ◌||◌, not, List, [], ◌∷◌, ◌++◌, Option, none, some,
  ltb, leb, ◌==◌, all, length, if◌then◌else◌, Result, ok, err, ◌>>=◌, ◌>>◌, fail_if, or_fail,
}
use aqua_orbital.Text.{same_text}

pub data Error : Type 0 where
  immutable_references_invalid immutable_id_invalid immutable_span_invalid : Error
  immutable_overlap immutable_template_nonzero immutable_value_mismatch : Error
  runtime_simulation_mismatch runtime_template_mismatch : Error

-- A place of an immutable. `has_two_fields` says whether it is a record of a start and a length, of which
-- the start is a safe natural number.
pub record Location : Type 0 where
  pub has_two_fields : Bool
  pub start : ℕ
  pub length : ℕ

pub record Span : Type 0 where
  pub id : ℕ
  pub start : ℕ

-- The loop over the places of one immutable, of code of some length.
abbrev pub locate : ℕ → ℕ → List Location → Result Error (List Span)
locate size id [] = ok []
locate size id (l ∷ ls) = do
  fail_if (not l.has_two_fields || not (l.length == 32) || ltb size (l.start + 32))
      immutable_span_invalid
  rest ← locate size id ls
  ok (record { id = id; start = l.start } ∷ rest)

abbrev pub is_empty : List Location → Bool
is_empty [] = true
is_empty (l ∷ ls) = false

abbrev pub locate_all : ℕ → List (Option ℕ × List Location) → Result Error (List Span)
locate_all size [] = ok []
locate_all size ((name, locations) ∷ refs) = do
  id ← or_fail name immutable_id_invalid
  fail_if (is_empty locations) immutable_id_invalid
  spans ← locate size id locations
  rest ← locate_all size refs
  ok (spans ++ rest)

-- `spans.sort((a,b)=>a.start-b.start)`
abbrev pub insert_span : Span → List Span → List Span
insert_span s [] = s ∷ []
insert_span s (t ∷ ts) = if leb s.start t.start then s ∷ t ∷ ts else t ∷ insert_span s ts

abbrev pub sorted : List Span → List Span
sorted [] = []
sorted (s ∷ ss) = insert_span s (sorted ss)

-- The bytes from a place on.
abbrev pub slice : (start count : ℕ) → List ℕ → List ℕ
slice start zero xs = []
slice start (suc n) [] = []
slice zero (suc n) (x ∷ xs) = x ∷ slice zero n xs
slice (suc s) (suc n) (x ∷ xs) = slice s (suc n) xs

-- The code with zeros from a place on.
unfoldable pub zero_out : (start count : ℕ) → List ℕ → List ℕ
zero_out start count [] = []
zero_out zero zero (x ∷ xs) = x ∷ xs
zero_out zero (suc n) (x ∷ xs) = 0 ∷ zero_out zero n xs
zero_out (suc s) n (x ∷ xs) = x ∷ zero_out s n xs

-- The loop over the sorted spans, from the end of the span before.
abbrev pub check_spans : List ℕ → ℕ → List Span → Result Error (Unit {0})
check_spans template end [] = ok tt
check_spans template end (s ∷ ss) = do
  fail_if (ltb s.start end) immutable_overlap
  fail_if (not (all (λ b. b == 0) (slice s.start 32 template))) immutable_template_nonzero
  check_spans template (s.start + 32) ss

-- `immutableSpans`, with the code of the template. References that are no record are `none`.
unfoldable pub immutable_spans :
    Option (List ℕ) → Option (List (Option ℕ × List Location)) → Result Error (List ℕ × List Span)
immutable_spans template references = do
  code ← or_fail template immutable_references_invalid
  refs ← or_fail references immutable_references_invalid
  spans ← locate_all (length code) refs
  check_spans code 0 (sorted spans)
  ok (code, sorted spans)

abbrev pub value_of : ℕ → List (ℕ × List ℕ) → Option (List ℕ)
value_of id [] = none
value_of id ((n, v) ∷ vs) = if n == id then some v else value_of id vs

abbrev pub differs : Option (List ℕ) → List ℕ → Bool
differs none v = false
differs (some w) v = not (same_text w v)

-- The loop that takes the values of the immutables out of the code.
unfoldable pub mask_all :
    List Span → List ℕ → List (ℕ × List ℕ) → Result Error (List ℕ × List (ℕ × List ℕ))
mask_all [] code values = ok (code, values)
mask_all (s ∷ ss) code values = do
  fail_if (differs (value_of s.id values) (slice s.start 32 code)) immutable_value_mismatch
  mask_all ss (zero_out s.start 32 code) ((s.id, slice s.start 32 code) ∷ values)

-- What `verifyRuntime` returns: the code in place of its length and hash, and the immutables' values.
pub record Runtime : Type 0 where
  pub code : List ℕ
  pub values : List (ℕ × List ℕ)

-- `verifyRuntime`
unfoldable pub verify_runtime :
    (template : Option (List ℕ)) (references : Option (List (Option ℕ × List Location)))
    (simulated actual : Option (List ℕ))
    → Result Error Runtime
verify_runtime template references simulated actual = do
  (code, spans) ← immutable_spans template references
  sim ← or_fail simulated runtime_simulation_mismatch
  act ← or_fail actual runtime_simulation_mismatch
  fail_if (not (same_text act sim)) runtime_simulation_mismatch
  fail_if (not (length act == length code) || (length act == 0) || ltb 24576 (length act))
      runtime_template_mismatch
  (masked, values) ← mask_all spans act []
  fail_if (not (same_text masked code)) runtime_template_mismatch
  ok (record { code = act; values = values })
