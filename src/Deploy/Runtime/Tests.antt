-- ===== src/Deploy/Runtime/Tests.antt =====
-- A code of 34 bytes whose last 32 are an immutable (scripts/lib/local-deployment.mjs).
use aqua_orbital.Prelude.{ℕ, zero, suc, ◌≡◌, refl, true, List, [], ◌∷◌, Option, some, ok, err}
use aqua_orbital.Deploy.Runtime.{
  Location, Runtime, runtime_template_mismatch, zero_out, immutable_spans, mask_all, verify_runtime,
}
use aqua_orbital.Deploy.Runtime.Laws.{IsRuntime, verify_runtime-IsRuntime}

abbrev repeated : ℕ → ℕ → List ℕ
repeated zero b = []
repeated (suc n) b = b ∷ repeated n b

abbrev code : ℕ → ℕ → List ℕ
code first value = first ∷ 2 ∷ repeated 32 value

abbrev references : Option (List (Option ℕ × List Location))
references = some ((some 7, record { has_two_fields = true; start = 2; length = 32 } ∷ []) ∷ [])

abbrev runtime : Runtime
runtime = record { code = code 1 9; values = (7, repeated 32 9) ∷ [] }

code-verified :
    verify_runtime (some (code 1 0)) references (some (code 1 9)) (some (code 1 9)) ≡ ok runtime
unfolding verify_runtime immutable_spans mask_all zero_out
code-verified = refl

-- A byte outside the immutable differs.
code-refused :
    verify_runtime (some (code 1 0)) references (some (code 3 9)) (some (code 3 9))
    ≡ err runtime_template_mismatch
unfolding verify_runtime immutable_spans mask_all zero_out
code-refused = refl

verify_runtime-IsRuntime_example :
    IsRuntime (some (code 1 0)) references (some (code 1 9)) (some (code 1 9)) runtime
verify_runtime-IsRuntime_example =
    verify_runtime-IsRuntime (some (code 1 0)) references (some (code 1 9)) (some (code 1 9))
      runtime code-verified
