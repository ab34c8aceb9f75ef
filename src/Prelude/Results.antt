-- ===== src/Prelude/Results.antt =====
-- A thrown error as a value. The error type is the component's own.
use mathlib.Core.Path.{◌≡◌, refl, subst, ap}
use mathlib.Core.Bool.{Bool, true, false}
use mathlib.Core.Option.{Option, none, some}

pub data Result {κ ℓ} (E : Type κ) (A : Type ℓ) : Type (κ ⊔ ℓ) where
  err : E → Result E A
  ok : A → Result E A

-- `if (bad) throw e`
abbrev pub fail_if {κ} : {E : Type κ} → Bool → E → Result E (Unit {0})
fail_if false e = ok tt
fail_if true e = err e

-- `if (!found) throw e`
abbrev pub or_fail {κ ℓ} : {E : Type κ} {A : Type ℓ} → Option A → E → Result E A
or_fail none e = err e
or_fail (some a) e = ok a

-- What follows a call that did not throw.
infixl 5 ◌>>=◌ ◌>>◌
abbrev pub ◌>>=◌ {κ ℓ μ} :
    {E : Type κ} {B : Type ℓ} {A : Type μ} (call : Result E A) (next : A → Result E B) → Result E B
err e >>= next = err e
ok a >>= next = next a

abbrev pub ◌>>◌ {κ ℓ} :
    {E : Type κ} {B : Type ℓ} (call : Result E (Unit {0})) (next : Result E B) → Result E B
call >> next = call >>= λ u. next

-- Inversion of calls that succeed.
pub ok-injective {ℓ κ} :
    {E : Type ℓ} {A : Type κ} {a b : A} → ◌≡◌ {A = Result E A} (ok a) (ok b) → a ≡ b
ok-injective h = cc

-- A chain that succeeds: what follows is proved at variables, in continuation form.
module _ {ℓ κ μ ν} {E : Type ℓ} {A : Type κ} {B : Type μ} {P : Type ν} where
  pub >>=-elim :
      (m : Result E A) (f : A → Result E B) {b : B}
      → (m >>= f) ≡ ok b
      → ((a : A) → m ≡ ok a → f a ≡ ok b → P)
      → P
  >>=-elim (ok a) f h k = k a refl h
  >>=-elim (err e) f h k = cc

pub fail_if->>-eq-ok {ℓ κ} :
    {E : Type ℓ} {B : Type κ} (t : Bool) (e : E) (m : Result E B) {b : B}
    → (fail_if t e >> m) ≡ ok b
    → (t ≡ false) × (m ≡ ok b)
fail_if->>-eq-ok true e m h = cc
fail_if->>-eq-ok false e m h = (refl, h)

pub fail_if-eq-ok {ℓ} :
    {E : Type ℓ} (b : Bool) (e : E) {u : Unit {0}} → fail_if b e ≡ ok u → b ≡ false
fail_if-eq-ok true e h = cc
fail_if-eq-ok false e h = refl

pub >>=-eq-ok {κ ℓ μ} :
    {E : Type κ} {B : Type ℓ} {A : Type μ} (call : Result E A) (next : A → Result E B) {b : B}
    → (call >>= next) ≡ ok b
    → (a : A) × (call ≡ ok a) × (next a ≡ ok b)
>>=-eq-ok call next h = >>=-elim call next h (λ a done rest. (a, done, rest))

pub or_fail-eq-ok {κ ℓ} :
    {E : Type κ} {A : Type ℓ} (o : Option A) (e : E) {a : A} → or_fail o e ≡ ok a → o ≡ some a
or_fail-eq-ok none e h = cc
or_fail-eq-ok (some a) e h = ap some (ok-injective h)

-- What a call ensures if it does not throw.
pub record Ensures {ℓ κ μ} {E : Type ℓ} {B : Type κ} (P : B → Type μ) (m : Result E B)
    : Type (ℓ ⊔ κ ⊔ μ) where
  pub holds : (b : B) → m ≡ ok b → P b

module _ {ℓ κ μ ν} {E : Type ℓ} {A : Type κ} {B : Type μ} {P : B → Type ν} where
  pub Ensures->>= :
      (m : Result E A) (f : A → Result E B)
      → ((a : A) → m ≡ ok a → Ensures P (f a))
      → Ensures P (m >>= f)
  Ensures->>= m f h = record {
    holds = λ b e. >>=-elim m f e (λ a done rest. (h a done).holds b rest);
  }

module _ {ℓ κ μ} {E : Type ℓ} {B : Type κ} {P : B → Type μ} where
  pub Ensures->> :
      (m : Result E (Unit {0})) (n : Result E B) → (m ≡ ok tt → Ensures P n) → Ensures P (m >> n)
  Ensures->> m n h = Ensures->>= m (λ u. n) (λ u done. h done)

  pub Ensures-fail_if :
      (t : Bool) (e : E) (n : Result E B) → (t ≡ false → Ensures P n) → Ensures P (fail_if t e >> n)
  Ensures-fail_if t e n h = record {
    holds = λ b done. let (passed, rest) = fail_if->>-eq-ok t e n done in (h passed).holds b rest;
  }

  pub Ensures-ok : (b : B) → P b → Ensures {E = E} P (ok b)
  Ensures-ok b h = record { holds = λ a e. subst P (ok-injective e) h }
