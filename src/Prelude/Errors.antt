-- ===== src/Prelude/Errors.antt =====
-- Exceptions as values: the exception classes of the package, each with its message, and the
-- monads of code that may raise, without and with state.
use mathlib.Core.Path.{◌≡◌, refl}
use mathlib.Core.Logic.{◌⊎◌, inl, inr}
use mathlib.Core.Bool.{Bool, true, false}
use mathlib.Core.Option.{Option, none, some}
use Prim.Native.String.{String}

-- `other` is any exception of Python or of a library, such as `OSError` or `KeyError`.
pub data Error : Type 0 where
  transport enrollment receiver configuration value other : String → Error
  -- with its code
  local_api : String → String → Error

pub data Result {ℓ} (A : Type ℓ) : Type ℓ where
  ok : A → Result A
  err : Error → Result A

infixl 5 ◌>>=◌ ◌>>◌
abbrev pub ◌>>=◌ {ℓ κ} : {A : Type ℓ} {B : Type κ} → Result A → (A → Result B) → Result B
ok a >>= f = f a
err e >>= f = err e

abbrev pub ◌>>◌ {ℓ κ} : {A : Type ℓ} {B : Type κ} → Result A → Result B → Result B
m >> k = m >>= λ _. k

-- `if bad: raise e`
abbrev pub raise_if : Bool → Error → Result (Unit {0})
raise_if true e = err e
raise_if false e = ok tt

-- The value, or the exception where there is none.
abbrev pub need {ℓ} : {A : Type ℓ} → Option A → Error → Result A
need none e = err e
need (some a) e = ok a

module _ {ℓ κ} {A : Type ℓ} {B : Type κ} where
  -- The value that was passed on.
  abbrev pub Passed : Result A → (A → Result B) → B → Type (ℓ ⊔ κ)
  Passed m f b = (a : A) × (m ≡ ok a) × (f a ≡ ok b)

  -- What a chain that returned went through.
  pub >>=-eq-ok : (m : Result A) (f : A → Result B) {b : B} → (m >>= f) ≡ ok b → Passed m f b
  >>=-eq-ok (err e) f h = cc
  >>=-eq-ok (ok passed) f h = (passed, refl, h)

module _ {ℓ} {A : Type ℓ} where
  pub raise_if-eq-ok :
      (b : Bool) (e : Error) (k : Result A) {a : A}
      → (raise_if b e >> k) ≡ ok a
      → (b ≡ false) × (k ≡ ok a)
  raise_if-eq-ok true e k h = cc
  raise_if-eq-ok false e k h = (refl, h)

  pub need-eq-ok : (o : Option A) (e : Error) {a : A} → need o e ≡ ok a → o ≡ some a
  need-eq-ok none e h = cc
  need-eq-ok (some a) e h = cc

module _ {ℓ} {A : Type ℓ} where
  pub Result-cases : (r : Result A) → ((a : A) × (r ≡ ok a)) ⊎ ((e : Error) × (r ≡ err e))
  Result-cases (ok a) = inl (a, refl)
  Result-cases (err e) = inr (e, refl)
