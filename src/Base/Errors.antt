-- ===== src/Base/Errors.antt =====
-- Go's `error` results, and methods that change an object and may fail.
use Prim.Native.String.{String, ◌++◌}

-- The errors of the service. `from_result_code` and `new_problem` are the two constructors of the
-- problem library that the code calls, each kept with the code that it is given; `unauthorized` is
-- the web framework's error of that name; `failure` is any other error, by its text; a `panicked`
-- call has unwound.
pub data Error : Type 0 where
  from_result_code : String → Error
  new_problem : String → Error
  unauthorized : Error
  failure : String → Error
  panicked : Error

pub data Result {ℓ} (A : Type ℓ) : Type ℓ where
  ok : A → Result A
  err : Error → Result A

-- `return resultError(code)` at a code that is not empty
abbrev pub refuse {ℓ} : {A : Type ℓ} → String → Result A
refuse code = err (from_result_code ("err:" ++ code))

-- A method returns its result beside the state that it leaves, also when it fails.
abbrev pub Exec {ℓ κ} : Type ℓ → Type κ → Type (ℓ ⊔ κ)
Exec S A = S → Result A × S

module _ {ℓ κ} {S : Type ℓ} {A : Type κ} where
  abbrev pub pure : A → Exec S A
  pure a s = (ok a, s)

  abbrev pub raise : Error → Exec S A
  raise e s = (err e, s)

  abbrev pub when_ok {μ} : {B : Type μ} → Result A → (A → Exec S B) → Exec S B
  when_ok (ok a) f s = f a s
  when_ok (err e) f s = (err e, s)

module _ {ℓ κ μ} {S : Type ℓ} {A : Type κ} {B : Type μ} where
  infixl 10 ◌>>=◌ ◌>>◌
  abbrev pub ◌>>=◌ : Exec S A → (A → Exec S B) → Exec S B
  ◌>>=◌ m f s = when_ok (m s).0 f (m s).1

  abbrev pub ◌>>◌ : Exec S A → Exec S B → Exec S B
  m >> n = m >>= λ _. n
