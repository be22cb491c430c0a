-- ===== src/Base/Outcome.antt =====
-- What a call of a C++ function comes to: a value, an exception, or undefined behaviour.
use Prim.Native.String.{String}
use mathlib.Core.Option.{Option, none, some}
use mathlib.Core.Path.{◌≡◌, refl}

-- The exception types that the program throws, with the text given to them.
pub data Exn : Type 0 where
  range_error : String → Exn
  out_of_range : String → Exn
  invalid_argument : String → Exn
  length_error : Exn
  bad_function_call : Exn
  runtime_error : String → Exn

pub data Outcome {ℓ} (A : Type ℓ) : Type ℓ where
  value : A → Outcome A
  throws : Exn → Outcome A
  undefined : Outcome A

infixl 5 ◌>>=◌
abbrev pub ◌>>=◌ {ℓ κ} : {A : Type ℓ} {B : Type κ} → Outcome A → (A → Outcome B) → Outcome B
value a >>= f = f a
throws e >>= f = throws e
undefined >>= f = undefined

-- An element access with no bounds check.
abbrev pub unchecked {ℓ} : {A : Type ℓ} → Option A → Outcome A
unchecked none = undefined
unchecked (some a) = value a

pub >>=_assoc {ℓ κ μ} :
    {A : Type ℓ} {B : Type κ} {C : Type μ} (o : Outcome A) (f : A → Outcome B) (g : B → Outcome C)
    → ((o >>= f) >>= g) ≡ (o >>= λ a. f a >>= g)
>>=_assoc (value a) f g = refl
>>=_assoc (throws e) f g = refl
>>=_assoc undefined f g = refl

pub >>=_value {ℓ} : {A : Type ℓ} (o : Outcome A) → (o >>= λ a. value a) ≡ o
>>=_value (value a) = refl
>>=_value (throws e) = refl
>>=_value undefined = refl

-- A sequence that returns has returned in its first part.
pub >>=_returns {ℓ κ} :
    {A : Type ℓ} {B : Type κ} (o : Outcome A) (f : A → Outcome B) (b : B)
    → (o >>= f) ≡ value b
    → (a : A) × (o ≡ value a) × (f a ≡ value b)
>>=_returns (value a) f b e = (a, refl, e)
>>=_returns (throws x) f b e = absurd (cc e)
>>=_returns undefined f b e = absurd (cc e)
