-- ===== src/Common/Failure.antt =====
-- Exceptions as values: what a `throw` carries is given by a constructor, its message's parts as
-- arguments.
use Prim.Native.Nat.{ℕ}
use Prim.Native.String.{String}
use mathlib.Core.Path.{◌≡◌, refl}
use mathlib.Core.List.{List}

pub data Error : Type 0 where
  unknown_channel : String → Error
  unknown_reducer : String → String → Error
  unknown_node : String → Error
  unknown_branch : String → String → Error
  no_transition : String → Error
  step_budget : ℕ → Error
  no_start : Error
  no_router : String → Error
  active_gate : String → Error
  missing_requirements : String → List String → Error
  type_error : String → Error
  invalid_timeout : String → Error
  deadline_exceeded : String → ℕ → Error
  namespace_required : Error
  guardrail_namespace : String → Error
  foreign_namespace : String → Error
  outside_root : String → Error
  guardrail_path : String → Error
  handler_failed : String → Error

-- What a call gives: its value, or the exception that it throws.
pub data Result {ℓ} (Value : Type ℓ) : Type ℓ where
  throw : Error → Result Value
  ok : Value → Result Value

infixl 5 ◌>>=◌
-- A call, and what is done with its value; an exception ends both.
abbrev pub ◌>>=◌ {ℓ κ} :
    {First : Type ℓ} {Second : Type κ} → Result First → (First → Result Second) → Result Second
throw problem >>= next = throw problem
ok value >>= next = next value

-- A value of both comes from a value of the first.
pub >>=-eq-ok {ℓ κ} :
    {First : Type ℓ} {Second : Type κ} (call : Result First) (next : First → Result Second)
    {last : Second}
    → call >>= next ≡ ok last
    → (value : First) × (call ≡ ok value) × (next value ≡ ok last)
>>=-eq-ok (throw problem) next e = cc
>>=-eq-ok (ok value) next e = (value, refl, e)

-- What holds of the result, if there is one.
abbrev pub Post {ℓ κ} : {A : Type ℓ} → (A → Type κ) → Result A → Type κ
Post P (ok a) = P a
Post P (throw e) = Unit

pub Post-bind {ℓ κ} :
    {A B : Type ℓ} (P : A → Type κ) (Q : B → Type κ) (m : Result A) (f : A → Result B)
    → Post P m
    → ((a : A) → P a → Post Q (f a))
    → Post Q (m >>= f)
Post-bind P Q (ok a) f h k = k a h
Post-bind P Q (throw e) f h k = tt

-- The same, where nothing is known of the first result.
pub Post-bind_any {ℓ κ} :
    {A B : Type ℓ} (Q : B → Type κ) (m : Result A) (f : A → Result B)
    → ((a : A) → Post Q (f a))
    → Post Q (m >>= f)
Post-bind_any Q (ok a) f k = k a
Post-bind_any Q (throw e) f k = tt

pub Post-mono {ℓ κ} :
    {A : Type ℓ} (P Q : A → Type κ) (m : Result A) → ((a : A) → P a → Q a) → Post P m → Post Q m
Post-mono P Q (ok a) f h = f a h
Post-mono P Q (throw e) f h = tt
