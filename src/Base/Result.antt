-- ===== src/Base/Result.antt =====
-- Undefined behaviour as a value, and computations over a state that may meet it.
use mathlib.Core.Option.{Option, none, some}

pub data Fault : Type 0 where
  null_callee : Fault  -- `getCalledFunction()->getName()` where there is no called function
  no_operand : Fault  -- an operand index out of range
  not_pointer : Fault  -- `getPointerElementType()` of a type that is no pointer
  bad_cast : Fault  -- `CreateBitCast` of a value that no bit cast takes to the type
  no_field : Fault  -- `CreateStructGEP` into a type that is no struct with that field
  no_entry : Fault  -- the entry block of a function without one, or a block of PHI nodes only
  uninitialized : Fault  -- a type or a probe callee read before `initialization`
  no_function : Fault  -- the pass manager names no function of the module
  out_of_fuel : Fault  -- a loop of the model stopped before the loop of the code

pub data Result {ℓ} (A : Type ℓ) : Type ℓ where
  ok : A → Result A
  fault : Fault → Result A

abbrev pub bind {ℓ κ} : {A : Type ℓ} {B : Type κ} → Result A → (A → Result B) → Result B
bind (ok a) f = f a
bind (fault e) f = fault e

-- A computation over a state `S`.
abbrev pub Run : Type 0 → Type 0 → Type 0
Run S A = S → Result (A × S)

abbrev pub pure : {S A : Type 0} → A → Run S A
pure a s = ok (a, s)

infixl 5 ◌>>=◌ ◌>>◌
abbrev pub ◌>>=◌ : {S A B : Type 0} → Run S A → (A → Run S B) → Run S B
◌>>=◌ m f s = bind (m s) (λ (a, s'). f a s')

abbrev pub ◌>>◌ : {S B : Type 0} → Run S (Unit {0}) → Run S B → Run S B
m >> k = m >>= λ _. k

-- The value that must be there, or else a fault.
abbrev pub need : {S A : Type 0} → Fault → Option A → Run S A
need e none s = fault e
need e (some a) s = ok (a, s)
