-- ===== src/Common/Outcome.antt =====
-- The results of fallible code: `expected<T>` with its error code, the panic of VERIFY, ASSERT and
-- PANIC, the fault of an access outside the object that is accessed, and `spin` for a loop that has
-- used up the rounds that the model allows it.
use mathlib.Core.Option.{Option, none, some}
use mathlib.Core.Bool.{Bool, true, false}

-- The codes of kernel/include/api/error_codes.h that the modelled code returns.
pub data ErrorCode : Type 0 where
  esuccess einval eagain eaddrinuse enotsup eoverflow : ErrorCode

pub data Outcome {ℓ} (A : Type ℓ) : Type ℓ where
  ok : A → Outcome A
  err : ErrorCode → Outcome A
  panic fault spin : Outcome A

infixl 5 ◌>>=◌ ◌>>◌
abbrev pub ◌>>=◌ {ℓ κ} : {A : Type ℓ} {B : Type κ} → Outcome A → (A → Outcome B) → Outcome B
ok a >>= f = f a
err e >>= f = err e
panic >>= f = panic
fault >>= f = fault
spin >>= f = spin

abbrev pub ◌>>◌ {ℓ} : {B : Type ℓ} → Outcome (Unit {0}) → Outcome B → Outcome B
m >> k = m >>= λ _. k

-- VERIFY(b) and ASSERT(b).
abbrev pub verify : Bool → Outcome (Unit {0})
verify true = ok tt
verify false = panic

-- A read that must be in bounds.
abbrev pub or_fault {ℓ} : {A : Type ℓ} → Option A → Outcome A
or_fault (some a) = ok a
or_fault none = fault
