-- ===== src/Common/Memory.antt =====
-- Reads and writes of a byte array that fault when they leave it.
use Prim.Native.Nat.{ℕ, ◌+◌, ◌≤◌}
use mathlib.Core.List.{List}
use mathlib.Core.Path.{◌≡◌}
use native.Mathlib.Omega.{arith}
use bek_os.Common.Tests.{leb, if◌then◌else◌}
use bek_os.Common.Lists.{length, slice, splice}
use bek_os.Common.Outcome.{Outcome, ok, fault}

module _ {ℓ} {A : Type ℓ} where
  unfoldable pub memory_read : List A → ℕ → ℕ → Outcome (List A)
  memory_read xs i n = if leb (i + n) (length xs) then ok (slice i n xs) else fault

  unfoldable pub memory_write : List A → ℕ → List A → Outcome (List A)
  memory_write xs i ys = if leb (i + length ys) (length xs) then ok (splice xs i ys) else fault

  pub memory_read_lem :
      (xs : List A) (i n : ℕ) → i + n ≤ length xs → memory_read xs i n ≡ ok (slice i n xs)
  unfolding memory_read
  memory_read_lem xs i n h = ground arith

  pub memory_write_lem :
      (xs : List A) (i : ℕ) (ys : List A)
      → i + length ys ≤ length xs
      → memory_write xs i ys ≡ ok (splice xs i ys)
  unfolding memory_write
  memory_write_lem xs i ys h = ground arith
