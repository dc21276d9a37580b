-- ===== src/Ipc/Bytes.antt =====
-- Numbers in memory, with the lowest byte first.
use bek_os.Common.{ℕ, zero, suc, ◌+◌, ◌*◌, ◌/◌, ◌%◌, ◌<◌, ◌≡◌, List, [], ◌∷◌, arith}

-- The `n` bytes of a number.
abbrev pub le : ℕ → ℕ → List ℕ
le zero v = []
le (suc n) v = v % 256 ∷ le n (v / 256)

abbrev pub from_le : List ℕ → ℕ
from_le [] = 0
from_le (b ∷ rest) = b + 256 * from_le rest

-- The numbers below it have `n` bytes.
abbrev pub limit : ℕ → ℕ
limit zero = 1
limit (suc n) = 256 * limit n

pub from_le-le : (n v : ℕ) → v < limit n → from_le (le n v) ≡ v
from_le-le zero v h = omega arith
from_le-le (suc n) v h = let ih = from_le-le n (v / 256) (omega arith) in omega arith
