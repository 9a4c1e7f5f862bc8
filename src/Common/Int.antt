-- ===== src/Common/Int.antt =====
-- Signed integers over the native numbers: the base index of a runner, -1 for the batter.
use Prim.Native.Nat.{ℕ, suc, zero}

-- `negsuc n` is -(n + 1).
pub data ℤ : Type 0 where
  pos : ℕ → ℤ
  negsuc : ℕ → ℤ

-- `base + 1`
abbrev pub inc : ℤ → ℤ
inc (pos n) = pos (suc n)
inc (negsuc zero) = pos 0
inc (negsuc (suc n)) = negsuc n
