-- ===== src/Base/Int.antt =====
-- The C type `int` where it can be negative. No operation of the modelled code leaves its range.
use Prim.Native.Nat.{ℕ, zero, suc}

-- `negsuc n` is -(n + 1).
pub data ℤ : Type 0 where
  pos : ℕ → ℤ
  negsuc : ℕ → ℤ

-- -n
abbrev pub neg : ℕ → ℤ
neg zero = pos 0
neg (suc m) = negsuc m
