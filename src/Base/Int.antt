-- ===== src/Base/Int.antt =====
-- Signed integers (Go's int): `negsuc n` is -(n + 1). No sum of the modelled code leaves 64 bits.
use Prim.Native.Nat.{ℕ, zero, suc}
use mathlib.Core.Bool.{Bool, true, false}
use kdmp.Base.Tests.{leb}

pub data ℤ : Type 0 where
  pos : ℕ → ℤ
  negsuc : ℕ → ℤ

-- `n == 0`.
abbrev pub is_zero : ℤ → Bool
is_zero (pos zero) = true
is_zero (pos (suc _)) = false
is_zero (negsuc _) = false

-- `a <= b`.
abbrev pub leb_ℤ : ℤ → ℤ → Bool
leb_ℤ (pos a) (pos b) = leb a b
leb_ℤ (pos _) (negsuc _) = false
leb_ℤ (negsuc _) (pos _) = true
leb_ℤ (negsuc a) (negsuc b) = leb b a
