-- ===== src/Base/Int.antt =====
-- Go's `int` where it may be negative; `negsuc n` is -(n + 1).
use Prim.Native.Nat.{ℕ}
use mathlib.Core.Path.{◌≡◌}
use mathlib.Core.Bool.{Bool, true, false}
use native.Mathlib.Omega.{arith}
use aa.Base.Tests.{ltb, ◌==◌}

pub data ℤ : Type 0 where
  pos : ℕ → ℤ
  negsuc : ℕ → ℤ

-- a < b
abbrev pub ltℤ : ℤ → ℤ → Bool
ltℤ (pos a) (pos b) = ltb a b
ltℤ (pos a) (negsuc b) = false
ltℤ (negsuc a) (pos b) = true
ltℤ (negsuc a) (negsuc b) = ltb b a

-- a == b
abbrev pub same_int : ℤ → ℤ → Bool
same_int (pos a) (pos b) = a == b
same_int (pos a) (negsuc b) = false
same_int (negsuc a) (pos b) = false
same_int (negsuc a) (negsuc b) = a == b

pub ltℤ_trans : (a b c : ℤ) → ltℤ a b ≡ true → ltℤ b c ≡ true → ltℤ a c ≡ true
ltℤ_trans a b c h k = ground arith

pub ltℤ_asymm : (a b : ℤ) → ltℤ a b ≡ true → ltℤ b a ≡ false
ltℤ_asymm a b h = ground arith

pub ltℤ_cotrans : (a b c : ℤ) → ltℤ a c ≡ true → ltℤ b c ≡ false → ltℤ a b ≡ true
ltℤ_cotrans a b c h k = ground arith
