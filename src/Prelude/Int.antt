-- ===== src/Prelude/Int.antt =====
-- Integers over the native numbers, and their comparison.
use Prim.Native.Nat.{ℕ, ◌-◌, ◌^◌}
use mathlib.Core.Bool.{Bool, true, false}
use kv8_metrics.Prelude.Tests.{◌==◌, ltb, if◌then◌else◌}

pub data ℤ : Type 0 where
  pos : ℕ → ℤ
  negsuc : ℕ → ℤ

-- `a < b`
unfoldable pub int_lt : ℤ → ℤ → Bool
int_lt (ℤ.pos a) (ℤ.pos b) = ltb a b
int_lt (ℤ.pos a) (ℤ.negsuc b) = false
int_lt (ℤ.negsuc a) (ℤ.pos b) = true
int_lt (ℤ.negsuc a) (ℤ.negsuc b) = ltb b a

-- Two's complement with `w` bits.
unfoldable pub signed : ℕ → ℕ → ℤ
signed w v = if ltb v (2 ^ (w - 1)) then ℤ.pos v else ℤ.negsuc (2 ^ w - 1 - v)

-- `a == b`
unfoldable pub int_eq : ℤ → ℤ → Bool
int_eq (ℤ.pos a) (ℤ.pos b) = a == b
int_eq (ℤ.negsuc a) (ℤ.negsuc b) = a == b
int_eq _ _ = false
