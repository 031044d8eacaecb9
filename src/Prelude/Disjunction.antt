-- ===== src/Prelude/Disjunction.antt =====
-- Bounds of `bit_or` at variables.
use Prim.Native.Nat.{ℕ, zero, suc, ◌+◌, ◌*◌, ◌/◌, ◌^◌, ◌≤◌, ◌<◌, bit_or}
use mathlib.Core.Path.{◌≡◌, ap, ◌∙◌}
use native.Mathlib.Nat.{pow-suc}
use native.Mathlib.Omega.{arith}
use kv8_metrics.Prelude.Bits.{bit_or_halves, zero-bit_or}

right_fuel : (m a b : ℕ) → b ≤ m → b ≤ bit_or a b
right_fuel m a zero h = omega arith
right_fuel zero a (suc b) h = absurd (omega arith)
right_fuel (suc m) a (suc b) h =
    omega (arith, bit_or_halves a (suc b), right_fuel m (a / 2) (suc b / 2) (omega arith))

left_fuel : (m a b : ℕ) → a ≤ m → a ≤ bit_or a b
left_fuel m zero b h = omega arith
left_fuel zero (suc a) b h = absurd (omega arith)
left_fuel (suc m) (suc a) b h =
    omega (arith, bit_or_halves (suc a) b, left_fuel m (suc a / 2) (b / 2) (omega arith))

pub le-bit_or_right : (a b : ℕ) → b ≤ bit_or a b
le-bit_or_right a b = right_fuel b a b (omega arith)

pub le-bit_or_left : (a b : ℕ) → a ≤ bit_or a b
le-bit_or_left a b = left_fuel a a b (omega arith)

pub bit_or-lt : (k a b : ℕ) → a < 2 ^ k → b < 2 ^ k → bit_or a b < 2 ^ k
bit_or-lt zero a b ha hb =
    omega (arith, ap (λ t. bit_or t b) {x = a} {y = 0} (omega arith) ∙ zero-bit_or b)
bit_or-lt (suc k) a b ha hb = omega (
  arith,
  bit_or_halves a b,
  bit_or-lt k (a / 2) (b / 2) (omega (arith, pow-suc 2 k)) (omega (arith, pow-suc 2 k)),
  pow-suc 2 k,
)

-- The high part of one number over the other number.
pub bit_or_high :
    (j hi lo y : ℕ) → lo < 2 ^ j → y < 2 ^ j → hi * 2 ^ j + y ≤ bit_or (hi * 2 ^ j + lo) y
bit_or_high zero hi lo y hl hy = omega (arith, le-bit_or_left (hi * 1 + lo) y)
bit_or_high (suc j) hi lo y hl hy = omega (
  arith,
  bit_or_halves (hi * 2 ^ suc j + lo) y,
  bit_or_high j hi (lo / 2) (y / 2) (omega (arith, pow-suc 2 j)) (omega (arith, pow-suc 2 j)),
  ap (λ t. bit_or t (y / 2)) {x = (hi * 2 ^ suc j + lo) / 2} {y = hi * 2 ^ j + lo / 2}
      (omega (arith, twice)),
  twice,
)
  where
    twice : hi * 2 ^ suc j ≡ 2 * (hi * 2 ^ j)
    twice = rw pow-suc (omega arith)
