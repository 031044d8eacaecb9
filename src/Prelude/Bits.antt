-- ===== src/Prelude/Bits.antt =====
-- `bit_or` and `bit_and` by their lowest digits, and the two shapes in which the program uses them:
-- joining fields that do not overlap, and masking by 2 ^ k - 1.
use Prim.Native.Nat.{
  ℕ, zero, suc, ◌+◌, ◌-◌, ◌*◌, ◌/◌, ◌%◌, ◌^◌, ◌≤◌, ◌<◌, min, max, bit_and, bit_or, digits,
  bit_and-bitwise, bit_or-bitwise,
}
use mathlib.Core.Path.{◌≡◌, refl, ap, ap₂, ◌∙◌}
use native.Mathlib.Nat.{
  pow-suc, one-le-pow, div-add-mod, mod-lt, mul-add-mod_self_left, mod-eq_of_lt, pow-le-pow_right,
}
use native.Mathlib.Decide.{dec_le}
use native.Mathlib.Omega.{arith}

module _ (z : ℕ → ℕ) (f : ℕ → ℕ → ℕ) where
  -- Any fuel from `x` on gives the same number.
  fuel_irrelevant : (x y j k : ℕ) → x ≤ j → x ≤ k → digits z f j x y ≡ digits z f k x y
  fuel_irrelevant zero y zero zero hj hk = refl
  fuel_irrelevant zero y zero (suc k) hj hk = refl
  fuel_irrelevant zero y (suc j) zero hj hk = refl
  fuel_irrelevant zero y (suc j) (suc k) hj hk = refl
  fuel_irrelevant (suc x) y zero k hj hk = absurd (omega arith)
  fuel_irrelevant (suc x) y (suc j) zero hj hk = absurd (omega arith)
  fuel_irrelevant (suc x) y (suc j) (suc k) hj hk =
      ap (λ t. t * 2 + f (suc x % 2) (y % 2))
        (fuel_irrelevant (suc x / 2) (y / 2) j k (omega arith) (omega arith))

  lowest_digit :
      (x y : ℕ)
      → digits z f (suc x) (suc x) y
        ≡ digits z f (suc x / 2) (suc x / 2) (y / 2) * 2 + f (suc x % 2) (y % 2)
  lowest_digit x y =
      ap (λ t. t * 2 + f (suc x % 2) (y % 2))
        (fuel_irrelevant (suc x / 2) (y / 2) x (suc x / 2) (omega arith) (omega arith))

pub bit_and_halves : (x y : ℕ) → bit_and x y ≡ min (x % 2) (y % 2) + 2 * bit_and (x / 2) (y / 2)
bit_and_halves zero y = omega (arith, bit_and-bitwise 0 (y / 2), bit_and-bitwise 0 y)
bit_and_halves (suc x) y = omega (
  arith,
  lowest_digit (λ d. 0) min x y,
  bit_and-bitwise (suc x / 2) (y / 2),
  bit_and-bitwise (suc x) y,
)

pub bit_or_halves : (x y : ℕ) → bit_or x y ≡ max (x % 2) (y % 2) + 2 * bit_or (x / 2) (y / 2)
bit_or_halves zero y = omega (arith, bit_or-bitwise 0 (y / 2), bit_or-bitwise 0 y)
bit_or_halves (suc x) y = omega (
  arith,
  lowest_digit (λ d. d) max x y,
  bit_or-bitwise (suc x / 2) (y / 2),
  bit_or-bitwise (suc x) y,
)

pub zero-bit_or : (y : ℕ) → bit_or 0 y ≡ y
zero-bit_or y = bit_or-bitwise 0 y

-- By halving, as often as a bound on the number says.
no_common_bits : (bound x : ℕ) → x ≤ bound → bit_and x 0 ≡ 0
no_common_bits bound zero below = bit_and-bitwise 0 0
no_common_bits zero (suc x) below = absurd (omega arith)
no_common_bits (suc bound) (suc x) below =
    omega (arith, no_common_bits bound (suc x / 2) (omega arith), bit_and_halves (suc x) 0)

pub bit_and-zero : (x : ℕ) → bit_and x 0 ≡ 0
bit_and-zero x = no_common_bits x x (omega arith)

pub two-pow_pos : (k : ℕ) → 0 < 2 ^ k
two-pow_pos k = one-le-pow k 2 (omega arith)

-- The remainder by 2 ^ (k + 1) from the last digit and the remainder of the rest.
mod-two-pow : (a k : ℕ) → a % 2 ^ suc k ≡ (a / 2 % 2 ^ k) * 2 + a % 2
mod-two-pow a k =
    ap (λ t. t % 2 ^ suc k) split ∙ mul-add-mod_self_left _ (a / 2 / m) _ ∙ mod-eq_of_lt small
  where
    m : ℕ
    m = 2 ^ k

    twice : 2 ^ suc k ≡ 2 * m
    twice = omega (arith, pow-suc 2 k)

    whole : m * (a / 2 / m) + a / 2 % m ≡ a / 2
    whole = div-add-mod (a / 2) m

    split : a ≡ 2 ^ suc k * (a / 2 / m) + ((a / 2 % m) * 2 + a % 2)
    split = rw twice (omega (arith, whole))

    small : (a / 2 % m) * 2 + a % 2 < 2 ^ suc k
    small = rw twice (omega (arith, mod-lt (a / 2) (two-pow_pos k)))

-- `x & (2 ^ k - 1)` is the remainder.
pub bit_and_mask : (a k : ℕ) → bit_and a (2 ^ k - 1) ≡ a % 2 ^ k
bit_and_mask a zero = omega (arith, bit_and-zero a)
bit_and_mask a (suc k) = omega (
  arith,
  bit_and_halves a (2 ^ suc k - 1),
  ap (bit_and (a / 2)) halved,
  bit_and_mask (a / 2) k,
  mod-two-pow a k,
  pow-suc 2 k,
  two-pow_pos k,
)
  where
    halved : (2 ^ suc k - 1) / 2 ≡ 2 ^ k - 1
    halved = omega (arith, pow-suc 2 k, two-pow_pos k)

-- Fields that do not overlap: `a | (b << k)` for `a < 2 ^ k`.
pub bit_or_join : (k a b : ℕ) → a < 2 ^ k → bit_or a (b * 2 ^ k) ≡ a + b * 2 ^ k
bit_or_join zero a b h =
    ap (λ t. bit_or t (b * 1)) {x = a} {y = 0} (omega arith) ∙ zero-bit_or (b * 1) ∙ omega arith
bit_or_join (suc k) a b h = omega (
  arith,
  bit_or_halves a (b * 2 ^ suc k),
  ap (bit_or (a / 2)) {x = b * 2 ^ suc k / 2} {y = b * 2 ^ k} (omega (arith, twice)),
  bit_or_join k (a / 2) b (omega (arith, pow-suc 2 k)),
  twice,
)
  where
    twice : b * 2 ^ suc k ≡ 2 * (b * 2 ^ k)
    twice = rw pow-suc (omega arith)

pub two-pow-add : (j k : ℕ) → 2 ^ (j + k) ≡ 2 ^ j * 2 ^ k
two-pow-add zero k = ap (λ m. 2 ^ m) {x = 0 + k} {y = k} (omega arith) ∙ omega arith
two-pow-add (suc j) k =
    ap (λ m. 2 ^ m) {x = suc j + k} {y = suc (j + k)} (omega arith)
    ∙ omega (
      arith,
      pow-suc 2 (j + k),
      pow-suc 2 j,
      two-pow-add j k,
      ap (λ (t : ℕ). t * 2 ^ k) (pow-suc 2 j),
    )

-- A power of two divides each greater one.
pub two-pow_dvd : (k w : ℕ) → 2 ^ k ≤ 2 ^ w → (q : ℕ) × (2 ^ w ≡ 2 ^ k * q)
two-pow_dvd k w h = elim (dec_le k w) [
  | yes le ↦ (
    2 ^ (w - k),
    ap (λ m. 2 ^ m) {x = w} {y = w - k + k} (omega arith) ∙ two-pow-add (w - k) k ∙ omega arith,
  )
  | no gt ↦ absurd (
      omega (
        arith,
        pow-suc 2 w,
        two-pow_pos w,
        pow-le-pow_right {n = 2} (omega arith) {i = suc w} {j = k} (omega arith),
      ))
]

bit_or_comm_fuel : (m a b : ℕ) → a ≤ m → b ≤ m → bit_or a b ≡ bit_or b a
bit_or_comm_fuel zero a b ha hb =
    ap₂ bit_or {x = a} {y = b} {u = b} {v = a} (omega arith) (omega arith)
bit_or_comm_fuel (suc m) a b ha hb = omega (
  arith,
  bit_or_halves a b,
  bit_or_halves b a,
  bit_or_comm_fuel m (a / 2) (b / 2) (omega arith) (omega arith),
)

pub bit_or_comm : (a b : ℕ) → bit_or a b ≡ bit_or b a
bit_or_comm a b = bit_or_comm_fuel (a + b) a b (omega arith) (omega arith)
