-- ===== src/Ring/Dynamic/Pow2.antt =====
-- `NextPow2` of kv8scope/SpscDynamicRing.h: the smearing of the highest bit.
use native.Mathlib.Nat.{
  pow-suc, pow-le-pow_right, div-add-mod, mod-lt, div-lt_iff_lt-mul, div-le_self, mod-eq_of_lt,
}
use Prim.Native.Nat.{bit_or}
use kv8_metrics.Prelude.{
  ℕ, zero, suc, ◌+◌, ◌-◌, ◌*◌, ◌/◌, ◌%◌, ◌^◌, ◌≤◌, ◌<◌, ◌≡◌, refl, ap, ◌∙◌, arith, dec_lt,
}
use kv8_metrics.Prelude.Bits.{two-pow_pos, two-pow-add}
use kv8_metrics.Prelude.Disjunction.{le-bit_or_left, bit_or-lt, bit_or_high}
use kv8_metrics.Ring.Dynamic.{smear, smear_all, next_pow2}

-- `x` has `w` digits, and the first `m` of them are ones.
record Ones (w m x : ℕ) : Type 0 where
  digits : x < 2 ^ w
  ones : 2 ^ w ≤ x + 2 ^ (w - m)

-- Halving the exponent may go below zero, where the power stays 1.
pow-cut : (j m : ℕ) → 2 ^ j ≤ 2 ^ m * 2 ^ (j - m)
pow-cut j m = omega (
  arith,
  pow-le-pow_right {n = 2} (omega arith) {i = j} {j = m + (j - m)} (omega arith),
  two-pow-add m (j - m),
)

times-le : (c a b : ℕ) → a ≤ b → c * a ≤ c * b
times-le c a b h = grind arith

-- The digits that the shift brings down.
shifted_ones : (j m x : ℕ) → 2 ^ m * 2 ^ j ≤ x + 2 ^ j → 2 ^ j ≤ x / 2 ^ m + 2 ^ (j - m)
shifted_ones j m x h = elim (dec_lt (x / 2 ^ m + 2 ^ (j - m)) (2 ^ j)) [
  | no p ↦ omega arith
  | yes p ↦ absurd (
      omega (
        arith,
        times-le (2 ^ m) (x / 2 ^ m + 2 ^ (j - m) + 1) (2 ^ j) (omega arith),
        pow-cut j m,
        div-add-mod x (2 ^ m),
        mod-lt x {m = 2 ^ m} (two-pow_pos m),
      ))
]

shift-lt : (j m x : ℕ) → x < 2 ^ m * 2 ^ j → x / 2 ^ m < 2 ^ j
shift-lt j m x h =
    (div-lt_iff_lt-mul {k = 2 ^ m} {x = x} {y = 2 ^ j} (two-pow_pos m)).1 (omega arith)

-- One smearing step doubles the number of leading ones.
smear_within :
    (j m x : ℕ)
    → x < 2 ^ m * 2 ^ j
    → 2 ^ m * 2 ^ j ≤ x + 2 ^ j
    → 2 ^ m * 2 ^ j ≤ bit_or x (x / 2 ^ m) + 2 ^ (j - m)
smear_within j m x h ones = omega (
  arith,
  bit_or_high j (2 ^ m - 1) lo (x / 2 ^ m) (omega arith) (shift-lt j m x h),
  ap (λ t. bit_or t (x / 2 ^ m)) {x = (2 ^ m - 1) * 2 ^ j + lo} {y = x} (omega (arith, high)),
  high,
  shifted_ones j m x ones,
)
  where
    lo : ℕ
    lo = x + 2 ^ j - 2 ^ m * 2 ^ j

    high : (2 ^ m - 1) * 2 ^ j + 2 ^ j ≡ 2 ^ m * 2 ^ j
    high = omega (
      arith,
      two-pow_pos m,
      ap (λ (t : ℕ). t * 2 ^ j) {x = 2 ^ m - 1 + 1} {y = 2 ^ m} (omega (arith, two-pow_pos m)),
    )

smear-Ones : (w m x : ℕ) → Ones w m x → Ones w (m + m) (smear m x)
unfolding smear
smear-Ones w m x o = elim (dec_lt m w) [
  | yes p ↦
      let whole : 2 ^ w ≡ 2 ^ m * 2 ^ (w - m) =
        ap (λ t. 2 ^ t) {x = w} {y = m + (w - m)} (omega arith) ∙ two-pow-add m (w - m) in
      record {
        digits =
            bit_or-lt w x (x / 2 ^ m) o.digits (omega (arith, o.digits, div-le_self x (2 ^ m)));
        ones = omega (
          arith,
          whole,
          ap (λ t. 2 ^ t) {x = w - (m + m)} {y = w - m - m} (omega arith),
          smear_within (w - m) m x (omega (arith, whole, o.digits)) (omega (arith, whole, o.ones)),
        );
      }
  | no p ↦ record {
    digits = bit_or-lt w x (x / 2 ^ m) o.digits (omega (arith, o.digits, div-le_self x (2 ^ m)));
    ones = omega (
      arith,
      o.ones,
      le-bit_or_left x (x / 2 ^ m),
      ap (λ t. 2 ^ t) {x = w - (m + m)} {y = w - m} (omega arith),
    );
  }
]

-- The number of digits.
width : (b x : ℕ) → x < 2 ^ b → (w : ℕ) × (w ≤ b) × Ones w 1 x
width zero x h = (0, omega arith, record { digits = h; ones = omega arith })
width (suc b) x h = elim (dec_lt x (2 ^ b)) [
  | yes p ↦ let (w, le, o) = width b x p in (w, omega arith, o)
  | no p ↦ (
    suc b,
    omega arith,
    record {
      digits = h;
      ones = omega (arith, pow-suc 2 b, ap (λ t. 2 ^ t) {x = suc b - 1} {y = b} (omega arith));
    },
  )
]

-- Six steps fill every digit of a 64-bit word.
smeared : (w x : ℕ) → w ≤ 64 → Ones w 1 x → smear_all x + 1 ≡ 2 ^ w
unfolding smear_all
smeared w x h o =
    let last = smear-Ones w 32 _ (
      smear-Ones w 16 _
        (smear-Ones w 8 _ (smear-Ones w 4 _ (smear-Ones w 2 _ (smear-Ones w 1 x o))))) in
    omega (arith, last.digits, last.ones, ap (λ t. 2 ^ t) {x = w - 64} {y = 0} (omega arith))

pub two-pow_mono : (i j : ℕ) → i ≤ j → 2 ^ i ≤ 2 ^ j
two-pow_mono i j h = pow-le-pow_right {n = 2} (omega arith) {i = i} {j = j} h

-- No smaller power of two will do.
least_width : (w x m : ℕ) → Ones w 1 x → x < 2 ^ m → 2 ^ w ≤ 2 ^ m
least_width zero x m o h = omega (arith, two-pow_pos m)
least_width (suc w) x m o h = elim (dec_lt m (suc w)) [
  | yes p ↦ absurd (
      omega (
        arith,
        two-pow_mono m w (omega arith),
        o.ones,
        pow-suc 2 w,
        ap (λ t. 2 ^ t) {x = suc w - 1} {y = w} (omega arith),
      ))
  | no p ↦ two-pow_mono (suc w) m (omega arith)
]

next_pow2-zero : next_pow2 0 ≡ 2 ^ 0
unfolding next_pow2
next_pow2-zero = refl

next_pow2-suc : (v : ℕ) → next_pow2 (suc v) ≡ (smear_all v + 1) % 2 ^ 64
unfolding next_pow2
next_pow2-suc v = ground (arith, ap smear_all {x = suc v - 1} {y = v} (omega arith))

-- For a request of at most 2 ^ 63, `NextPow2` returns the least power of two that is not below it.
pub next_pow2_lem :
    (v : ℕ)
    → v ≤ 2 ^ 63
    → (k : ℕ) × (next_pow2 v ≡ 2 ^ k)
      × (k ≤ 63)
      × (v ≤ 2 ^ k)
      × ((m : ℕ) → v ≤ 2 ^ m → 2 ^ k ≤ 2 ^ m)
next_pow2_lem zero h = (0, next_pow2-zero, omega arith, omega arith, λ m _. two-pow_pos m)
next_pow2_lem (suc v) h =
    let (w, le, o) = width 63 v (omega arith) in
    let less : 2 ^ w ≤ 2 ^ 63 = two-pow_mono w 63 le in
    let filled = smeared w v (omega arith) o in
    (
      w,
      next_pow2-suc v
          ∙ ap (λ t. t % 2 ^ 64) filled
          ∙ mod-eq_of_lt {n = 2 ^ w} {m = 2 ^ 64} (omega arith),
      le,
      omega (arith, o.digits),
      λ m fits. least_width w v m o fits,
    )

-- Above 2 ^ 63 it wraps to 0.
pub next_pow2_overflow : (v : ℕ) → 2 ^ 63 < v → v ≤ 2 ^ 64 → next_pow2 v ≡ 0
next_pow2_overflow zero lo hi = absurd (omega arith)
next_pow2_overflow (suc v) lo hi =
    let (w, le, o) = width 64 v (omega arith) in
    let filled = smeared w v le o in
    elim (dec_lt w 64) [
      | yes p ↦ absurd (omega (arith, two-pow_mono w 63 (omega arith), o.digits))
      | no p ↦
          next_pow2-suc v
          ∙ ap (λ t. t % 2 ^ 64) (filled ∙ ap (λ t. 2 ^ t) {x = w} {y = 64} (omega arith))
    ]
