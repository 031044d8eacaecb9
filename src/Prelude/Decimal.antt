-- ===== src/Prelude/Decimal.antt =====
-- The decimal digits of a number, as `%u` prints them, and reading them back, as `strtol` does.
use kv8_metrics.Prelude.Tests.{ltb, leb, if◌then◌else◌}
use Prim.Native.Nat.{ℕ, zero, suc, ◌+◌, ◌-◌, ◌*◌, ◌^◌, ◌/◌, ◌%◌, ◌≤◌, ◌<◌}
use mathlib.Core.Path.{◌≡◌, refl, sym, ap, ◌∙◌}
use mathlib.Core.Bool.{Bool, ◌&&◌}
use native.Mathlib.Decide.{dec_lt}
use native.Mathlib.Nat.{pow-suc}
use kv8_metrics.Prelude.Lists.{length}
use mathlib.Core.List.{[], ◌∷◌, ◌++◌}
use native.Mathlib.Omega.{arith}
use kv8_metrics.Prelude.Bytes.{Bytes}

-- The digits of `n` in front of `rest`. Fuel `n` is enough, since each step divides by ten.
unfoldable pub digits_before : ℕ → ℕ → Bytes → Bytes
digits_before zero n rest = (48 + n % 10) ∷ rest
digits_before (suc fuel) n rest =
    let more = digits_before fuel (n / 10) ((48 + n % 10) ∷ rest) in
    if ltb n 10 then (48 + n % 10) ∷ rest else more

unfoldable pub decimal : ℕ → Bytes
unfolding digits_before
decimal n = digits_before n n []

abbrev pub is_digit : ℕ → Bool
is_digit c = leb 48 c && leb c 57

-- The number in front of a text, going on from `acc`, and the rest of the text.
unfoldable pub read_digits : ℕ → Bytes → ℕ × Bytes
read_digits acc [] = (acc, [])
read_digits acc (c ∷ cs) =
    let more = read_digits (acc * 10 + (c - 48)) cs in if is_digit c then more else (acc, c ∷ cs)

pub read_digits-digit :
    (acc d : ℕ) (rest : Bytes)
    → d < 10
    → read_digits acc ((48 + d) ∷ rest) ≡ read_digits (acc * 10 + d) rest
unfolding read_digits
read_digits-digit acc d rest h =
    ground
      (arith, ap (λ n. read_digits (acc * 10 + n) rest) {x = 48 + d - 48} {y = d} (omega arith))

read_digits-before :
    (fuel n : ℕ) (rest : Bytes)
    → n ≤ fuel
    → read_digits 0 (digits_before fuel n rest) ≡ read_digits n rest
unfolding digits_before
read_digits-before zero n rest h =
    read_digits-digit 0 (n % 10) rest (omega arith)
    ∙ ap (λ k. read_digits k rest) {x = 0 * 10 + n % 10} {y = n} (omega arith)
read_digits-before (suc fuel) n rest h = elim (dec_lt n 10) [
  | yes p ↦ ground (
    arith,
    read_digits-digit 0 (n % 10) rest (omega arith),
    ap (λ k. read_digits k rest) {x = 0 * 10 + n % 10} {y = n} (omega arith),
  )
  | no p ↦ ground (
    arith,
    read_digits-before fuel (n / 10) ((48 + n % 10) ∷ rest) (omega arith),
    read_digits-digit (n / 10) (n % 10) rest (omega arith),
    ap (λ k. read_digits k rest) {x = n / 10 * 10 + n % 10} {y = n} (omega arith),
  )
]

digits_before-append :
    (fuel n : ℕ) (xs ys : Bytes) → digits_before fuel n (xs ++ ys) ≡ digits_before fuel n xs ++ ys
unfolding digits_before
digits_before-append zero n xs ys = refl
digits_before-append (suc fuel) n xs ys =
    ground (arith, digits_before-append fuel (n / 10) ((48 + n % 10) ∷ xs) ys)

-- A printed number is read back, with what follows it.
pub read_digits-decimal :
    (n : ℕ) (rest : Bytes) → read_digits 0 (decimal n ++ rest) ≡ read_digits n rest
unfolding decimal
read_digits-decimal n rest =
    ap (read_digits 0) (sym (digits_before-append n n [] rest))
    ∙ read_digits-before n n rest (omega arith)

-- What ignores one digit in front of a text ignores a printed number there.
module _ {A : Type 0} (f : Bytes → A)
    (skips : (d : ℕ) (rest : Bytes) → d < 10 → f ((48 + d) ∷ rest) ≡ f rest) where
  ignores-before : (fuel n : ℕ) (rest : Bytes) → f (digits_before fuel n rest) ≡ f rest
  unfolding digits_before
  ignores-before zero n rest = skips (n % 10) rest (omega arith)
  ignores-before (suc fuel) n rest = ground (
    arith,
    skips (n % 10) rest (omega arith),
    ignores-before fuel (n / 10) ((48 + n % 10) ∷ rest),
  )

  pub ignores-decimal : (n : ℕ) (rest : Bytes) → f (decimal n ++ rest) ≡ f rest
  unfolding decimal
  ignores-decimal n rest = ap f (sym (digits_before-append n n [] rest)) ∙ ignores-before n n rest

-- A printed number starts with a digit.
decimal_head_before :
    (fuel n : ℕ) (rest : Bytes)
    → (d : ℕ) × (more : Bytes) × (d < 10) × (digits_before fuel n rest ≡ (48 + d) ∷ more)
unfolding digits_before
decimal_head_before zero n rest = (n % 10, rest, omega arith, refl)
decimal_head_before (suc fuel) n rest = elim (dec_lt n 10) [
  | yes p ↦ (n % 10, rest, omega arith, ground arith)
  | no p ↦
      let (d, more, lt, e) = decimal_head_before fuel (n / 10) ((48 + n % 10) ∷ rest) in
      (d, more, lt, ground arith)
]

pub decimal_head : (n : ℕ) → (d : ℕ) × (more : Bytes) × (d < 10) × (decimal n ≡ (48 + d) ∷ more)
unfolding decimal
decimal_head n = decimal_head_before n n []

digit_count :
    (w fuel n : ℕ) (rest : Bytes)
    → n < 10 ^ suc w
    → length (digits_before fuel n rest) ≤ suc w + length rest
unfolding digits_before
digit_count w zero n rest h = omega arith
digit_count zero (suc fuel) n rest h = ground arith
digit_count (suc w) (suc fuel) n rest h =
    ground (
      arith,
      digit_count w fuel (n / 10) ((48 + n % 10) ∷ rest) (omega (arith, pow-suc 10 (suc w))),
    )

-- A number below 10 ^ w has at most w digits.
pub length-decimal : (w n : ℕ) → n < 10 ^ suc w → length (decimal n) ≤ suc w
unfolding decimal
length-decimal w n h = omega (arith, digit_count w n n [] h)
