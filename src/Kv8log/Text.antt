-- ===== src/Kv8log/Text.antt =====
-- The texts that libs/kv8log/lib/kv8log_impl.cpp builds and takes apart: topic names, hexadecimal
-- numbers, the basename of a path and the name in a schema.
use kv8_metrics.Prelude.{
  ℕ, zero, suc, ◌+◌, ◌*◌, ◌/◌, ◌%◌, ◌^◌, ◌<◌, ◌≡◌, ap, ◌∙◌, Option, none, some, [], ◌∷◌, map, ◌==◌,
  ◌||◌, ltb, if◌then◌else◌, arith,
}
use native.Mathlib.Nat.{pow-suc}
use Prim.Native.Nat.{bit_and, bit_or}
use kv8_metrics.Prelude.{ap₂}
use kv8_metrics.Prelude.Bits.{bit_and_mask, bit_or_join, bit_or_comm}
use kv8_metrics.Prelude.Bytes.{Bytes, le}

-- One digit of `%X`.
unfoldable pub hex_digit : ℕ → ℕ
hex_digit d = if ltb d 10 then 48 + d else 55 + d

-- The last `w` digits of `v` in front of `rest`.
unfoldable pub hex_before : ℕ → ℕ → Bytes → Bytes
unfolding hex_digit
hex_before zero v rest = rest
hex_before (suc w) v rest = hex_before w (v / 16) (hex_digit (v % 16) ∷ rest)

-- `%04X` of a 16-bit and `%08X` of a 32-bit number.
unfoldable pub hex4 : ℕ → Bytes
unfolding hex_before
hex4 v = hex_before 4 v []

unfoldable pub hex8 : ℕ → Bytes
unfolding hex_before
hex8 v = hex_before 8 v []

-- `Kv8SanitizeChannel` of libs/libkv8/include/kv8/Kv8Types.h, and the same loop in `kv8log_open`.
unfoldable pub sanitize_channel : Bytes → Bytes
sanitize_channel s = map (λ c. if c == b'/' then b'.' else c) s

-- What stands behind the first '.', or the whole text.
unfoldable pub after_dot : Bytes → Option Bytes
after_dot [] = none
after_dot (c ∷ s) = if c == b'.' then some s else after_dot s

unfoldable pub session_of : Bytes → Bytes
unfolding after_dot
session_of full = elim (after_dot full) [ none ↦ full | some s ↦ s ]

-- `TrimToBasename`: what stands behind the last '/' or '\'. `last` is the start of the result so far.
unfoldable pub basename_from : Bytes → Bytes → Bytes
basename_from last [] = last
basename_from last (c ∷ s) = basename_from (if c == b'/' || c == 92 then s else last) s

unfoldable pub trim_to_basename : Bytes → Bytes
unfolding basename_from
trim_to_basename p = basename_from p p

-- The message key `keyBE`, as it lies in memory.
unfoldable pub key_be : ℕ → Bytes
key_be id = le 2 (bit_or (bit_and id 0xFF * 2 ^ 8) (bit_and (id / 2 ^ 8) 0xFF) % 2 ^ 16)

hex_digit-injective : (a b : ℕ) → a < 16 → b < 16 → hex_digit a ≡ hex_digit b → a ≡ b
unfolding hex_digit
hex_digit-injective a b ha hb e = ground arith

pub cons_injective : {x y : ℕ} {xs ys : Bytes} → x ∷ xs ≡ y ∷ ys → (x ≡ y) × (xs ≡ ys)
cons_injective e = (ap (λ l. head_or l) e, ap tail_of e)
  where
    head_or : Bytes → ℕ
    head_or [] = 0
    head_or (x ∷ xs) = x

    tail_of : Bytes → Bytes
    tail_of [] = []
    tail_of (x ∷ xs) = xs

pub hex_before-injective :
    (w a b : ℕ) (xs ys : Bytes)
    → a < 16 ^ w
    → b < 16 ^ w
    → hex_before w a xs ≡ hex_before w b ys
    → (a ≡ b) × (xs ≡ ys)
unfolding hex_before
hex_before-injective zero a b xs ys ha hb e = (omega arith, e)
hex_before-injective (suc w) a b xs ys ha hb e =
    let (high, rest) =
      hex_before-injective w (a / 16) (b / 16) _ _ (omega (arith, pow-suc 16 w))
        (omega (arith, pow-suc 16 w)) e in
    let (digit, same) = cons_injective rest in
    (
      omega (arith, high, hex_digit-injective (a % 16) (b % 16) (omega arith) (omega arith) digit),
      same,
    )

-- Different ids print differently.
pub hex4-injective : (a b : ℕ) → a < 2 ^ 16 → b < 2 ^ 16 → hex4 a ≡ hex4 b → a ≡ b
unfolding hex4
hex4-injective a b ha hb e = (hex_before-injective 4 a b [] [] ha hb e).0

-- In memory the key is the id, high byte first.
pub key_be_lem : (id : ℕ) → id < 2 ^ 16 → key_be id ≡ (id / 256) ∷ (id % 256) ∷ []
unfolding key_be le
key_be_lem id h =
    ap (λ k. (k % 2 ^ 16 % 256) ∷ (k % 2 ^ 16 / 256 % 256) ∷ []) swapped
    ∙ ap₂ (λ a b. a ∷ b ∷ []) (omega arith) (omega arith)
  where
    swapped :
        bit_or (bit_and id 0xFF * 2 ^ 8) (bit_and (id / 2 ^ 8) 0xFF) ≡ id / 256 + id % 256 * 256
    swapped =
        ap₂ (λ a b. bit_or (a * 2 ^ 8) b) (bit_and_mask id 8) (bit_and_mask (id / 2 ^ 8) 8)
        ∙ bit_or_comm (id % 2 ^ 8 * 2 ^ 8) (id / 2 ^ 8 % 2 ^ 8)
        ∙ bit_or_join 8 (id / 2 ^ 8 % 2 ^ 8) (id % 2 ^ 8) (omega arith)
        ∙ omega arith
