-- ===== src/Udt/Laws/Lengths.antt =====
-- How much of its input each function of libs/libkv8/src/UdtSchemaParser.cpp consumes.
use kv8_metrics.Prelude.{
  ℕ, zero, suc, ◌≤◌, ◌<◌, ◌≡◌, refl, ap, Option, none, some, [], ◌∷◌, length, ◌⊎◌, ◌==◌,
  Option-cases, if◌then◌else◌, inl, inr, arith,
}
use kv8_metrics.Prelude.Bytes.{Bytes}
use kv8_metrics.Udt.Outcome.{Leaves, left, gave_up, Leaves-bind, Leaves-if, Leaves-from_option}
use kv8_metrics.Udt.Json.{
  is_quote, skip_ws, consume, until_quote, read_string, read_number, skip_nested, skip_plain,
  skip_value, skip_comma,
}

pub length-skip_ws : (s : Bytes) → length (skip_ws s) ≤ length s
unfolding skip_ws
length-skip_ws [] = omega arith
length-skip_ws (c ∷ s) = ground (arith, length-skip_ws s)

-- To split on the first byte of a computed text.
pub Bytes-cases : (s : Bytes) → (s ≡ []) ⊎ ((c : ℕ) × (rest : Bytes) × (s ≡ c ∷ rest))
Bytes-cases [] = inl refl
Bytes-cases (c ∷ rest) = inr (c, rest, refl)

pub length-skip_comma : (s : Bytes) → length (skip_comma s) ≤ length s
unfolding skip_comma
length-skip_comma s = elim (Bytes-cases (skip_ws s)) [
  | inl e ↦ rw (e, skip_comma) (omega arith)
  | inr (c, rest, e) ↦ ground (arith, length-skip_ws s)
]

length-skip_plain : (s : Bytes) → length (skip_plain s) ≤ length s
unfolding skip_plain
length-skip_plain [] = omega arith
length-skip_plain (c ∷ s) = ground (arith, length-skip_plain s)

-- The text and the quote behind it are taken from the input.
until_quote-shorter :
    (q : ℕ) (s text rest : Bytes) → until_quote q s ≡ some (text, rest) → length rest < length s
unfolding until_quote
until_quote-shorter q [] text rest e = cc
until_quote-shorter q (c ∷ s) text rest e = elim (Option-cases (until_quote q s)) [
  | inl missing ↦ ground arith
  | inr ((inner, behind), found) ↦ ground (arith, until_quote-shorter q s inner behind found)
]

pub consume-Leaves : (n want : ℕ) (s : Bytes) → length s ≤ suc n → Leaves n (consume want s)
unfolding consume
consume-Leaves n want s h = elim (Bytes-cases (skip_ws s)) [
  | inl e ↦ rw (e, consume) gave_up
  | inr (c, rest, e) ↦
      rw (e, consume) (Leaves-if (c == want) (left (ground (arith, length-skip_ws s))) gave_up)
]

pub read_string-Leaves : (n : ℕ) (s : Bytes) → length s ≤ suc n → Leaves n (read_string s)
unfolding read_string
read_string-Leaves n s h = elim (Bytes-cases (skip_ws s)) [
  | inl e ↦ rw (e, read_string) gave_up
  | inr (q, rest, e) ↦
      rw (e, read_string)
        (Leaves-if _
          (Leaves-from_option n _ (until_quote q rest) (λ text behind found.
            omega
              (arith, length-skip_ws s, ap length e, until_quote-shorter q rest text behind found)))
          gave_up)
]

-- What strtod is relied on for: a number that was read has taken a byte, or more.
abbrev pub Consumes : (Bytes → Option (ℕ × Bytes)) → Type 0
Consumes strtod = (s rest : Bytes) (v : ℕ) → strtod s ≡ some (v, rest) → length rest < length s

pub read_number-Leaves :
    (strtod : Bytes → Option (ℕ × Bytes)) (n : ℕ) (s : Bytes)
    → Consumes strtod
    → length s ≤ suc n
    → Leaves n (read_number strtod s)
unfolding read_number
read_number-Leaves strtod n s consumes h = elim (Bytes-cases (skip_ws s)) [
  | inl e ↦ rw (e, read_number) gave_up
  | inr (c, rest, e) ↦
      rw (e, read_number)
        (Leaves-from_option n _ (strtod (c ∷ rest)) (λ v behind found.
          omega (arith, length-skip_ws s, ap length e, consumes (c ∷ rest) behind v found)))
]

skip_nested-Leaves :
    (o c n : ℕ) (mode : Option ℕ) (depth : ℕ) (s : Bytes)
    → length s ≤ n
    → Leaves n (skip_nested o c mode depth s)
unfolding skip_nested
skip_nested-Leaves o c n none depth [] h = gave_up
skip_nested-Leaves o c n (some q) depth [] h = gave_up
skip_nested-Leaves o c n (some q) depth (d ∷ s) h =
    skip_nested-Leaves o c n (if d == q then none else some q) depth s (omega arith)
skip_nested-Leaves o c n none zero (d ∷ s) h =
    Leaves-if _ (skip_nested-Leaves o c n (some d) 0 s (omega arith)) (
      Leaves-if _ (skip_nested-Leaves o c n none 1 s (omega arith))
        (Leaves-if _ (left (omega arith)) (skip_nested-Leaves o c n none 0 s (omega arith))))
skip_nested-Leaves o c n none (suc less) (d ∷ s) h =
    Leaves-if _ (skip_nested-Leaves o c n (some d) (suc less) s (omega arith)) (
      Leaves-if _ (skip_nested-Leaves o c n none (suc (suc less)) s (omega arith)) (
        Leaves-if _ (skip_nested-Leaves o c n none less s (omega arith))
          (skip_nested-Leaves o c n none (suc less) s (omega arith))))

pub skip_value-Leaves : (n : ℕ) (s : Bytes) → length s ≤ n → Leaves n (skip_value s)
unfolding skip_value
skip_value-Leaves n s h = elim (Bytes-cases (skip_ws s)) [
  | inl e ↦ rw (e, skip_value) gave_up
  | inr (c, rest, e) ↦
      let whole : length (c ∷ rest) ≤ n = omega (arith, length-skip_ws s, ap length e) in
      let within : length rest ≤ n = omega (arith, whole) in
      rw (e, skip_value)
        (Leaves-if (is_quote c)
          (Leaves-bind _ (read_string-Leaves n (c ∷ rest) (omega (arith, whole)))
            (λ text behind short. left short))
          (Leaves-if (c == b'{') (skip_nested-Leaves _ _ n none 0 rest within) (
            Leaves-if (c == b'[') (skip_nested-Leaves _ _ n none 0 rest within) (
              left {s = skip_plain (c ∷ rest)}
                (omega (arith, whole, length-skip_plain (c ∷ rest)))))))
]
