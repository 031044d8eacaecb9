-- ===== src/Prelude/Bytes.antt =====
-- Memory as lists of bytes: little-endian integers of a fixed width, and reading a packed struct
-- field by field, as `memcpy` into a struct does on the machines that the program supports.
use Prim.Native.Nat.{ℕ, zero, suc, ◌+◌, ◌*◌, ◌/◌, ◌%◌, ◌^◌, ◌<◌}
use Prim.Native.Char.{code}
use Prim.Native.String.{String}
use mathlib.Core.Path.{◌≡◌, refl, sym, ap, ◌∙◌}
use mathlib.Core.Logic.{◌≢◌}
use mathlib.Core.List.{List, [], ◌∷◌, ◌++◌, append-nil}
use native.Mathlib.Nat.{pow-suc}
use native.Mathlib.Omega.{arith}
use kv8_metrics.Prelude.Lists.{length, take, drop}

abbrev pub Bytes : Type 0
Bytes = List ℕ

-- The bytes of an ASCII literal of the source.
abbrev pub codes : String → Bytes
codes String.[] = []
codes (String.◌∷◌ c s) = code c ∷ codes s

-- The `w` bytes of an unsigned integer, lowest first.
unfoldable pub le : ℕ → ℕ → Bytes
le zero v = []
le (suc w) v = (v % 256) ∷ le w (v / 256)

unfoldable pub un_le : Bytes → ℕ
un_le [] = 0
un_le (b ∷ bs) = b + 256 * un_le bs

-- The integer in the first `w` bytes, and what stands behind them.
unfoldable pub field : ℕ → Bytes → ℕ
unfolding un_le
field w bs = un_le (take w bs)

unfoldable pub skip : ℕ → Bytes → Bytes
skip w bs = drop w bs

pub length-le : (w v : ℕ) → length (le w v) ≡ w
unfolding le
length-le zero v = refl
length-le (suc w) v = ap suc (length-le w (v / 256))

un_le-le : (w v : ℕ) → v < 256 ^ w → un_le (le w v) ≡ v
unfolding le un_le
un_le-le zero v h = omega arith
un_le-le (suc w) v h = omega (arith, pow-suc 256 w, un_le-le w (v / 256))

pub take-length {ℓ} : {A : Type ℓ} (n : ℕ) (xs ys : List A) → length xs ≡ n → take n (xs ++ ys) ≡ xs
take-length zero [] ys e = refl
take-length zero (x ∷ xs) ys e = absurd (omega arith)
take-length (suc n) [] ys e = absurd (omega arith)
take-length (suc n) (x ∷ xs) ys e = ap (λ zs. x ∷ zs) (take-length n xs ys (omega arith))

pub drop-length {ℓ} : {A : Type ℓ} (n : ℕ) (xs ys : List A) → length xs ≡ n → drop n (xs ++ ys) ≡ ys
drop-length zero [] ys e = refl
drop-length zero (x ∷ xs) ys e = absurd (omega arith)
drop-length (suc n) [] ys e = absurd (omega arith)
drop-length (suc n) (x ∷ xs) ys e = drop-length n xs ys (omega arith)

-- Reading back a field that was written, whatever follows.
pub field-le : (w v : ℕ) (rest : Bytes) → v < 256 ^ w → field w (le w v ++ rest) ≡ v
unfolding field
field-le w v rest h = ap un_le (take-length w (le w v) rest (length-le w v)) ∙ un_le-le w v h

pub skip-le : (w v : ℕ) (rest : Bytes) → skip w (le w v ++ rest) ≡ rest
unfolding skip
skip-le w v rest = drop-length w (le w v) rest (length-le w v)

-- A field of `w` bytes is below 256 ^ w, as long as what is read are bytes.
abbrev pub AllBytes : Bytes → Type 0
AllBytes [] = Unit {0}
AllBytes (b ∷ bs) = (b < 256) × AllBytes bs

un_le-lt : (w : ℕ) (bs : Bytes) → AllBytes bs → un_le (take w bs) < 256 ^ w
unfolding un_le
un_le-lt zero bs h = omega arith
un_le-lt (suc w) [] h = omega (arith, pow-suc 256 w, un_le-lt w [] h)
un_le-lt (suc w) (b ∷ bs) h = omega (arith, pow-suc 256 w, un_le-lt w bs h.1)

pub field-lt : (w : ℕ) (bs : Bytes) → AllBytes bs → field w bs < 256 ^ w
unfolding field
field-lt w bs h = un_le-lt w bs h

-- Bytes are determined by the integer that they stand for.
le-un_le : (bs : Bytes) → AllBytes bs → le (length bs) (un_le bs) ≡ bs
unfolding le un_le
le-un_le [] h = refl
le-un_le (b ∷ bs) h =
    ap (λ c. c ∷ le (length bs) ((b + 256 * un_le bs) / 256)) {x = (b + 256 * un_le bs) % 256}
      {y = b} (omega (arith, h.0))
    ∙ ap (λ v. b ∷ le (length bs) v) {x = (b + 256 * un_le bs) / 256} {y = un_le bs}
        (omega (arith, h.0))
    ∙ ap (λ cs. b ∷ cs) (le-un_le bs h.1)

pub take-AllBytes : (n : ℕ) (bs : Bytes) → AllBytes bs → AllBytes (take n bs)
take-AllBytes zero bs h = tt
take-AllBytes (suc n) [] h = tt
take-AllBytes (suc n) (b ∷ bs) h = (h.0, take-AllBytes n bs h.1)

pub drop-AllBytes : (n : ℕ) (bs : Bytes) → AllBytes bs → AllBytes (drop n bs)
drop-AllBytes zero bs h = h
drop-AllBytes (suc n) [] h = tt
drop-AllBytes (suc n) (b ∷ bs) h = drop-AllBytes n bs h.1

-- Writing back what was read from exactly `w` bytes.
pub le-field : (w : ℕ) (bs : Bytes) → AllBytes bs → length bs ≡ w → le w (field w bs) ≡ bs
unfolding field
le-field w bs h e =
    ap (λ xs. le w (un_le xs)) (sym (ap (take w) (append-nil bs)) ∙ take-length w bs [] e)
    ∙ ap (λ k. le k (un_le bs)) (sym e)
    ∙ le-un_le bs h

-- The character `m` does not occur.
abbrev pub Lacks : ℕ → Bytes → Type 0
Lacks m [] = Unit {0}
Lacks m (c ∷ s) = (c ≢ m) × Lacks m s

pub append-Lacks : (m : ℕ) (s t : Bytes) → Lacks m s → Lacks m t → Lacks m (s ++ t)
append-Lacks m [] t hs ht = ht
append-Lacks m (c ∷ s) t hs ht = (hs.0, append-Lacks m s t hs.1 ht)
