-- ===== src/Ring/Fixed/Invariant.antt =====
-- Well-formed rings: N is a power of two below 2 ^ 64, both indices are slots, and the buffer has
-- N items.
use kv8_metrics.Prelude.{
  ℕ, zero, suc, ◌+◌, ◌-◌, ◌*◌, ◌%◌, ◌^◌, ◌≤◌, ◌<◌, ◌≡◌, ap, sym, dec_lt, ◌∙◌, length, length-set,
  length-replicate, arith,
}
use kv8_metrics.Prelude.Bits.{bit_and_mask, two-pow_dvd}
use native.Mathlib.Nat.{mod-lt, mod-eq_of_lt, mul-add-mod_self_left, mod-eq-sub-mod}
use Prim.Native.Nat.{bit_and}
use kv8_metrics.Ring.Fixed.{Ring, mask, next_index, fresh, push, pop, size_approx, clear}

pub record IsSize (n k : ℕ) : Type 0 where
  pub power : n ≡ 2 ^ k
  pub least : 2 ≤ n
  pub fits : n < 2 ^ 64

pub record IsValid {ℓ} {A : Type ℓ} (n : ℕ) (r : Ring A) : Type ℓ where
  pub head_in : r.head < n
  pub tail_in : r.tail < n
  pub slots : length r.buf ≡ n

-- Masking is the remainder by N.
bit_and-mask : (n k i : ℕ) → IsSize n k → bit_and i (mask n) ≡ i % n
unfolding mask
bit_and-mask n k i s =
    ap (λ m. bit_and i (m - 1)) s.power ∙ bit_and_mask i k ∙ ap (λ m. i % m) (omega arith)

pub next_index_lem : (n k i : ℕ) → IsSize n k → i < n → next_index n i ≡ (i + 1) % n
unfolding next_index
next_index_lem n k i s h = bit_and-mask n k ((i + 1) % 2 ^ 64) s ∙ ap (λ j. j % n) (omega arith)

pub next_index-lt : (n k i : ℕ) → IsSize n k → i < n → next_index n i < n
next_index-lt n k i s h =
    omega (arith, next_index_lem n k i s h, mod-lt (i + 1) {m = n} (omega arith))

-- The items stored.
abbrev pub count {ℓ} : {A : Type ℓ} → ℕ → Ring A → ℕ
count n r = (r.tail + n - r.head) % n

module _ {ℓ} {A : Type ℓ} (d : A) {n k : ℕ} (s : IsSize n k) where
  pub fresh-IsValid : IsValid n (fresh d n)
  unfolding fresh
  fresh-IsValid = record {
    head_in = omega arith;
    tail_in = omega arith;
    slots = length-replicate n d;
  }

  pub push-IsValid : {r : Ring A} (x : A) → IsValid n r → IsValid n (push d n r x).0
  unfolding push
  push-IsValid {r} x v =
      ground (arith, next_index-lt n k r.tail s v.tail_in, length-set r.buf r.tail x)

  pub pop-IsValid : {r : Ring A} → IsValid n r → IsValid n (pop d n r).0
  unfolding pop
  pop-IsValid {r} v = ground (arith, next_index-lt n k r.head s v.head_in)

one_multiple : (q n w h t : ℕ) → w ≡ n * q → 0 < w → h < n → t + w - h ≡ n * (q - 1) + (t + n - h)
one_multiple zero n w h t e p hh = absurd (omega arith)
one_multiple (suc q) n w h t e p hh =
    omega (arith, ap (λ m. n * m) {x = suc q - 1} {y = q} (omega arith))

-- Subtraction that wraps at 2 ^ 64 agrees with subtraction round the ring.
wrapped_difference :
    (n k h t : ℕ) → IsSize n k → h < n → t < n → (t + 2 ^ 64 - h) % 2 ^ 64 % n ≡ (t + n - h) % n
wrapped_difference n k h t s hh ht =
    let (q, whole) = two-pow_dvd k 64 (omega (arith, s.power, s.fits)) in
    let word : 2 ^ 64 ≡ n * q = whole ∙ ap (λ m. m * q) (sym s.power) in
    elim (dec_lt t h) [
      | yes below ↦
          ap (λ m. m % n) (mod-eq_of_lt {n = t + 2 ^ 64 - h} {m = 2 ^ 64} (omega arith))
          ∙ ap (λ m. m % n) {x = t + 2 ^ 64 - h} {y = n * (q - 1) + (t + n - h)}
              (one_multiple q n (2 ^ 64) h t word (omega arith) hh)
          ∙ mul-add-mod_self_left n (q - 1) (t + n - h)
      | no above ↦
          ap (λ m. m % n) {x = (t + 2 ^ 64 - h) % 2 ^ 64} {y = t - h} (omega arith)
          ∙ mod-eq_of_lt {n = t - h} {m = n} (omega arith)
          ∙ sym (
              mod-eq-sub-mod {n = t + n - h} {m = n} (omega arith)
              ∙ mod-eq_of_lt {n = t + n - h - n} {m = n} (omega arith)
              ∙ omega arith)
    ]

module _ {ℓ} {A : Type ℓ} {n k : ℕ} (s : IsSize n k) where
  pub clear-IsValid : {r : Ring A} → IsValid n r → IsValid n (clear n r)
  unfolding clear
  clear-IsValid v = record { head_in = omega arith; tail_in = omega arith; slots = v.slots }

  -- The unsigned difference of the indices, masked, is the number of items.
  pub size_approx-eq-count : {r : Ring A} → IsValid n r → size_approx n r ≡ count n r
  unfolding size_approx
  size_approx-eq-count {r} v =
      bit_and-mask n k ((r.tail + 2 ^ 64 - r.head) % 2 ^ 64) s
      ∙ wrapped_difference n k r.head r.tail s v.head_in v.tail_in
