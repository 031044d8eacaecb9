-- ===== src/Ring/Dynamic.antt =====
-- kv8scope/SpscDynamicRing.h: the ring whose capacity is rounded up to a power of two when it is
-- constructed, with indices that count the items ever pushed and popped (uint64_t).
pub mod Pow2
pub mod Refine
mod Tests
use Prim.Native.Nat.{bit_and, bit_or}
use kv8_metrics.Prelude.{
  ℕ, zero, suc, ◌+◌, ◌-◌, ◌/◌, ◌%◌, ◌^◌, Bool, true, false, Option, none, some, List, [], ◌∷◌,
  get_or, set, replicate, ◌==◌, ltb, leb, if◌then◌else◌,
}

-- `v |= v >> k`
unfoldable pub smear : ℕ → ℕ → ℕ
smear k v = bit_or v (v / 2 ^ k)

unfoldable pub smear_all : ℕ → ℕ
unfolding smear
smear_all v = smear 32 (smear 16 (smear 8 (smear 4 (smear 2 (smear 1 v)))))

-- `--v` runs at v ≠ 0 only.
unfoldable pub next_pow2 : ℕ → ℕ
next_pow2 v = if v == 0 then 1 else ((smear_all (v - 1) + 1) % 2 ^ 64)

-- The members m_head (writer), m_tail (reader), m_pData, m_capacity and m_mask.
pub record Ring {ℓ} (A : Type ℓ) : Type ℓ where
  pub head : ℕ
  pub tail : ℕ
  pub items : List A
  pub cap : ℕ
  pub mask : ℕ

-- `head - tail` as the machine computes it.
unfoldable pub distance : ℕ → ℕ → ℕ
distance head tail = (head + 2 ^ 64 - tail) % 2 ^ 64

module _ {ℓ} {A : Type ℓ} (d : A) where
  -- The allocation succeeds, as the constructor asserts. `d` is the item whose bytes are zero.
  pub construct : ℕ → Ring A
  construct requested =
      let cap = next_pow2 requested in
      record {
        head = 0;
        tail = 0;
        items = replicate cap d;
        cap = cap;
        mask = (cap + 2 ^ 64 - 1) % 2 ^ 64;
      }

  unfoldable pub push : Ring A → A → Ring A × Bool
  push r item = if leb r.cap (distance r.head r.tail) then (r, false) else (
    record r { items = set r.items (bit_and r.head r.mask) item; head = (r.head + 1) % 2 ^ 64 },
    true,
  )

  pub pop : Ring A → Ring A × Option A
  pop r = if leb r.head r.tail then (r, none) else (
    record r { tail = (r.tail + 1) % 2 ^ 64 },
    some (get_or r.items (bit_and r.tail r.mask) d),
  )

  -- The loop of `PopBatch`: `out[i]` for the `n` indices from `i` on.
  pub batch : Ring A → ℕ → ℕ → List A
  batch r i zero = []
  batch r i (suc n) = get_or r.items (bit_and ((r.tail + i) % 2 ^ 64) r.mask) d ∷ batch r (i + 1) n

  -- The list is what was written to `out`; its length is the function's result.
  pub pop_batch : Ring A → ℕ → Ring A × List A
  pop_batch r max_count =
      let avail = distance r.head r.tail in
      if avail == 0
      then (r, [])
      else let n = if ltb avail max_count then avail else max_count in
        (record r { tail = (r.tail + n) % 2 ^ 64 }, batch r 0 n)

module _ {ℓ} {A : Type ℓ} where
  pub size : Ring A → ℕ
  size r = if leb r.tail r.head then (r.head - r.tail) else 0

  pub capacity : Ring A → ℕ
  capacity r = r.cap
