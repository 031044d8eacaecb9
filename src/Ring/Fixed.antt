-- ===== src/Ring/Fixed.antt =====
-- kv8zoom/SpscFixedRing.h: the ring of compile-time capacity. `n` is the template argument N, `d`
-- the value-initialised item of `m_buf`. `Threads` has the same code as single atomic actions.
pub mod Invariant
pub mod Refine
pub mod Threads
mod Tests
use Prim.Native.Nat.{bit_and}
use kv8_metrics.Prelude.{
  ℕ, ◌+◌, ◌-◌, ◌%◌, ◌^◌, Bool, true, false, Option, none, some, List, get_or, set, replicate, ◌==◌,
  if◌then◌else◌,
}

-- The members m_head, m_tail and m_buf.
pub record Ring {ℓ} (A : Type ℓ) : Type ℓ where
  pub head : ℕ
  pub tail : ℕ
  pub buf : List A

-- `kMask`, and an index after `i` by `size_t` arithmetic.
unfoldable pub mask : ℕ → ℕ
mask n = n - 1

unfoldable pub next_index : ℕ → ℕ → ℕ
unfolding mask
next_index n i = bit_and ((i + 1) % 2 ^ 64) (mask n)

module _ {ℓ} {A : Type ℓ} (d : A) (n : ℕ) where
  pub fresh : Ring A
  fresh = record { head = 0; tail = 0; buf = replicate n d }

  pub push : Ring A → A → Ring A × Bool
  push r item =
      let next = next_index n r.tail in
      if next == r.head
      then (r, false)
      else (record r { buf = set r.buf r.tail item; tail = next }, true)

  -- What goes through `out` is `none` where the function returns false.
  pub pop : Ring A → Ring A × Option A
  pop r =
      if r.head == r.tail
      then (r, none)
      else (record r { head = next_index n r.head }, some (get_or r.buf r.head d))

module _ {ℓ} {A : Type ℓ} (n : ℕ) where
  pub size_approx : Ring A → ℕ
  unfolding mask
  size_approx r = bit_and ((r.tail + 2 ^ 64 - r.head) % 2 ^ 64) (mask n)

  pub empty : Ring A → Bool
  empty r = r.head == r.tail

  pub clear : Ring A → Ring A
  clear r = record r { head = 0; tail = 0 }

pub capacity : ℕ → ℕ
capacity n = n - 1
