-- ===== src/Ring/Dynamic/Refine.antt =====
-- As long as fewer than 2 ^ 64 items have gone through, kv8scope/SpscDynamicRing.h is a queue of
-- `Capacity()` items, and `PopBatch` takes as many of the oldest ones as are there.
use native.Mathlib.Nat.{mod-eq_of_lt}
use Prim.Native.Nat.{bit_and}
use kv8_metrics.Prelude.{
  ℕ, zero, suc, ◌+◌, ◌-◌, ◌%◌, ◌^◌, ◌≤◌, ◌<◌, ◌≡◌, refl, sym, ap, ap₂, ◌∙◌, min, List, [], ◌∷◌,
  ◌++◌, length, get_or, set, take, drop, length-set, dec_lt, length-replicate, replicate, arith,
}
use kv8_metrics.Prelude.Bits.{bit_and_mask, two-pow_pos}
use kv8_metrics.Ring.Window.{window, length-window, window-set, take-window, drop-window}
use kv8_metrics.Ring.Queue
use kv8_metrics.Ring.Dynamic.{
  Ring, next_pow2, distance, construct, push, pop, batch, pop_batch, size, capacity,
}
use kv8_metrics.Ring.Dynamic.Pow2.{next_pow2_lem, two-pow_mono}

pub record IsValid {A : Type 0} (r : Ring A) : Type 0 where
  pub exponent : ℕ
  pub power : r.cap ≡ 2 ^ exponent
  pub small : r.cap ≤ 2 ^ 63
  pub masks : r.mask ≡ r.cap - 1
  pub ordered : r.tail ≤ r.head
  pub bounded : r.head - r.tail ≤ r.cap
  pub counted : r.head < 2 ^ 64
  pub slots : length r.items ≡ r.cap

module _ {A : Type 0} (d : A) where
  abbrev pub contents : Ring A → List A
  contents r = window d r.items r.cap r.tail (r.head - r.tail)

  pub length-contents : (r : Ring A) → length (contents r) ≡ r.head - r.tail
  length-contents r = length-window d r.items r.cap r.tail (r.head - r.tail)

slot : {A : Type 0} {r : Ring A} (i : ℕ) → IsValid r → bit_and i r.mask ≡ i % r.cap
slot {r} i v =
    ap (bit_and i) (v.masks ∙ ap (λ m. m - 1) v.power)
    ∙ bit_and_mask i v.exponent
    ∙ ap (λ m. i % m) (sym v.power)

distance_lem : {A : Type 0} {r : Ring A} → IsValid r → distance r.head r.tail ≡ r.head - r.tail
unfolding distance
distance_lem v = omega arith

cap_pos : {A : Type 0} {r : Ring A} → IsValid r → 0 < r.cap
cap_pos v = omega (arith, v.power, two-pow_pos v.exponent)

empty_window : {A : Type 0} (d : A) (r : Ring A) → r.head ≤ r.tail → contents d r ≡ []
empty_window d r h = ap (window d r.items r.cap r.tail) {x = r.head - r.tail} {y = 0} (omega arith)

module _ {A : Type 0} (d : A) where
  -- For a request of at most 2 ^ 63, the constructor makes a valid and empty ring with at least
  -- that capacity.
  pub construct-IsValid :
      (requested : ℕ)
      → requested ≤ 2 ^ 63
      → IsValid (construct d requested)
        × (contents d (construct d requested) ≡ [])
        × (requested ≤ capacity (construct d requested))
  unfolding construct capacity
  construct-IsValid requested h =
      let (k, e, small, above, least) = next_pow2_lem requested h in
      (
        record {
          exponent = k;
          power = e;
          small = omega (arith, e, two-pow_mono k 63 small);
          masks = omega (arith, e, two-pow_mono k 63 small, two-pow_pos k);
          ordered = omega arith;
          bounded = omega arith;
          counted = omega arith;
          slots = length-replicate (next_pow2 requested) d;
        },
        ap (window d (replicate (next_pow2 requested) d) (next_pow2 requested) 0) {x = 0 - 0}
            {y = 0} (omega arith),
        omega (arith, e, above),
      )

  pub push-IsValid : {r : Ring A} (x : A) → IsValid r → r.head + 1 < 2 ^ 64 → IsValid (push d r x).0
  unfolding push
  push-IsValid {r} x v room =
      ground (arith, distance_lem v, length-set r.items (bit_and r.head r.mask) x)

  pub pop-IsValid : {r : Ring A} → IsValid r → IsValid (pop d r).0
  unfolding pop
  pop-IsValid v = ground arith

  pub pop_batch-IsValid : {r : Ring A} (m : ℕ) → IsValid r → IsValid (pop_batch d r m).0
  unfolding pop_batch
  pop_batch-IsValid m v = ground (arith, distance_lem v)

  contents_pushed :
      {r : Ring A} (x : A)
      → IsValid r
      → r.head - r.tail < r.cap
      → contents d (record r { items = set r.items (bit_and r.head r.mask) x; head = r.head + 1 })
        ≡ contents d r ++ x ∷ []
  contents_pushed {r} x v room =
      ap (λ i. window d (set r.items i x) r.cap r.tail (r.head + 1 - r.tail))
        (slot r.head v
          ∙ ap (λ i. i % r.cap) {x = r.head} {y = r.tail + (r.head - r.tail)} (omega arith))
      ∙ ap (window d _ r.cap r.tail) {x = r.head + 1 - r.tail} {y = suc (r.head - r.tail)}
          (omega arith)
      ∙ window-set d r.items r.cap r.tail (r.head - r.tail) x v.slots room

  contents_popped :
      {r : Ring A}
      → IsValid r
      → r.tail < r.head
      → contents d r
        ≡ get_or r.items (bit_and r.tail r.mask) d ∷ contents d (record r { tail = r.tail + 1 })
  contents_popped {r} v some_stored =
      ap (window d r.items r.cap r.tail) {x = r.head - r.tail} {y = suc (r.head - (r.tail + 1))}
        (omega arith)
      ∙ ap (λ i. get_or r.items i d ∷ contents d (record r { tail = r.tail + 1 }))
          (sym (slot r.tail v))

  -- On a valid ring whose write index does not reach 2 ^ 64, `Push` accepts an item exactly when
  -- fewer than `Capacity()` are stored, and then appends it, as the bounded queue does.
  pub dynamic_push_refines :
      {r : Ring A} (x : A)
      → IsValid r
      → r.head + 1 < 2 ^ 64
      → let (r', done) = push d r x in
        (contents d r', done) ≡ Queue.push (capacity r) (contents d r) x
  unfolding push capacity Queue.push
  dynamic_push_refines {r} x v room =
      ground
        (arith, distance_lem v, length-contents d r, mod-eq_of_lt room, contents_pushed {r = r} x v)

  -- On a valid ring, `Pop` returns the oldest item and removes it, or false when the ring is
  -- empty, as the queue does.
  pub dynamic_pop_refines :
      {r : Ring A}
      → IsValid r
      → let (r', out) = pop d r in (contents d r', out) ≡ Queue.pop (contents d r)
  unfolding pop Queue.pop
  dynamic_pop_refines {r} v = ground (
    arith,
    length-contents d r,
    mod-eq_of_lt {n = r.tail + 1} {m = 2 ^ 64},
    contents_popped {r = r} v,
    empty_window d r,
  )

  batch-window :
      {r : Ring A} (i n : ℕ)
      → IsValid r
      → r.tail + i + n ≤ r.head
      → batch d r i n ≡ window d r.items r.cap (r.tail + i) n
  unfolding batch
  batch-window i zero v h = refl
  batch-window {r} i (suc n) v h =
      ap₂ (λ j xs. get_or r.items j d ∷ xs)
        (slot ((r.tail + i) % 2 ^ 64) v
          ∙ ap (λ j. j % r.cap)
              (mod-eq_of_lt {n = r.tail + i} {m = 2 ^ 64} (omega (arith, v.counted))))
        (batch-window (i + 1) n v (omega arith)
          ∙ ap (λ j. window d r.items r.cap j n) {x = r.tail + (i + 1)} {y = r.tail + i + 1}
              (omega arith))

  batch-contents :
      {r : Ring A} (n : ℕ)
      → IsValid r
      → n ≤ r.head - r.tail
      → batch d r 0 n ≡ window d r.items r.cap r.tail n
  batch-contents {r} n v h =
      batch-window 0 n v (omega (arith, v.ordered))
      ∙ ap (λ j. window d r.items r.cap j n) {x = r.tail + 0} {y = r.tail} (omega arith)

  -- What `PopBatch` computes, with `n` items taken.
  pop_batch_lem :
      {r : Ring A} (m n : ℕ)
      → IsValid r
      → n ≡ min m (r.head - r.tail)
      → pop_batch d r m ≡ (record r { tail = r.tail + n }, window d r.items r.cap r.tail n)
  unfolding pop_batch
  pop_batch_lem {r} m n v e = ground (
    arith,
    distance_lem v,
    batch-contents {r = r} n v,
    mod-eq_of_lt {n = r.tail + n} {m = 2 ^ 64},
    batch_none n,
  )
    where
      batch_none : (k : ℕ) → k ≡ 0 → window d r.items r.cap r.tail k ≡ []
      batch_none k z = ap (window d r.items r.cap r.tail) z

  -- On a valid ring, `PopBatch` hands out the oldest items, `maxCount` of them or as many as
  -- there are, in order, and leaves the others.
  pub dynamic_pop_batch_refines :
      {r : Ring A} (m : ℕ)
      → IsValid r
      → let (r', out) = pop_batch d r m in
        (out ≡ take m (contents d r)) × (contents d r' ≡ drop m (contents d r))
  unfolding pop_batch
  dynamic_pop_batch_refines {r} m v =
      let n = min m (r.head - r.tail) in
      let e = pop_batch_lem m n v refl in
      (
        ap (λ p. p.1) e ∙ sym (take-window d r.items r.cap m r.tail (r.head - r.tail)),
        ap (λ p. contents d p.0) e
            ∙ rest
            ∙ sym (drop-window d r.items r.cap m r.tail (r.head - r.tail)),
      )
    where
      -- Past the end of the items both windows are empty.
      rest :
          window d r.items r.cap
            (r.tail + min m (r.head - r.tail))
            (r.head - (r.tail + min m (r.head - r.tail)))
          ≡ window d r.items r.cap (r.tail + m) (r.head - r.tail - m)
      rest = elim (dec_lt (r.head - r.tail) m) [
        | yes p ↦
            ap (window d r.items r.cap (r.tail + min m (r.head - r.tail)))
              {x = r.head - (r.tail + min m (r.head - r.tail))} {y = 0} (omega (arith, v.ordered))
            ∙ ap (window d r.items r.cap (r.tail + m)) {x = 0} {y = r.head - r.tail - m}
                (omega arith)
        | no p ↦
            ap₂ (window d r.items r.cap) {x = r.tail + min m (r.head - r.tail)} {y = r.tail + m}
              (omega arith) (omega arith)
      ]

  -- `Size` is the number of items stored.
  pub dynamic_size_refines : {r : Ring A} → IsValid r → size r ≡ length (contents d r)
  unfolding size
  dynamic_size_refines {r} v = ground (arith, length-contents d r)
