-- ===== src/Ring/Fixed/Refine.antt =====
-- Called one at a time, the operations of a well-formed ring are those of a queue of N - 1 items.
use native.Mathlib.Nat.{mod-eq_of_lt, mod-lt, mod_self}
use kv8_metrics.Prelude.{
  ℕ, suc, ◌+◌, ◌-◌, ◌%◌, ◌≤◌, ◌<◌, ◌≡◌, ◌≢◌, ◌↔◌, sym, ap, ap₂, ◌∙◌, true, List, [], ◌∷◌, ◌++◌,
  length, get_or, set, arith,
}
use kv8_metrics.Ring.Window.{window, length-window, window_mod, window-set, wrap_cases}
use kv8_metrics.Ring.Queue
use kv8_metrics.Ring.Fixed.{Ring, push, pop, size_approx, empty, clear, capacity}
use kv8_metrics.Ring.Fixed.Invariant.{IsSize, IsValid, count, next_index_lem, size_approx-eq-count}

-- The items in the order in which they were pushed.
abbrev pub contents {ℓ} : {A : Type ℓ} (d : A) → ℕ → Ring A → List A
contents d n r = window d r.buf n r.head (count n r)

-- The index arithmetic, over any two slots.
module _ (n head tail : ℕ) (hh : head < n) (ht : tail < n) where
  pub slot_after : (head + (tail + n - head) % n) % n ≡ tail
  slot_after = omega (
    arith,
    wrap_cases (tail + n - head) n (omega arith),
    wrap_cases (head + (tail + n - head) % n) n
        (omega (arith, wrap_cases (tail + n - head) n (omega arith))),
  )

  pub count_full : (tail + 1) % n ≡ head → (tail + n - head) % n ≡ n - 1
  count_full e =
      omega
        (arith, wrap_cases (tail + n - head) n (omega arith), wrap_cases (tail + 1) n (omega arith))

  pub count_room : (tail + 1) % n ≢ head → (tail + n - head) % n + 1 < n
  count_room e =
      omega
        (arith, wrap_cases (tail + n - head) n (omega arith), wrap_cases (tail + 1) n (omega arith))

  pub count_pushed :
      (tail + 1) % n ≢ head → ((tail + 1) % n + n - head) % n ≡ suc ((tail + n - head) % n)
  count_pushed e = omega (
    arith,
    wrap_cases (tail + n - head) n (omega arith),
    wrap_cases (tail + 1) n (omega arith),
    wrap_cases ((tail + 1) % n + n - head) n (omega (arith, wrap_cases (tail + 1) n (omega arith))),
  )

  pub count_none : head ≡ tail → (tail + n - head) % n ≡ 0
  count_none e = omega (arith, wrap_cases (tail + n - head) n (omega arith))

  pub count_popped : head ≢ tail → (tail + n - head) % n ≡ suc ((tail + n - (head + 1) % n) % n)
  count_popped e = omega (
    arith,
    wrap_cases (tail + n - head) n (omega arith),
    wrap_cases (head + 1) n (omega arith),
    wrap_cases (tail + n - (head + 1) % n) n (omega (arith, wrap_cases (head + 1) n (omega arith))),
  )

module _ {ℓ} {A : Type ℓ} (d : A) {n : ℕ} where
  contents_pushed :
      {r : Ring A} (x : A)
      → IsValid n r
      → (r.tail + 1) % n ≢ r.head
      → contents d n (record r { buf = set r.buf r.tail x; tail = (r.tail + 1) % n })
        ≡ contents d n r ++ x ∷ []
  contents_pushed {r} x v room =
      ap (window d (set r.buf r.tail x) n r.head)
        (count_pushed n r.head r.tail v.head_in v.tail_in room)
      ∙ ap (λ t. window d (set r.buf t x) n r.head (suc (count n r)))
          (sym (slot_after n r.head r.tail v.head_in v.tail_in))
      ∙ window-set d r.buf n r.head (count n r) x v.slots
          (omega (arith, count_room n r.head r.tail v.head_in v.tail_in room))

  pub contents_popped :
      {r : Ring A}
      → IsValid n r
      → r.head ≢ r.tail
      → contents d n r ≡ get_or r.buf r.head d ∷ contents d n (record r { head = (r.head + 1) % n })
  contents_popped {r} v ne =
      ap (window d r.buf n r.head) (count_popped n r.head r.tail v.head_in v.tail_in ne)
      ∙ ap₂ (λ i w. get_or r.buf i d ∷ w) (mod-eq_of_lt v.head_in)
          (sym (window_mod d r.buf n (r.head + 1) ((r.tail + n - (r.head + 1) % n) % n)))

  pub contents_empty : {r : Ring A} → IsValid n r → r.head ≡ r.tail → contents d n r ≡ []
  contents_empty {r} v e =
      ap (window d r.buf n r.head) (count_none n r.head r.tail v.head_in v.tail_in e)

module _ {A : Type 0} (d : A) {n k : ℕ} (s : IsSize n k) where
  -- On a valid ring, `push` accepts an item exactly when fewer than `capacity()` are stored, and
  -- then appends it, as the bounded queue does.
  pub fixed_push_refines :
      {r : Ring A} (x : A)
      → IsValid n r
      → let (r', done) = push d n r x in
        (contents d n r', done) ≡ Queue.push (capacity n) (contents d n r) x
  unfolding push capacity Queue.push
  fixed_push_refines {r} x v = ground (
    arith,
    next_index_lem n k r.tail s v.tail_in,
    length-window d r.buf n r.head (count n r),
    count_full n r.head r.tail v.head_in v.tail_in,
    count_room n r.head r.tail v.head_in v.tail_in,
    contents_pushed d {r = r} x v,
  )

  -- On a valid ring, `pop` returns the oldest item and removes it, or false when the ring is
  -- empty, as the queue does.
  pub fixed_pop_refines :
      {r : Ring A}
      → IsValid n r
      → let (r', out) = pop d n r in (contents d n r', out) ≡ Queue.pop (contents d n r)
  unfolding pop Queue.pop
  fixed_pop_refines {r} v = ground (
    arith,
    next_index_lem n k r.head s v.head_in,
    contents_empty d {r = r} v,
    contents_popped d {r = r} v,
  )

  -- On a valid ring, `size_approx` is the number of items stored, `empty` says whether there is
  -- none, and there are at most `capacity()`.
  pub fixed_size_refines :
      {r : Ring A}
      → IsValid n r
      → (size_approx n r ≡ length (contents d n r))
        × ((empty n r ≡ true) ↔ (contents d n r ≡ []))
        × (length (contents d n r) ≤ capacity n)
  unfolding empty capacity
  fixed_size_refines {r} v = (
    omega (arith, size_approx-eq-count s v, length-contents),
    ((λ e. contents_empty d v (ground arith)), λ e. ground (arith, some_stored e)),
    omega (arith, length-contents, mod-lt (r.tail + n - r.head) {m = n} (omega arith)),
  )
    where
      length-contents : length (contents d n r) ≡ count n r
      length-contents = length-window d r.buf n r.head (count n r)

      some_stored : contents d n r ≡ [] → r.head ≡ r.tail
      some_stored e =
          omega
            (arith, ap length e, length-contents, wrap_cases (r.tail + n - r.head) n (omega arith))

  pub fixed_clear_refines : (r : Ring A) → contents d n (clear n r) ≡ []
  unfolding clear
  fixed_clear_refines r =
      ap (window d r.buf n 0) (ap (λ m. m % n) {x = 0 + n - 0} {y = n} (omega arith) ∙ mod_self n)
