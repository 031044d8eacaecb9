-- ===== src/Ring/Window.antt =====
-- A circular buffer read by unwrapped positions: position `i` lies in the slot `i % n`.
use native.Mathlib.Nat.{div-add-mod, mod-lt, mod-add-mod, mod-mod, mod-eq_of_lt, mod-eq-sub-mod}
use kv8_metrics.Prelude.{
  ℕ, zero, suc, ◌+◌, ◌%◌, ◌≤◌, ◌<◌, ◌≡◌, ◌≢◌, ◌-◌, ◌⊎◌, inl, inr, dec_lt, refl, ap, ap₂, ◌∙◌, List,
  [], ◌∷◌, ◌++◌, length, get_or, set, take, drop, min, arith,
}

-- Two positions less than `n` apart lie in different slots.
pub mod-ne : (n i j : ℕ) → i < j → j < i + n → i % n ≢ j % n
mod-ne n i j lt near e = grind (arith, div-add-mod i n, div-add-mod j n)

module _ {ℓ} {A : Type ℓ} (d : A) where
  pub get_or-set_self : (xs : List A) (i : ℕ) (v : A) → i < length xs → get_or (set xs i v) i d ≡ v
  get_or-set_self [] i v h = absurd (omega arith)
  get_or-set_self (x ∷ xs) zero v h = refl
  get_or-set_self (x ∷ xs) (suc i) v h = get_or-set_self xs i v (omega arith)

  pub get_or-set_ne :
      (xs : List A) (i j : ℕ) (v : A) → i ≢ j → get_or (set xs i v) j d ≡ get_or xs j d
  get_or-set_ne [] i j v h = refl
  get_or-set_ne (x ∷ xs) zero zero v h = absurd (h refl)
  get_or-set_ne (x ∷ xs) zero (suc j) v h = refl
  get_or-set_ne (x ∷ xs) (suc i) zero v h = refl
  get_or-set_ne (x ∷ xs) (suc i) (suc j) v h = get_or-set_ne xs i j v (λ e. h (ap suc e))

  -- The `k` items from position `from` on.
  abbrev pub window : List A → ℕ → ℕ → ℕ → List A
  window buf n from zero = []
  window buf n from (suc k) = get_or buf (from % n) d ∷ window buf n (from + 1) k

  pub length-window : (buf : List A) (n from k : ℕ) → length (window buf n from k) ≡ k
  length-window buf n from zero = refl
  length-window buf n from (suc k) = ap suc (length-window buf n (from + 1) k)

  -- Only the slot of the first position matters.
  pub window_mod : (buf : List A) (n from k : ℕ) → window buf n (from % n) k ≡ window buf n from k
  window_mod buf n from k = window_same k (from % n) from (mod-mod' n from)
    where
      mod-mod' : (n from : ℕ) → from % n % n ≡ from % n
      mod-mod' n from = omega (arith, mod-mod from n)

      window_same : (k a b : ℕ) → a % n ≡ b % n → window buf n a k ≡ window buf n b k
      window_same zero a b e = refl
      window_same (suc k) a b e = ap₂ ◌∷◌ (ap (λ i. get_or buf i d) e) (
          window_same k (a + 1) (b + 1)
            (omega (arith, mod-add-mod a n 1, mod-add-mod b n 1, ap (λ (t : ℕ). (t + 1) % n) e)))

  -- A write to a slot that no position of the window uses.
  window-set_out :
      (buf : List A) (n from k j : ℕ) (v : A)
      → from + k ≤ j
      → j < from + n
      → window (set buf (j % n) v) n from k ≡ window buf n from k
  window-set_out buf n from zero j v h near = refl
  window-set_out buf n from (suc k) j v h near =
      ap₂ ◌∷◌
        (get_or-set_ne buf (j % n) (from % n) v
          (λ e. mod-ne n from j (omega arith) near (omega arith)))
        (window-set_out buf n (from + 1) k j v (omega arith) (omega arith))

  -- One more position at the end of a window.
  pub window_last :
      (buf : List A) (n from k : ℕ)
      → window buf n from (suc k) ≡ window buf n from k ++ get_or buf ((from + k) % n) d ∷ []
  window_last buf n from zero = ap (λ i. get_or buf (i % n) d ∷ []) (omega arith)
  window_last buf n from (suc k) =
      ap (λ t. get_or buf (from % n) d ∷ t)
        (window_last buf n (from + 1) k
          ∙ ap (λ i. window buf n (from + 1) k ++ get_or buf (i % n) d ∷ []) (omega arith))

  -- A write just past a window that does not fill the buffer appends the value.
  pub window-set :
      (buf : List A) (n from k : ℕ) (v : A)
      → length buf ≡ n
      → k < n
      → window (set buf ((from + k) % n) v) n from (suc k) ≡ window buf n from k ++ v ∷ []
  window-set buf n from k v len small =
      window_last (set buf ((from + k) % n) v) n from k
      ∙ ap₂ (λ xs x. xs ++ x ∷ [])
          (window-set_out buf n from k (from + k) v (omega arith) (omega arith))
          (get_or-set_self buf ((from + k) % n) v
            (omega (arith, mod-lt (from + k) {m = n} (omega arith))))

  -- The write alone, before it is published, leaves the window as it was.
  pub window-set_past :
      (buf : List A) (n from k : ℕ) (v : A)
      → k < n
      → window (set buf ((from + k) % n) v) n from k ≡ window buf n from k
  window-set_past buf n from k v small =
      window-set_out buf n from k (from + k) v (omega arith) (omega arith)

-- A sum of two slots goes round at most once.
pub wrap_cases : (x n : ℕ) → x < n + n → ((x < n) × (x % n ≡ x)) ⊎ ((n ≤ x) × (x % n + n ≡ x))
wrap_cases x n h = elim (dec_lt x n) [
  | yes p ↦ inl (p, mod-eq_of_lt p)
  | no p ↦ inr (
    (omega arith),
    omega (
      arith,
      mod-eq-sub-mod {n = x} {m = n} (omega arith),
      mod-eq_of_lt {n = x - n} {m = n} (omega arith),
    ),
  )
]

module _ {ℓ} {A : Type ℓ} (d : A) where
  pub take-window :
      (buf : List A) (n m from k : ℕ)
      → take m (window d buf n from k) ≡ window d buf n from (min m k)
  take-window buf n zero from k = ap (window d buf n from) {x = 0} {y = min 0 k} (omega arith)
  take-window buf n (suc m) from zero =
      ap (window d buf n from) {x = 0} {y = min (suc m) 0} (omega arith)
  take-window buf n (suc m) from (suc k) =
      ap (λ xs. get_or buf (from % n) d ∷ xs) (take-window buf n m (from + 1) k)
      ∙ ap (window d buf n from) {x = suc (min m k)} {y = min (suc m) (suc k)} (omega arith)

  pub drop-window :
      (buf : List A) (n m from k : ℕ)
      → drop m (window d buf n from k) ≡ window d buf n (from + m) (k - m)
  drop-window buf n zero from k =
      ap₂ (window d buf n) {x = from} {y = from + 0} (omega arith) (omega arith)
  drop-window buf n (suc m) from zero =
      ap (window d buf n (from + suc m)) {x = 0} {y = 0 - suc m} (omega arith)
  drop-window buf n (suc m) from (suc k) =
      drop-window buf n m (from + 1) k
      ∙ ap₂ (window d buf n) {x = from + 1 + m} {y = from + suc m} (omega arith) (omega arith)
