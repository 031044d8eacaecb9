-- ===== src/Registry/Laws/KeyOrder.antt =====
-- The iteration order of Registry.Ordered keeps what there is.
use mathlib.Core.List.{Memᴰ}
use mathlib.Core.List.Memᴰ.{cases_cons, not-nil}
use kv8_metrics.Prelude.{
  ℕ, suc, ◌≡◌, refl, subst, Bool, true, false, List, [], ◌∷◌, length, ◌==◌, some, ◌⊎◌, inl, inr, ap,
  Bool-cases, if◌then◌else◌, arith,
}
use kv8_metrics.Prelude.Assoc.{find, nat_eq}
use kv8_metrics.Registry.Ordered.{insert_by_key, in_key_order}

Memᴰ-if :
    {A : Type 0} {x : A} (b : Bool) {xs ys : List A}
    → Memᴰ x xs
    → Memᴰ x ys
    → Memᴰ x (if b then xs else ys)
Memᴰ-if true m n = m
Memᴰ-if false m n = n

module _ {K V : Type 0} (less : K → K → Bool) where
  length-insert :
      (p : K × V) (ps : List (K × V)) → length (insert_by_key less p ps) ≡ suc (length ps)
  unfolding insert_by_key
  length-insert p [] = refl
  length-insert p (q ∷ ps) = ground (arith, length-insert p ps)

  pub length-in_key_order : (ps : List (K × V)) → length (in_key_order less ps) ≡ length ps
  unfolding in_key_order
  length-in_key_order [] = refl
  length-in_key_order (p ∷ ps) =
      omega (arith, length-insert p (in_key_order less ps), length-in_key_order ps)

  pub Memᴰ-insert_self : (p : K × V) (ps : List (K × V)) → Memᴰ p (insert_by_key less p ps)
  unfolding insert_by_key
  Memᴰ-insert_self p [] = Memᴰ.head refl
  Memᴰ-insert_self p (q ∷ ps) =
      Memᴰ-if (less p.0 q.0) (Memᴰ.head refl) (Memᴰ.tail (Memᴰ-insert_self p ps))

  Memᴰ-insert_of_mem :
      (p q : K × V) (ps : List (K × V)) → Memᴰ p ps → Memᴰ p (insert_by_key less q ps)
  unfolding insert_by_key
  Memᴰ-insert_of_mem p q [] m = absurd (not-nil m)
  Memᴰ-insert_of_mem p q (r ∷ ps) (Memᴰ.head e) =
      Memᴰ-if (less q.0 r.0) (Memᴰ.tail (Memᴰ.head e)) (Memᴰ.head e)
  Memᴰ-insert_of_mem p q (r ∷ ps) (Memᴰ.tail m) =
      Memᴰ-if (less q.0 r.0) (Memᴰ.tail (Memᴰ.tail m)) (Memᴰ.tail (Memᴰ-insert_of_mem p q ps m))

  pub Memᴰ-in_key_order :
      (p : K × V) (ps : List (K × V)) → Memᴰ p ps → Memᴰ p (in_key_order less ps)
  unfolding in_key_order
  Memᴰ-in_key_order p [] m = absurd (not-nil m)
  Memᴰ-in_key_order p (q ∷ ps) (Memᴰ.head e) =
      subst (λ r. Memᴰ p (insert_by_key less r (in_key_order less ps))) e
        (Memᴰ-insert_self p (in_key_order less ps))
  Memᴰ-in_key_order p (q ∷ ps) (Memᴰ.tail m) =
      Memᴰ-insert_of_mem p q (in_key_order less ps) (Memᴰ-in_key_order p ps m)

  insert-Memᴰ :
      (p q : K × V) (ps : List (K × V)) → Memᴰ p (insert_by_key less q ps) → (p ≡ q) ⊎ Memᴰ p ps
  unfolding insert_by_key
  insert-Memᴰ p q [] m = cases_cons m
  insert-Memᴰ p q (r ∷ ps) m = elim (Bool-cases (less q.0 r.0)) [
    | inl e ↦
        cases_cons (subst (λ b. Memᴰ p (if b then q ∷ r ∷ ps else r ∷ insert_by_key less q ps)) e m)
    | inr e ↦
        elim (cases_cons
          (subst (λ b. Memᴰ p (if b then q ∷ r ∷ ps else r ∷ insert_by_key less q ps)) e m)) [
            | inl same ↦ inr (Memᴰ.head same)
            | inr later ↦ elim (insert-Memᴰ p q ps later) [
              | inl same ↦ inl same
              | inr behind ↦ inr (Memᴰ.tail behind)
            ]
          ]
  ]

  pub in_key_order-Memᴰ :
      (p : K × V) (ps : List (K × V)) → Memᴰ p (in_key_order less ps) → Memᴰ p ps
  unfolding in_key_order
  in_key_order-Memᴰ p [] m = absurd (not-nil m)
  in_key_order-Memᴰ p (q ∷ ps) m = elim (insert-Memᴰ p q (in_key_order less ps) m) [
    | inl same ↦ Memᴰ.head same
    | inr later ↦ Memᴰ.tail (in_key_order-Memᴰ p ps later)
  ]

-- Looking up a key of a map, and its entries.
pub find-Memᴰ : {V : Type 0} (k : ℕ) (v : V) (m : List (ℕ × V)) → find k m ≡ some v → Memᴰ (k, v) m
unfolding find
find-Memᴰ k v [] e = cc
find-Memᴰ k v ((j, w) ∷ m) e = elim (Bool-cases (j == k)) [
  | inl same ↦ Memᴰ.head (ground arith)
  | inr other ↦ Memᴰ.tail (find-Memᴰ k v m (ground arith))
]

pub Memᴰ-found :
    {V : Type 0} (k : ℕ) (v : V) (m : List (ℕ × V)) → Memᴰ (k, v) m → (w : V) × (find k m ≡ some w)
unfolding find
Memᴰ-found k v [] at = absurd (not-nil at)
Memᴰ-found k v ((j, w) ∷ m) at = elim (Bool-cases (j == k)) [
  | inl same ↦ (w, rw same refl)
  | inr other ↦ elim (cases_cons at) [
    | inl e ↦ absurd (ground (arith, ap (λ q. q.0) e))
    | inr later ↦ let (u, found) = Memᴰ-found k v m later in (u, rw other found)
  ]
]
