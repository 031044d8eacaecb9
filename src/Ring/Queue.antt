-- ===== src/Ring/Queue.antt =====
-- What both rings promise: a first-in first-out queue of at most `cap` items, oldest first.
use kv8_metrics.Prelude.{
  ℕ, Bool, true, false, Option, none, some, List, [], ◌∷◌, ◌++◌, length, ltb, if◌then◌else◌,
}

module _ {ℓ} {A : Type ℓ} where
  unfoldable pub push : ℕ → List A → A → List A × Bool
  push cap q x = if ltb (length q) cap then (q ++ x ∷ [], true) else (q, false)

  unfoldable pub pop : List A → List A × Option A
  pop [] = ([], none)
  pop (x ∷ q) = (q, some x)
