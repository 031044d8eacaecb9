-- ===== src/Prelude/Assoc.antt =====
-- Maps (std::map, std::set) as association lists over any key with a Boolean equality.
use Prim.Native.Nat.{ℕ}
use mathlib.Core.Path.{◌≡◌, refl, ap₂}
use mathlib.Core.Logic.{◌↔◌}
use mathlib.Core.Bool.{Bool, true, false, ◌&&◌, ◌||◌}
use mathlib.Core.Option.{Option, none, some}
use mathlib.Core.List.{List, [], ◌∷◌}
use native.Mathlib.Omega.{arith}
use kv8_metrics.Prelude.Tests.{◌==◌, ==_iff, if◌then◌else◌}
use kv8_metrics.Prelude.Bytes.{Bytes}

pub record Eq (A : Type 0) : Type 0 where
  pub beq : A → A → Bool
  pub beq_iff : (a b : A) → (beq a b ≡ true) ↔ (a ≡ b)

abbrev nat_beq : ℕ → ℕ → Bool
nat_beq a b = a == b

instance abbrev pub nat_eq : Eq ℕ
nat_eq = record { beq = nat_beq; beq_iff = ==_iff }

abbrev pub bytes_beq : Bytes → Bytes → Bool
bytes_beq [] [] = true
bytes_beq [] (b ∷ bs) = false
bytes_beq (a ∷ as') [] = false
bytes_beq (a ∷ as') (b ∷ bs) = a == b && bytes_beq as' bs

bytes_beq_sound : (a b : Bytes) → bytes_beq a b ≡ true → a ≡ b
bytes_beq_sound [] [] e = refl
bytes_beq_sound [] (b ∷ bs) e = cc
bytes_beq_sound (a ∷ as') [] e = cc
bytes_beq_sound (a ∷ as') (b ∷ bs) e =
    ap₂ ◌∷◌ (ground arith) (bytes_beq_sound as' bs (ground arith))

pub bytes_beq_refl : (a : Bytes) → bytes_beq a a ≡ true
bytes_beq_refl [] = refl
bytes_beq_refl (a ∷ as') = ground (arith, bytes_beq_refl as')

pub bytes_beq_iff : (a b : Bytes) → (bytes_beq a b ≡ true) ↔ (a ≡ b)
bytes_beq_iff a b = (bytes_beq_sound a b, λ e. rw e (bytes_beq_refl b))

instance abbrev pub bytes_eq : Eq Bytes
bytes_eq = record { beq = bytes_beq; beq_iff = bytes_beq_iff }

module _ {K V : Type 0} ⦃e : Eq K⦄ where
  unfoldable pub find : K → List (K × V) → Option V
  find k [] = none
  find k ((j, v) ∷ m) = if e.beq j k then some v else find k m

  -- `m[k] = v`
  unfoldable pub assign : K → V → List (K × V) → List (K × V)
  assign k v [] = (k, v) ∷ []
  assign k v ((j, w) ∷ m) = if e.beq j k then (k, v) ∷ m else (j, w) ∷ assign k v m

  pub find-assign :
      (k j : K) (v : V) (m : List (K × V))
      → find j (assign k v m) ≡ (if e.beq k j then some v else find j m)
  unfolding find assign
  find-assign k j v [] = refl
  find-assign k j v ((i, w) ∷ m) =
      ground (arith, find-assign k j v m, e.beq_iff i k, e.beq_iff i j, e.beq_iff k j)

module _ {K : Type 0} ⦃e : Eq K⦄ where
  unfoldable pub member : K → List K → Bool
  member k [] = false
  member k (j ∷ s) = e.beq j k || member k s

  -- `s.insert(k)`
  unfoldable pub insert : K → List K → List K
  unfolding member
  insert k s = if member k s then s else k ∷ s
