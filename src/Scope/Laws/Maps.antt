-- ===== src/Scope/Laws/Maps.antt =====
-- Membership of keys in the maps of kv8scope/SessionManager.cpp.
use kv8_metrics.Prelude.{
  ◌≡◌, refl, ap, Bool, true, false, ◌||◌, Option, none, some, List, [], ◌∷◌, Bool-cases, inl, inr,
  if◌then◌else◌, arith,
}
use kv8_metrics.Prelude.Bytes.{Bytes}
use kv8_metrics.Prelude.Assoc.{find, assign, find-assign, bytes_beq, bytes_beq_iff, bytes_eq}
use kv8_metrics.Registry.{SessionMeta}
use kv8_metrics.Registry.Ordered.{insert_by_key, in_key_order}
use kv8_metrics.Scope.Liveness.{Liveness}
use kv8_metrics.Scope.Sessions.{still_there, liveness_at}

abbrev pub is_some : {V : Type 0} → Option V → Bool
is_some none = false
is_some (some v) = true

-- The key is there.
abbrev pub has : {V : Type 0} → Bytes → List (Bytes × V) → Bool
has p m = is_some (find p m)

pub has-cons :
    {V : Type 0} (p k : Bytes) (v : V) (m : List (Bytes × V))
    → has p ((k, v) ∷ m) ≡ (bytes_beq k p || has p m)
unfolding find
has-cons p k v m = elim (Bool-cases (bytes_beq k p)) [ inl e ↦ rw e refl | inr e ↦ rw e refl ]

module _ {V : Type 0} (less : Bytes → Bytes → Bool) (p : Bytes) where
  has-insert :
      (kv : Bytes × V) (m : List (Bytes × V))
      → has p (insert_by_key less kv m) ≡ (bytes_beq kv.0 p || has p m)
  unfolding insert_by_key
  has-insert kv [] = has-cons p kv.0 kv.1 []
  has-insert kv (jw ∷ m) = elim (Bool-cases (less kv.0 jw.0)) [
    | inl e ↦ rw e (has-cons p kv.0 kv.1 (jw ∷ m))
    | inr e ↦ rw e (
        ground (
          arith,
          has-cons p jw.0 jw.1 (insert_by_key less kv m),
          has-cons p jw.0 jw.1 m,
          has-insert kv m,
        ))
  ]

  pub has-in_key_order : (m : List (Bytes × V)) → has p (in_key_order less m) ≡ has p m
  unfolding in_key_order
  has-in_key_order [] = refl
  has-in_key_order (kv ∷ m) =
      ground
        (arith, has-insert kv (in_key_order less m), has-cons p kv.0 kv.1 m, has-in_key_order m)

pub find-still_there :
    {V : Type 0} (p : Bytes) (current : List (Bytes × SessionMeta)) (m : List (Bytes × V))
    → find p (still_there current m) ≡ (if has p current then find p m else none)
unfolding still_there find
find-still_there p current [] = ground arith
find-still_there p current ((k, v) ∷ m) = elim (Bool-cases (bytes_beq k p)) [
  | inl same ↦ ground (
    arith,
    find-still_there p current m,
    same,
    ap (λ q. find q current) ((bytes_beq_iff k p).0 same),
  )
  | inr other ↦ ground (arith, find-still_there p current m, other)
]

pub liveness_at-still_there :
    (p : Bytes) (current : List (Bytes × SessionMeta)) (m : List (Bytes × Liveness))
    → liveness_at p (still_there current m)
      ≡ (if has p current then liveness_at p m else Liveness.unknown)
unfolding liveness_at
liveness_at-still_there p current m = ground (arith, find-still_there p current m)

pub liveness_at-assign :
    (p k : Bytes) (l : Liveness) (m : List (Bytes × Liveness))
    → liveness_at p (assign k l m) ≡ (if bytes_beq k p then l else liveness_at p m)
unfolding liveness_at
liveness_at-assign p k l m = ground (arith, find-assign k p l m)
