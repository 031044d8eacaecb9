-- ===== src/Registry/Laws/Virtual.antt =====
-- The virtual counters that `DiscoverSessions` of libs/libkv8/src/Kv8Consumer.cpp makes up.
use mathlib.Core.List.{Memᴰ}
use kv8_metrics.Prelude.{
  ℕ, zero, suc, ◌+◌, ◌*◌, ◌%◌, ◌<◌, ◌≤◌, ◌≡◌, ◌↔◌, ap, subst, ◌∙◌, some, List, [], ◌∷◌, ◌++◌,
  append_assoc, append-nil, get_elem?, ◌==◌, if◌then◌else◌, arith,
}
use kv8_metrics.Prelude.Bits.{bit_and_mask}
use kv8_metrics.Prelude.Assoc.{find, find-assign, bytes_eq, nat_eq}
use kv8_metrics.Udt.Types.{SchemaField}
use kv8_metrics.Registry.{CounterMeta, push_back}
use kv8_metrics.Registry.Virtual.{virtual_id, virtual_counter, push_fields}

virtual_id-value : (fi i : ℕ) → virtual_id fi i ≡ 0x1000 + 64 * (fi % 64) + i % 64
unfolding virtual_id
virtual_id-value fi i = omega (arith, bit_and_mask fi 6, bit_and_mask i 6)

-- The id of a virtual counter lies in 0x1000 ... 0x1FFF, and two of them are equal exactly when the
-- numbers of their feeds and those of their fields agree modulo 64.
pub virtual_id_lem :
    (fi i fj j : ℕ)
    → (0x1000 ≤ virtual_id fi i)
      × (virtual_id fi i < 0x2000)
      × ((virtual_id fi i ≡ virtual_id fj j) ↔ ((fi % 64 ≡ fj % 64) × (i % 64 ≡ j % 64)))
virtual_id_lem fi i fj j = (
  omega (arith, virtual_id-value fi i),
  omega (arith, virtual_id-value fi i),
  (
    λ e. (
      omega (arith, virtual_id-value fi i, virtual_id-value fj j),
      omega (arith, virtual_id-value fi i, virtual_id-value fj j),
    ),
    λ e. omega (arith, virtual_id-value fi i, virtual_id-value fj j, e.0, e.1),
  ),
)

-- The counters of the fields from `i` on.
abbrev pub virtual_counters : ℕ → CounterMeta → ℕ → List SchemaField → List CounterMeta
virtual_counters fi feed i [] = []
virtual_counters fi feed i (f ∷ fs) =
    virtual_counter fi feed i f ∷ virtual_counters fi feed (suc i) fs

find-push_back :
    (k j : ℕ) (cm : CounterMeta) (vs : List CounterMeta) (m : List (ℕ × List CounterMeta))
    → find k m ≡ some vs
    → find j (push_back k cm m) ≡ (if k == j then some (vs ++ cm ∷ []) else find j m)
unfolding push_back
find-push_back k j cm vs m e = rw e (find-assign k j (vs ++ cm ∷ []) m)

-- A bucket that is there gets the counters of the fields, and no other bucket changes.
pub find-push_fields :
    (hash fi : ℕ) (feed : CounterMeta) (i : ℕ) (fs : List SchemaField) (vs : List CounterMeta)
    (m : List (ℕ × List CounterMeta)) (j : ℕ)
    → find hash m ≡ some vs
    → find j (push_fields hash fi feed i fs m)
      ≡ (if hash == j then some (vs ++ virtual_counters fi feed i fs) else find j m)
unfolding push_fields
find-push_fields hash fi feed i [] vs m j e = ground (arith, append-nil vs, e)
find-push_fields hash fi feed i (f ∷ fs) vs m j e =
    let v = virtual_counter fi feed i f in
    find-push_fields hash fi feed (suc i) fs (vs ++ v ∷ []) (push_back hash v m) j
      (ground (arith, find-push_back hash hash v vs m e))
    ∙ ground (
      arith,
      find-push_back hash j v vs m e,
      append_assoc vs (v ∷ []) (virtual_counters fi feed (suc i) fs),
    )

pub virtual_counters-Memᴰ :
    (fi : ℕ) (feed : CounterMeta) (start i : ℕ) (fs : List SchemaField) (f : SchemaField)
    → get_elem? fs i ≡ some f
    → Memᴰ (virtual_counter fi feed (start + i) f) (virtual_counters fi feed start fs)
virtual_counters-Memᴰ fi feed start i [] f e = cc
virtual_counters-Memᴰ fi feed start zero (g ∷ fs) f e = Memᴰ.head (
    ground (arith, ap (λ n. virtual_counter fi feed n f) {x = start + 0} {y = start} (omega arith)))
virtual_counters-Memᴰ fi feed start (suc i) (g ∷ fs) f e = Memᴰ.tail (
    subst (λ n. Memᴰ (virtual_counter fi feed n f) (virtual_counters fi feed (suc start) fs))
      {x = suc start + i} {y = start + suc i} (omega arith)
      (virtual_counters-Memᴰ fi feed (suc start) i fs f e))
