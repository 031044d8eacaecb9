-- ===== src/Receive/Laws/Rings.antt =====
-- The rings that the constructor of kv8scope/ConsumerThread.cpp makes.
use native.Mathlib.Nat.{mod-eq_of_lt}
use kv8_metrics.Prelude.{
  ℕ, ◌+◌, ◌*◌, ◌/◌, ◌%◌, ◌^◌, ◌<◌, ◌≡◌, refl, ap, ap₂, ◌∙◌, Bool, true, false, not, ◌&&◌, ◌||◌,
  Option, none, some, List, [], ◌∷◌, ◌++◌, ltb, ◌==◌, ==_iff, inl, inr, Bool-cases, Option-cases,
  if◌then◌else◌, arith,
}
use kv8_metrics.Prelude.Assoc.{find, nat_eq}
use kv8_metrics.Prelude.Bits.{bit_or_join, bit_or_comm}
use kv8_metrics.Ring.Dynamic.{Ring, construct}
use kv8_metrics.Registry.{CounterMeta, SessionMeta}
use kv8_metrics.Registry.Ordered.{insert_by_key, in_key_order}
use kv8_metrics.Receive.Stats.{Reals, make_key}
use kv8_metrics.Receive.Setup.{
  Sample, Consumer, no_sample, ring_capacity, add_ring, add_counter, add_counters,
  init_ring_buffers, new_consumer, get_ring_buffer, split_key,
}

abbrev pub fresh_ring : Ring Sample
fresh_ring = construct no_sample ring_capacity

abbrev or_else : {A : Type 0} → Option A → Option A → Option A
or_else none b = b
or_else (some a) b = some a

-- A counter that is no feed, with the key.
abbrev pub wants : ℕ → ℕ → CounterMeta → Bool
wants key hash cm = not cm.is_udt_feed && make_key hash cm.counter_id == key

abbrev pub any_wants : ℕ → ℕ → List CounterMeta → Bool
any_wants key hash [] = false
any_wants key hash (cm ∷ cms) = wants key hash cm || any_wants key hash cms

abbrev pub wanted : ℕ → List (ℕ × List CounterMeta) → Bool
wanted key [] = false
wanted key ((hash, cms) ∷ buckets) = any_wants key hash cms || wanted key buckets

abbrev pub ring_if : Bool → Option (Ring Sample)
ring_if b = if b then some fresh_ring else none

find-append_one :
    (key j : ℕ) (r : Ring Sample) (rings : List (ℕ × Ring Sample))
    → find j (rings ++ (key, r) ∷ []) ≡ or_else (find j rings) (if key == j then some r else none)
unfolding find
find-append_one key j r [] = ground arith
find-append_one key j r ((k, q) ∷ rings) = elim (Bool-cases (k == j)) [
  | inl e ↦ rw e refl
  | inr e ↦ rw e (find-append_one key j r rings)
]

or_else-none : (o : Option (Ring Sample)) → o ≡ or_else o none
or_else-none none = refl
or_else-none (some r) = refl

find-add_ring :
    (key j : ℕ) (rings : List (ℕ × Ring Sample))
    → find j (add_ring key rings) ≡ or_else (find j rings) (ring_if (key == j))
unfolding add_ring
find-add_ring key j rings = elim (Option-cases (find key rings)) [
  | inl e ↦ rw (e, add_ring) (find-append_one key j fresh_ring rings)
  | inr (r, e) ↦
      rw (e, add_ring)
        (elim (Bool-cases (key == j)) [
          | inl same ↦ ground (arith, e, same, ap (λ q. find q rings) ((==_iff key j).0 same))
          | inr other ↦ rw other (or_else-none (find j rings))
        ])
]

or_else-ring :
    (o : Option (Ring Sample)) (a b : Bool)
    → or_else (or_else o (ring_if a)) (ring_if b) ≡ or_else o (ring_if (a || b))
or_else-ring (some r) a b = refl
or_else-ring none true b = refl
or_else-ring none false b = refl

find-add_counter :
    (key hash : ℕ) (cm : CounterMeta) (c : Consumer)
    → find key (add_counter hash cm c).rings
      ≡ or_else (find key c.rings) (ring_if (wants key hash cm))
unfolding add_counter
find-add_counter key hash cm c = elim (Bool-cases cm.is_udt_feed) [
  | inl e ↦ rw e (or_else-none (find key c.rings))
  | inr e ↦ rw e (find-add_ring (make_key hash cm.counter_id) key c.rings)
]

find-add_counters :
    (key hash : ℕ) (cms : List CounterMeta) (c : Consumer)
    → find key (add_counters hash cms c).rings
      ≡ or_else (find key c.rings) (ring_if (any_wants key hash cms))
unfolding add_counters
find-add_counters key hash [] c = or_else-none (find key c.rings)
find-add_counters key hash (cm ∷ cms) c =
    find-add_counters key hash cms (add_counter hash cm c)
    ∙ ap (λ o. or_else o (ring_if (any_wants key hash cms))) (find-add_counter key hash cm c)
    ∙ or_else-ring (find key c.rings) (wants key hash cm) (any_wants key hash cms)

find-init :
    (key : ℕ) (buckets : List (ℕ × List CounterMeta)) (c : Consumer)
    → find key (init_ring_buffers buckets c).rings
      ≡ or_else (find key c.rings) (ring_if (wanted key buckets))
unfolding init_ring_buffers
find-init key [] c = or_else-none (find key c.rings)
find-init key ((hash, cms) ∷ buckets) c =
    find-init key buckets (add_counters hash cms c)
    ∙ ap (λ o. or_else o (ring_if (wanted key buckets))) (find-add_counters key hash cms c)
    ∙ or_else-ring (find key c.rings) (any_wants key hash cms) (wanted key buckets)

wanted-insert :
    (key : ℕ) (kv : ℕ × List CounterMeta) (buckets : List (ℕ × List CounterMeta))
    → wanted key (insert_by_key ltb kv buckets) ≡ (any_wants key kv.0 kv.1 || wanted key buckets)
unfolding insert_by_key
wanted-insert key kv [] = refl
wanted-insert key kv ((hash, cms) ∷ buckets) = elim (Bool-cases (ltb kv.0 hash)) [
  | inl e ↦ rw e refl
  | inr e ↦ rw e (ground (arith, wanted-insert key kv buckets))
]

wanted-ordered :
    (key : ℕ) (buckets : List (ℕ × List CounterMeta))
    → wanted key (in_key_order ltb buckets) ≡ wanted key buckets
unfolding in_key_order
wanted-ordered key [] = refl
wanted-ordered key (kv ∷ buckets) =
    wanted-insert key kv (in_key_order ltb buckets)
    ∙ ap (λ b. any_wants key kv.0 kv.1 || b) (wanted-ordered key buckets)

-- For any meta of a session, whatever the order of its groups: the consumer has an empty ring for a
-- pair of hash and id exactly when a counter that is no feed descriptor has the key of the pair.
pub new_consumer-rings :
    (re : Reals) (meta : SessionMeta) (hash id : ℕ)
    → get_ring_buffer hash id (new_consumer re meta)
      ≡ (if wanted (make_key hash id) meta.hash_to_counters then some fresh_ring else none)
unfolding get_ring_buffer new_consumer find
new_consumer-rings re meta hash id =
    find-init (make_key hash id) (in_key_order ltb meta.hash_to_counters) _
    ∙ ap ring_if (wanted-ordered (make_key hash id) meta.hash_to_counters)

make_key_lem : (hash id : ℕ) → hash < 2 ^ 32 → id < 2 ^ 16 → make_key hash id ≡ hash * 2 ^ 16 + id
unfolding make_key
make_key_lem hash id h1 h2 =
    ap (λ t. Prim.Native.Nat.bit_or t id)
      (mod-eq_of_lt {n = hash * 2 ^ 16} {m = 2 ^ 64} (omega arith))
    ∙ bit_or_comm (hash * 2 ^ 16) id
    ∙ bit_or_join 16 id hash h2
    ∙ omega arith

-- A key gives back the hash of 32 bits and the id of 16 bits that it is made of; so different pairs
-- never share a ring or an accumulator.
pub split_key-make_key :
    (hash id : ℕ) → hash < 2 ^ 32 → id < 2 ^ 16 → split_key (make_key hash id) ≡ (hash, id)
unfolding split_key
split_key-make_key hash id h1 h2 = rw (make_key_lem hash id h1 h2) (
    let e1 : (hash * 2 ^ 16 + id) / 2 ^ 16 % 2 ^ 32 ≡ hash = omega arith in
    let e2 : (hash * 2 ^ 16 + id) % 2 ^ 16 ≡ id = omega arith in ap₂ (λ (a b : ℕ). (a, b)) e1 e2)
