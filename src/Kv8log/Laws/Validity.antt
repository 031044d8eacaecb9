-- ===== src/Kv8log/Laws/Validity.antt =====
-- The invariant of a session of libs/kv8log/lib/kv8log_impl.cpp, and the operations that keep it.
use kv8_metrics.Prelude.{
  ℕ, zero, suc, ◌+◌, ◌^◌, ◌≤◌, ◌<◌, ◌≡◌, refl, sym, ap, ◌∙◌, true, Option, some, List, [], ◌∷◌,
  ◌++◌, length, get_elem?, set, length-append, length-set, length-replicate, arith, ◌⊎◌, dec_lt,
  inl, inr,
}
use kv8_metrics.Prelude.Bytes.{Bytes}
use kv8_metrics.Wire.Hash.{fnv32}
use kv8_metrics.Kv8log.Session.{Session, Slot, Call, Clock, open_session, log, max_counters}
use kv8_metrics.Kv8log.Register.{
  new_slot, append_slot, attach_topic, counter_topic, feed_topic, register_counter,
  register_udt_feed, feed_calls, exhausted, registered, returning, registering,
}

-- Each slot carries its index as its id, and a 16-bit sequence number.
abbrev pub Numbered : ℕ → List Slot → Type 0
Numbered i [] = Unit {0}
Numbered i (c ∷ cs) = (c.id ≡ i) × (c.seq < 2 ^ 16) × Numbered (i + 1) cs

pub record IsValid (s : Session) : Type 0 where
  pub counted : length s.counters ≡ s.next_id
  pub room : s.next_id ≤ max_counters
  pub flags : length s.enabled ≡ max_counters
  pub numbered : Numbered 0 s.counters

pub get_elem?-some :
    {A : Type 0} (xs : List A) (i : ℕ) → i < length xs → (x : A) × (get_elem? xs i ≡ some x)
get_elem?-some [] i h = absurd (omega arith)
get_elem?-some (x ∷ xs) zero h = (x, refl)
get_elem?-some (x ∷ xs) (suc i) h = get_elem?-some xs i (omega arith)

pub get_elem?-last :
    {A : Type 0} (xs : List A) (x : A) → get_elem? (xs ++ x ∷ []) (length xs) ≡ some x
get_elem?-last [] x = refl
get_elem?-last (y ∷ xs) x = get_elem?-last xs x

append-Numbered :
    (i j : ℕ) (cs : List Slot) (c : Slot)
    → Numbered i cs
    → j ≡ i + length cs
    → c.id ≡ j
    → c.seq < 2 ^ 16
    → Numbered i (cs ++ c ∷ [])
append-Numbered i j [] c n e ce cs = (omega arith, cs, tt)
append-Numbered i j (b ∷ bs) c n e ce cs =
    (n.0, n.1, append-Numbered (i + 1) j bs c n.2 (omega arith) ce cs)

-- A change of a slot that keeps its id.
pub set-Numbered :
    (i k : ℕ) (cs : List Slot) {c : Slot} (d : Slot)
    → Numbered i cs
    → get_elem? cs k ≡ some c
    → d.id ≡ c.id
    → d.seq < 2 ^ 16
    → Numbered i (set cs k d)
set-Numbered i k [] d n e same small = n
set-Numbered i zero (b ∷ bs) d n e same small =
    (same ∙ ap (λ (c : Slot). c.id) (some_eq (sym e)) ∙ n.0, small, n.2)
  where
    some_eq : {A : Type 0} {a b : A} → some a ≡ some b → a ≡ b
    some_eq e = cc
set-Numbered i (suc k) (b ∷ bs) d n e same small =
    (n.0, n.1, set-Numbered (i + 1) k bs d n.2 e same small)

-- What `get_elem?` finds in the counters.
pub slot_at :
    (i k : ℕ) (cs : List Slot) {c : Slot}
    → Numbered i cs
    → get_elem? cs k ≡ some c
    → (c.id ≡ i + k) × (c.seq < 2 ^ 16)
slot_at i k [] n e = cc
slot_at i zero (b ∷ bs) n e = ground arith
slot_at i (suc k) (b ∷ bs) n e = let h = slot_at (i + 1) k bs n.2 e in (omega arith, h.1)

-- A session that was just opened is valid and has no counter.
pub open-IsValid :
    (topics : Bytes → Option ℕ) (channel full : Bytes) (a b c : Clock)
    → IsValid (open_session topics channel full a b c)
unfolding open_session
open-IsValid topics channel full a b c = record {
  counted = refl;
  room = omega arith;
  flags = length-replicate max_counters true;
  numbered = tt;
}

attach-IsValid :
    (topics : Bytes → Option ℕ) (s : Session) (id : ℕ) (topic : Bytes)
    → IsValid s
    → id < s.next_id
    → (s' : Session) × (attach_topic topics s id topic ≡ some s')
      × IsValid s'
      × (s'.next_id ≡ s.next_id)
unfolding attach_topic
attach-IsValid topics s id topic v h =
    let (slot, e) = get_elem?-some s.counters id (omega (arith, v.counted)) in
    let attached = set s.counters id (record slot { rkt = topics topic }) in
    (
      log (record s { counters = attached }) (Call.create_topic topic ∷ Call.flush 2000 ∷ []),
      ground arith,
      record {
        counted = length-set s.counters id (record slot { rkt = topics topic }) ∙ v.counted;
        room = v.room;
        flags = v.flags;
        numbered =
            set-Numbered 0 id s.counters (record slot { rkt = topics topic }) v.numbered e refl
              (slot_at 0 id s.counters v.numbered e).1;
      },
      refl,
    )

append-IsValid :
    (s : Session) (c : Slot)
    → IsValid s
    → s.next_id < max_counters
    → c.id ≡ s.next_id
    → c.seq < 2 ^ 16
    → IsValid (append_slot s c) × ((append_slot s c).next_id ≡ s.next_id + 1)
unfolding append_slot
append-IsValid s c v h ce cs = (
  record {
    counted = omega (arith, length-append s.counters (c ∷ []), v.counted);
    room = omega arith;
    flags = v.flags;
    numbered = append-Numbered 0 s.next_id s.counters c v.numbered (omega (arith, v.counted)) ce cs;
  },
  omega arith,
)

pub logged-IsValid : (s : Session) (cs : List Call) → IsValid s → IsValid (log s cs)
logged-IsValid s cs v = record {
  counted = v.counted;
  room = v.room;
  flags = v.flags;
  numbered = v.numbered;
}

-- A slot appended under the next id, some calls, and its topic attached.
appended :
    (topics : Bytes → Option ℕ) (s : Session) (c : Slot) (cs : List Call) (topic : Bytes)
    → IsValid s
    → s.next_id < max_counters
    → c.id ≡ s.next_id
    → c.seq < 2 ^ 16
    → (s' : Session) × (attach_topic topics (log (append_slot s c) cs) s.next_id topic ≡ some s')
      × IsValid s'
      × (s'.next_id ≡ s.next_id + 1)
appended topics s c cs topic v h ce small =
    let (v1, e1) = append-IsValid s c v h ce small in
    let (s3, e3, v3, n3) =
      attach-IsValid topics (log (append_slot s c) cs) s.next_id topic
        (logged-IsValid (append_slot s c) cs v1) (omega (arith, e1)) in
    (s3, e3, v3, n3 ∙ e1)

-- In a valid session with fewer than 1024 counters, a counter is registered under the next id,
-- and the session stays valid.
pub register_counter-IsValid :
    (topics : Bytes → Option ℕ) (s : Session) (name : Bytes) (mn mx : ℕ)
    → IsValid s
    → s.next_id < max_counters
    → (s' : Session) × (register_counter topics s name mn mx ≡ some (s', s.next_id))
      × IsValid s'
      × (s'.next_id ≡ s.next_id + 1)
unfolding register_counter
register_counter-IsValid topics s name mn mx v h =
    let topic = counter_topic s s.next_id in
    let (s', e, v', n) =
      appended topics s (new_slot name topic mn mx s.next_id) _ topic v h refl (omega arith) in
    (s', ap (returning s.next_id) e, v', n)

-- In a valid session, a feed is refused when there are 1024 counters, and otherwise registered
-- under the next id; the session then stays valid.
pub register_udt_feed-IsValid :
    (topics : Bytes → Option ℕ) (s : Session) (name json : Bytes)
    → IsValid s
    → ((s.next_id ≡ max_counters) × (register_udt_feed topics s name json ≡ some exhausted))
      ⊎ ((s' : Session) × (register_udt_feed topics s name json ≡ some (registered s' s.next_id))
          × IsValid s'
          × (s'.next_id ≡ s.next_id + 1))
unfolding register_udt_feed
register_udt_feed-IsValid topics s name json v = elim (dec_lt s.next_id max_counters) [
  | no full ↦ inl (omega (arith, v.room), ground arith)
  | yes h ↦
      let topic = feed_topic s (fnv32 json) s.next_id in
      let (s', e, v', n) =
        appended topics s (new_slot name topic 0 0 s.next_id)
          (feed_calls s.reg_topic name json s.next_id topic) topic v h refl (omega arith) in
      inr (s', ground (arith, ap (registering s.next_id) e), v', n)
]
