-- ===== src/Kv8log/Laws/Limit.antt =====
-- The 1024 flags of `aEnabled` in libs/kv8log/lib/kv8log_impl.cpp. `kv8log_register_udt_feed` tests
-- the limit, `kv8log_register_counter` does not.
use kv8_metrics.Prelude.{
  ℕ, zero, suc, ◌+◌, ◌-◌, ◌^◌, ◌≤◌, ◌<◌, ◌≡◌, refl, ap, ◌∙◌, Bool, Option, none, some, List, [],
  ◌∷◌, length, get_elem?, set, length-append, arith,
}
use kv8_metrics.Prelude.Bytes.{Bytes}
use kv8_metrics.Kv8log.Session.{Session, Call, log, max_counters}
use kv8_metrics.Kv8log.Register.{
  new_slot, append_slot, attach_topic, counter_topic, register_counter, register_udt_feed,
  exhausted, returning,
}
use kv8_metrics.Kv8log.Emit.{Gate, gate, emit_value}
use kv8_metrics.Kv8log.Control.{store_enabled, set_counter_enabled}
use kv8_metrics.Kv8log.Laws.Validity.{IsValid, get_elem?-some}

get_elem?-out : {A : Type 0} (xs : List A) (i : ℕ) → length xs ≤ i → get_elem? xs i ≡ none
get_elem?-out [] i h = refl
get_elem?-out (x ∷ xs) zero h = absurd (omega arith)
get_elem?-out (x ∷ xs) (suc i) h = get_elem?-out xs i (omega arith)

-- Registration keeps the flags, whatever the id.
record Registered (s : Session) (s' : Session) : Type 0 where
  flags : s'.enabled ≡ s.enabled
  next : s'.next_id ≡ s.next_id + 1

attach_keeps :
    (topics : Bytes → Option ℕ) (s : Session) (id : ℕ) (topic : Bytes)
    → id < length s.counters
    → (s' : Session) × (attach_topic topics s id topic ≡ some s')
      × (s'.enabled ≡ s.enabled)
      × (s'.next_id ≡ s.next_id)
unfolding attach_topic
attach_keeps topics s id topic h =
    let (slot, e) = get_elem?-some s.counters id h in
    let attached = set s.counters id (record slot { rkt = topics topic }) in
    (
      log (record s { counters = attached }) (Call.create_topic topic ∷ Call.flush 2000 ∷ []),
      ground arith,
      refl,
      refl,
    )

register_keeps :
    (topics : Bytes → Option ℕ) (s : Session) (name : Bytes) (mn mx : ℕ)
    → length s.counters ≡ s.next_id
    → s.next_id < 2 ^ 16 - 1
    → (s' : Session) × (register_counter topics s name mn mx ≡ some (s', s.next_id))
      × Registered s s'
unfolding register_counter append_slot
register_keeps topics s name mn mx e h =
    let topic = counter_topic s s.next_id in
    let slot = new_slot name topic mn mx s.next_id in
    let (s', r, flags, next) =
      attach_keeps topics (log (append_slot s slot) _) s.next_id topic
        (omega (arith, length-append s.counters (slot ∷ []))) in
    (s', ap (returning s.next_id) r, record { flags = flags; next = omega (arith, next) })

past_flags :
    (s : Session) (id : ℕ) → length s.enabled ≤ id → id < s.next_id → gate s id ≡ Gate.fault
unfolding gate
past_flags s id h k = ground (arith, get_elem?-out s.enabled id h)

feed_refused :
    (topics : Bytes → Option ℕ) (s : Session) (name json : Bytes)
    → s.next_id ≡ max_counters
    → register_udt_feed topics s name json ≡ some exhausted
unfolding register_udt_feed
feed_refused topics s name json full = ground arith

-- In a valid session with 1024 counters a feed is refused, but a scalar counter is registered,
-- under the id 1024; right after that every sample for it and every attempt to switch it accesses
-- `aEnabled` past its end.
pub counter_past_limit :
    (topics : Bytes → Option ℕ) (s : Session) (name json : Bytes) (mn mx : ℕ)
    → IsValid s
    → s.next_id ≡ max_counters
    → (register_udt_feed topics s name json ≡ some exhausted)
      × ((s' : Session) × (register_counter topics s name mn mx ≡ some (s', max_counters))
          × ((timer value : ℕ) → emit_value s' max_counters timer value ≡ none)
          × ((b : Bool) (wall : ℕ) → set_counter_enabled s' max_counters b wall ≡ none))
unfolding emit_value set_counter_enabled store_enabled
counter_past_limit topics s name json mn mx v full =
    let (s', e, r) = register_keeps topics s name mn mx v.counted (omega arith) in
    let short : length s'.enabled ≡ max_counters = ap length r.flags ∙ v.flags in
    let known : max_counters < s'.next_id = omega (arith, r.next) in
    let shut = past_flags s' max_counters (omega arith) known in
    (
      feed_refused topics s name json full,
      (
        s',
        e ∙ ap (λ n. some (s', n)) full,
        (λ timer value. ground (arith, shut)),
        λ b wall. ground arith,
      ),
    )
