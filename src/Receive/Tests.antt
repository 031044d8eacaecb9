-- ===== src/Receive/Tests.antt =====
-- The consumer at concrete inputs, and an instance of each property.
use mathlib.Core.List.{Memᴰ}
use kv8_metrics.Prelude.{
  ℕ, ◌+◌, ◌*◌, ◌/◌, ◌-◌, ◌≡◌, refl, Bool, true, false, Option, none, some, List, [], ◌∷◌, ltb,
  if◌then◌else◌, arith,
}
use kv8_metrics.Prelude.Bytes.{Bytes, codes, le, field, skip}
use kv8_metrics.Prelude.Assoc.{find, nat_eq, bytes_eq}
use kv8_metrics.Prelude.Int.{ℤ}
use kv8_metrics.Ring.Dynamic.{Ring, push, distance}
use kv8_metrics.Ring.Dynamic.Refine.{IsValid}
use kv8_metrics.Prelude.Decimal.{decimal, read_digits}
use kv8_metrics.Wire.Sample.{write_value, write_sample}
use kv8_metrics.Wire.Header.{make_udt_header}
use kv8_metrics.Udt.Decode.{Doubles, kv8_wire_size, kv8_decode_field}
use kv8_metrics.Kv8log.Ctl.{find_key, ctr_state_msg, session_open_msg}
use kv8_metrics.Kv8log.Session.{Slot}
use kv8_metrics.Kv8log.Emit.{value_message, udt_message}
use kv8_metrics.Registry.{CounterMeta, SessionMeta, new_session}
use kv8_metrics.Receive.Stats.{
  Reals, FullDurationStats, make_key, no_samples, register_counter, get_full_stats,
}
use kv8_metrics.Receive.CtlText.{CtlResult, parse_ctl}
use kv8_metrics.Receive.Setup.{
  Converter, TopicCtx, Sample, FieldCtx, Consumer, no_sample, convert, get_ring_buffer,
  new_consumer, topic_ctx, is_missing,
}
use kv8_metrics.Receive.Messages.{on_message, on_messages, is_topic, find_ctx}
use kv8_metrics.Receive.Laws.Toggling.{parse_ctl-ctr_state, session_open_read_past_end}
use kv8_metrics.Receive.Laws.Rings.{wanted, fresh_ring, new_consumer-rings}
use kv8_metrics.Receive.Laws.Delivery.{ForSamples, Taken, scalar_delivered, scalar_lost}
use kv8_metrics.Receive.Laws.Feeds.{on_ring, field_samples, feed_delivered}
use kv8_metrics.Receive.Laws.Extremes.{Ordered, Covers, feed_all, get_full_stats-feed_all}

-- Whole numbers for doubles.
abbrev whole : Reals
whole = record {
  less = ltb;
  plus = λ a b. a + b;
  minus = λ a b. a - b;
  times = λ a b. a * b;
  over = λ a b. a / b;
  of_nat = λ n. n;
  max_value = 1000000;
  lowest = 0;
}

whole-Ordered : Ordered whole
whole-Ordered = record {
  not_self = λ a. ground arith;
  not_lower = λ v a b h e. ground (arith, h, e);
  not_higher = λ v a b h e. ground (arith, h, e);
}

abbrev doubles : Doubles
doubles = record { of_int = λ z. of z; of_float = λ b. b; divide = λ a b. a / b }
  where
    of : ℤ → ℕ
    of (ℤ.pos n) = n
    of (ℤ.negsuc n) = 0

abbrev clock : Converter
clock = record { frequency_inv = 1; timer_anchor = 0; epoch_base = 100; valid = true }

abbrev small_ring : Ring Sample
small_ring = record { head = 0; tail = 0; items = no_sample ∷ no_sample ∷ []; cap = 2; mask = 1 }

small_ring-IsValid : IsValid small_ring
small_ring-IsValid = record {
  exponent = 1;
  power = refl;
  small = omega arith;
  masks = refl;
  ordered = omega arith;
  bounded = omega arith;
  counted = omega arith;
  slots = refl;
}

abbrev scalar_ctx : TopicCtx
scalar_ctx = record { topic = codes "ch.S1.d.g.n"; converter = clock; hash = 7 }

abbrev feed_ctx : TopicCtx
feed_ctx = record { topic = codes "ch.S1.u.f"; converter = clock; hash = 9 }

-- A byte and, behind it, a word of two bytes.
abbrev fields : List FieldCtx
fields =
    record { key = 589825; hash = 9; counter_id = 1; offset = 0; field_type = 1 }
    ∷ record { key = 589826; hash = 9; counter_id = 2; offset = 1; field_type = 3 }
    ∷ record { key = 589827; hash = 9; counter_id = 3; offset = 2; field_type = 3 }
    ∷ []

abbrev consumer : Consumer
consumer = record {
  topics = scalar_ctx ∷ feed_ctx ∷ record scalar_ctx { topic = codes "a.u.b.S1.d.g.n" } ∷ [];
  rings =
      (458755, small_ring)
      ∷ (589825, small_ring)
      ∷ (589826, small_ring)
      ∷ (589827, small_ring)
      ∷ [];
  udt_topic_fields = (codes "ch.S1.u.f", fields) ∷ [];
  stats = some ((458755, no_samples whole) ∷ []);
  annotations = some [];
  annotation_topic = codes "ch.S1._ann";
  log_store = none;
  log_topic = codes "ch.S1._log";
  registry_topic = codes "ch._registry";
  ctl_topic = codes "ch.S1._ctl";
  pending_ctl = [];
  total_messages = 0;
  last_msg_time = 0;
  dropped = 0;
}

abbrev slot : Slot
slot = record {
  name = codes "n";
  id = 3;
  seq = 5;
  mn = 0;
  mx = 0;
  data_topic = codes "ch.S1.d.g.n";
  rkt = none;
}

plain-ForSamples : ForSamples (codes "ch.S1.d.g.n") consumer
unfolding is_topic
plain-ForSamples = record {
  not_ctl = refl;
  not_annotation = refl;
  not_log = refl;
  not_registry = refl;
}

lost-ForSamples : ForSamples (codes "a.u.b.S1.d.g.n") consumer
unfolding is_topic
lost-ForSamples = record {
  not_ctl = refl;
  not_annotation = refl;
  not_log = refl;
  not_registry = refl;
}

feed-ForSamples : ForSamples (codes "ch.S1.u.f") consumer
unfolding is_topic
feed-ForSamples = record {
  not_ctl = refl;
  not_annotation = refl;
  not_log = refl;
  not_registry = refl;
}

abbrev value_5 : Bytes
value_5 = value_message 3 slot 20 5

-- A value, a sample of the feed, and a command.
abbrev messages : List (Bytes × Bytes)
messages =
    (codes "ch.S1.d.g.n", value_5)
    ∷ (codes "ch.S1.u.f", udt_message 1 slot 30 (8 ∷ 1 ∷ 2 ∷ []))
    ∷ (codes "ch.S1._ctl", ctr_state_msg 3 false 99)
    ∷ []

abbrev value_of : Option Consumer → Option (List (ℕ × Bool) × ℕ × Option (Ring Sample))
value_of none = none
value_of (some c) = some (c.pending_ctl, c.total_messages, find 589826 c.rings)

received :
    value_of (on_messages whole doubles messages consumer)
    ≡ some (
      (3, false) ∷ [],
      2,
      some (record small_ring {
        head = 1;
        items = record { timestamp = 130; value = 513 } ∷ no_sample ∷ [];
      }),
    )
unfolding on_messages find value_message write_value le field skip udt_message write_sample
    make_udt_header kv8_wire_size ctr_state_msg decimal read_digits push distance kv8_decode_field
received = refl

parse_ctl-ctr_state_example :
    parse_ctl (ctr_state_msg 17 true 1700000000000) ≡ CtlResult.event 17 true
parse_ctl-ctr_state_example = parse_ctl-ctr_state 17 true 1700000000000 (omega arith) (omega arith)

session_open_read_past_end_example : parse_ctl (session_open_msg 1700000000000) ≡ CtlResult.past_end
session_open_read_past_end_example = session_open_read_past_end 1700000000000 (omega arith)

scalar_delivered_example :
    (c' : Consumer) × (on_message whole doubles (codes "ch.S1.d.g.n") value_5 consumer ≡ some c')
    × Taken whole 7 3 small_ring
        (record { timestamp = convert whole clock 20; value = 5 })
        consumer
        c'
unfolding find make_key is_missing find_key find_ctx
scalar_delivered_example =
    scalar_delivered whole doubles (codes "ch.S1.d.g.n") scalar_ctx consumer small_ring 3 slot 20 5
      plain-ForSamples refl refl refl refl small_ring-IsValid (omega arith) (omega arith)
      (omega arith) (omega arith) (omega arith)

scalar_lost_example :
    on_message whole doubles (codes "a.u.b.S1.d.g.n") value_5 consumer ≡ some consumer
unfolding is_missing find_key
scalar_lost_example =
    scalar_lost whole doubles (codes "a.u.b.S1.d.g.n") scalar_ctx consumer 3 slot 20 5
      lost-ForSamples refl (omega arith) (omega arith) (omega arith) (omega arith)

feed_delivered_example :
    (c' : Consumer) × (on_message whole doubles
        (codes "ch.S1.u.f")
        (udt_message 1 slot 30 (8 ∷ 1 ∷ 2 ∷ []))
        consumer
      ≡ some c')
    × ((key : ℕ)
        → find key c'.rings
          ≡ on_ring
              (field_samples doubles (8 ∷ 1 ∷ 2 ∷ []) (convert whole clock 30) key fields)
              (find key consumer.rings))
    × (c'.total_messages ≡ 1)
    × (c'.last_msg_time ≡ convert whole clock 30)
unfolding find is_missing find_key find_ctx
feed_delivered_example =
    feed_delivered whole doubles (codes "ch.S1.u.f") feed_ctx fields consumer 1 slot 30
      (8 ∷ 1 ∷ 2 ∷ []) feed-ForSamples refl refl refl refl (omega arith) (omega arith) (omega arith)
      (omega arith)

abbrev counter : ℕ → CounterMeta
counter id = record {
  name = codes "n";
  counter_id = id;
  flags = 1;
  min_bits = 0;
  alarm_min = 0;
  max_bits = 0;
  alarm_max = 0;
  data_topic = codes "ch.S1.d.g.n";
  is_udt_feed = false;
  schema_hash = 0;
  schema_json = [];
  is_virtual_field = false;
  field_offset = 0;
  field_type = 0;
  display_name = [];
}

abbrev session : SessionMeta
session = record (new_session (codes "ch") (codes "ch.S1")) {
  hash_to_counters =
      (9, record (counter 4) { is_udt_feed = true } ∷ []) ∷ (7, counter 2 ∷ counter 3 ∷ []) ∷ [];
  data_topics = codes "ch.S1.d.g.n" ∷ [];
  topic_to_group_hash = (codes "ch.S1.d.g", 7) ∷ [];
  topic_to_frequency = (codes "ch.S1.d.g", 10) ∷ [];
  topic_to_timer_value = (codes "ch.S1.d.g", 1) ∷ [];
  topic_to_time_hi = (codes "ch.S1.d.g", 27112218) ∷ [];
  topic_to_time_lo = (codes "ch.S1.d.g", 0) ∷ [];
}

-- The clock of the counter's group is found by the hash of its bucket.
clock_of_group : (topic_ctx whole session (codes "ch.S1.d.g.n")).hash ≡ 7
unfolding topic_ctx new_session find
clock_of_group = refl

new_consumer-rings_example :
    get_ring_buffer 7 3 (new_consumer whole session)
    ≡ (if wanted (make_key 7 3) session.hash_to_counters then some fresh_ring else none)
new_consumer-rings_example = new_consumer-rings whole session 7 3

get_full_stats-feed_all_example :
    (s : FullDurationStats) × (get_full_stats whole 7 3
        (feed_all whole 7 3 (9 ∷ 4 ∷ []) (register_counter whole 7 3 []))
      ≡ some ((2, s.min, s.max, s.sum / 2), true))
    × ((w : ℕ) → Memᴰ w (9 ∷ 4 ∷ []) → Covers whole s w)
unfolding find make_key register_counter
get_full_stats-feed_all_example =
    get_full_stats-feed_all whole 7 3 9 (4 ∷ []) (register_counter whole 7 3 []) whole-Ordered refl
      (omega arith)
