-- ===== src/Receive/Setup.antt =====
-- The members of class ConsumerThread that a message touches, and its constructor
-- (`InitTimeConverters` and `InitRingBuffers`), kv8scope/ConsumerThread.{h,cpp} with
-- kv8scope/TimeConverter.cpp. What std::map and std::set keep in order is gone through in that order,
-- where the order shows.
use Prim.Native.Nat.{bit_or}
use kv8_metrics.Prelude.{
  ℕ, ◌*◌, ◌/◌, ◌%◌, ◌^◌, Bool, true, false, not, ◌&&◌, ◌||◌, Option, none, some, List, [], ◌∷◌,
  ◌++◌, map, ltb, ◌==◌, if◌then◌else◌,
}
use kv8_metrics.Prelude.Bytes.{Bytes}
use kv8_metrics.Prelude.Assoc.{find, assign, bytes_beq, bytes_eq, nat_eq}
use kv8_metrics.Ring.Dynamic.{Ring, construct}
use kv8_metrics.LogStore.{LogStore}
use kv8_metrics.Registry.{CounterMeta, SessionMeta, is_empty}
use kv8_metrics.Registry.Ordered.{in_key_order, bytes_less}
use kv8_metrics.Receive.Stats.{Reals, FullDurationStats, make_key}

-- TimeConverter; its anchor of the timer is never read.
pub record Converter : Type 0 where
  pub frequency_inv : ℕ
  pub timer_anchor : ℕ
  pub epoch_base : ℕ
  pub valid : Bool

pub record TopicCtx : Type 0 where
  pub topic : Bytes
  pub converter : Converter
  pub hash : ℕ

-- TelemetrySample
pub record Sample : Type 0 where
  pub timestamp : ℕ
  pub value : ℕ

-- UdtFieldDecodeCtx
pub record FieldCtx : Type 0 where
  pub key : ℕ
  pub hash : ℕ
  pub counter_id : ℕ
  pub offset : ℕ
  pub field_type : ℕ

-- `annotations` are the payloads handed to `AnnotationStore::PushFromKafka`; the stores are none where
-- their pointers are null.
pub record Consumer : Type 0 where
  pub topics : List TopicCtx
  pub rings : List (ℕ × Ring Sample)
  pub udt_topic_fields : List (Bytes × List FieldCtx)
  pub stats : Option (List (ℕ × FullDurationStats))
  pub annotations : Option (List Bytes)
  pub annotation_topic : Bytes
  pub log_store : Option LogStore
  pub log_topic : Bytes
  pub registry_topic : Bytes
  pub ctl_topic : Bytes
  pub pending_ctl : List (ℕ × Bool)
  pub total_messages : ℕ
  pub last_msg_time : ℕ
  pub dropped : ℕ

abbrev pub ring_capacity : ℕ
ring_capacity = 2 ^ 20

abbrev pub no_sample : Sample
no_sample = record { timestamp = 0; value = 0 }

abbrev pub no_converter : Converter
no_converter = record { frequency_inv = 0; timer_anchor = 0; epoch_base = 0; valid = false }

-- The group whose bucket has a counter on the topic; 0 where there is none.
unfoldable pub owns : Bytes → List CounterMeta → Bool
owns topic [] = false
owns topic (cm ∷ cms) = bytes_beq cm.data_topic topic || owns topic cms

unfoldable pub owner : Bytes → List (ℕ × List CounterMeta) → ℕ
unfolding owns
owner topic [] = 0
owner topic ((hash, cms) ∷ buckets) =
    let more = owner topic buckets in if owns topic cms && not (hash == 0) then hash else more

unfoldable pub group_hash : SessionMeta → Bytes → ℕ
unfolding find owner in_key_order
group_hash meta topic = elim (find topic meta.topic_to_group_hash) [
  | some hash ↦ hash
  | none ↦ owner topic (in_key_order ltb meta.hash_to_counters)
]

-- The first topic of a group; `topic` where there is none.
unfoldable pub topic_of_group : ℕ → Bytes → List (Bytes × ℕ) → Bytes
topic_of_group hash topic [] = topic
topic_of_group hash topic ((gt, h) ∷ groups) =
    let more = topic_of_group hash topic groups in if h == hash then gt else more

unfoldable pub is_missing : {A : Type 0} → Option A → Bool
is_missing none = true
is_missing (some a) = false

unfoldable pub group_topic : SessionMeta → ℕ → Bytes → Bytes
unfolding topic_of_group is_missing find in_key_order bytes_less
group_topic meta hash topic =
    if not (hash == 0) && is_missing (find topic meta.topic_to_frequency)
    then topic_of_group hash topic (in_key_order bytes_less meta.topic_to_group_hash)
    else topic

-- The fallback to the first topic that has a frequency.
unfoldable pub first_topic : Bytes → List (Bytes × ℕ) → Bytes
first_topic topic [] = topic
first_topic topic ((first, frequency) ∷ _) = first

unfoldable pub timer_topic : SessionMeta → ℕ → Bytes → Bytes
unfolding group_topic first_topic is_missing find in_key_order bytes_less
timer_topic meta hash topic =
    let candidate = group_topic meta hash topic in
    if is_missing (find candidate meta.topic_to_frequency)
    then first_topic candidate (in_key_order bytes_less meta.topic_to_frequency)
    else candidate

module _ (re : Reals) where
  -- TimeConverter::Init and TimeConverter::Convert
  unfoldable pub init_converter : (frequency anchor time_hi time_lo : ℕ) → Converter
  init_converter frequency anchor time_hi time_lo =
      if frequency == 0 then no_converter else record {
        frequency_inv = re.over (re.of_nat 1) (re.of_nat frequency);
        timer_anchor = anchor;
        epoch_base =
            re.minus
              (re.over (re.of_nat (bit_or (time_hi * 2 ^ 32 % 2 ^ 64) time_lo))
                (re.of_nat 10000000))
              (re.of_nat 11644473600);
        valid = true;
      }

  unfoldable pub convert : Converter → ℕ → ℕ
  convert cv timer = re.plus cv.epoch_base (re.times (re.of_nat timer) cv.frequency_inv)

  infixl 5 ◌>>=◌
  abbrev ◌>>=◌ : {A : Type 0} → Option A → (A → Converter) → Converter
  none >>= f = no_converter
  some a >>= f = f a

  unfoldable pub topic_converter : SessionMeta → Bytes → Converter
  unfolding init_converter find
  topic_converter meta timing = do
    frequency ← find timing meta.topic_to_frequency
    anchor ← find timing meta.topic_to_timer_value
    time_hi ← find timing meta.topic_to_time_hi
    time_lo ← find timing meta.topic_to_time_lo
    init_converter frequency anchor time_hi time_lo

  unfoldable pub topic_ctx : SessionMeta → Bytes → TopicCtx
  unfolding topic_converter group_hash timer_topic
  topic_ctx meta topic =
      let hash = group_hash meta topic in
      record {
        topic = topic;
        converter = topic_converter meta (timer_topic meta hash topic);
        hash = hash;
      }

unfoldable pub init_time_converters : Reals → SessionMeta → List TopicCtx
unfolding topic_ctx
init_time_converters re meta = map (topic_ctx re meta) meta.data_topics

-- One counter of `InitRingBuffers`.
unfoldable pub add_ring : ℕ → List (ℕ × Ring Sample) → List (ℕ × Ring Sample)
unfolding find
add_ring key rings = elim (find key rings) [
  | none ↦ rings ++ (key, construct no_sample ring_capacity) ∷ []
  | some r ↦ rings
]

unfoldable pub add_field_ctx :
    Bytes → FieldCtx → List (Bytes × List FieldCtx) → List (Bytes × List FieldCtx)
unfolding find assign
add_field_ctx topic fc fields =
    assign topic (elim (find topic fields) [ none ↦ fc ∷ [] | some fcs ↦ fcs ++ fc ∷ [] ]) fields

unfoldable pub add_counter : ℕ → CounterMeta → Consumer → Consumer
unfolding add_ring add_field_ctx make_key is_empty
add_counter hash cm c =
    let key = make_key hash cm.counter_id in
    let fc : FieldCtx = record {
      key = key;
      hash = hash;
      counter_id = cm.counter_id;
      offset = cm.field_offset;
      field_type = cm.field_type;
    } in
    if cm.is_udt_feed then c else record c {
      rings = add_ring key c.rings;
      udt_topic_fields =
          if cm.is_virtual_field && not (is_empty cm.data_topic)
          then add_field_ctx cm.data_topic fc c.udt_topic_fields
          else c.udt_topic_fields;
    }

unfoldable pub add_counters : ℕ → List CounterMeta → Consumer → Consumer
unfolding add_counter
add_counters hash [] c = c
add_counters hash (cm ∷ cms) c = add_counters hash cms (add_counter hash cm c)

unfoldable pub init_ring_buffers : List (ℕ × List CounterMeta) → Consumer → Consumer
unfolding add_counters
init_ring_buffers [] c = c
init_ring_buffers ((hash, cms) ∷ buckets) c = init_ring_buffers buckets (add_counters hash cms c)

-- The constructor, before the setters are called.
unfoldable pub new_consumer : Reals → SessionMeta → Consumer
unfolding init_time_converters init_ring_buffers in_key_order
new_consumer re meta = init_ring_buffers (in_key_order ltb meta.hash_to_counters) (record {
  topics = init_time_converters re meta;
  rings = [];
  udt_topic_fields = [];
  stats = none;
  annotations = none;
  annotation_topic = [];
  log_store = none;
  log_topic = [];
  registry_topic = [];
  ctl_topic = [];
  pending_ctl = [];
  total_messages = 0;
  last_msg_time = 0;
  dropped = 0;
})

-- GetRingBuffer and GetCounterKeys
unfoldable pub get_ring_buffer : ℕ → ℕ → Consumer → Option (Ring Sample)
unfolding find make_key
get_ring_buffer hash id c = find (make_key hash id) c.rings

unfoldable pub split_key : ℕ → ℕ × ℕ
split_key key = (key / 2 ^ 16 % 2 ^ 32, key % 2 ^ 16)

unfoldable pub get_counter_keys : Consumer → List (ℕ × ℕ)
unfolding split_key in_key_order
get_counter_keys c = map (λ kv. split_key kv.0) (in_key_order ltb c.rings)
