-- ===== src/Zoom/Reader.antt =====
-- class KafkaReader of kv8zoom/KafkaReader.{h,cpp}: the feeds that it subscribes to and its callback.
-- The calls of the consumer are lists.
use kv8_metrics.Prelude.{
  ℕ, ◌+◌, ◌*◌, Option, none, some, List, [], ◌∷◌, ◌++◌, length, leb, ltb, if◌then◌else◌,
}
use kv8_metrics.Prelude.Bytes.{Bytes, codes}
use kv8_metrics.Prelude.Int.{ℤ}
use kv8_metrics.Prelude.Assoc.{find, assign, bytes_beq, bytes_eq}
use kv8_metrics.Ring.Fixed.{Ring, push, clear}
use kv8_metrics.Wire.Sample.{udt_sample_size, sample_payload}
use kv8_metrics.Registry.{CounterMeta, SessionMeta}
use kv8_metrics.Zoom.Frames.{NavPayload, AttPayload, MotPayload, WxPayload, Frame}
use kv8_metrics.Zoom.Payloads.{read_nav, read_att, read_mot, read_wx}

pub data FeedType : Type 0 where
  nav att mot wx : FeedType

abbrev pub ring_size : ℕ
ring_size = 32768

abbrev pub wx_ring_size : ℕ
wx_ring_size = 64

pub record Reader : Type 0 where
  pub topic_to_feed : List (Bytes × FeedType)
  pub nav_ring : Ring (Frame NavPayload)
  pub att_ring : Ring (Frame AttPayload)
  pub mot_ring : Ring (Frame MotPayload)
  pub wx_ring : Ring (Frame WxPayload)
  pub subscribed : List Bytes
  pub assigned : List (List Bytes × ℤ)

-- A consumer made anew has no subscriptions.
unfoldable pub reset : Reader → Reader
reset r = record {
  topic_to_feed = [];
  nav_ring = clear ring_size r.nav_ring;
  att_ring = clear ring_size r.att_ring;
  mot_ring = clear ring_size r.mot_ring;
  wx_ring = clear wx_ring_size r.wx_ring;
  subscribed = [];
  assigned = [];
}

unfoldable pub feed_type : Bytes → Option FeedType
feed_type name =
    if bytes_beq name (codes "Aerial/Navigation")
    then some FeedType.nav
    else if bytes_beq name (codes "Aerial/Attitude")
    then some FeedType.att
    else if bytes_beq name (codes "Aerial/Motors")
    then some FeedType.mot
    else if bytes_beq name (codes "WeatherStation")
    then some FeedType.wx
    else none

-- A counter that stands for a feed which is not mapped yet; none where the loop goes on.
unfoldable pub new_feed : CounterMeta → List (Bytes × FeedType) → Option FeedType
new_feed cm feeds = elim (find cm.data_topic feeds) [
  | some ft ↦ none
  | none ↦ if cm.is_udt_feed then feed_type cm.name else none
]

-- SubscribeToSession, with the number so far.
unfoldable pub subscribe_counters : List CounterMeta → Reader × ℕ → Reader × ℕ
subscribe_counters [] (r, n) = (r, n)
subscribe_counters (cm ∷ cms) (r, n) = elim (new_feed cm r.topic_to_feed) [
  | none ↦ subscribe_counters cms (r, n)
  | some ft ↦ subscribe_counters cms (
    record r {
      topic_to_feed = assign cm.data_topic ft r.topic_to_feed;
      subscribed = r.subscribed ++ cm.data_topic ∷ [];
    },
    n + 1,
  )
]

unfoldable pub subscribe_buckets : List (ℕ × List CounterMeta) → Reader × ℕ → Reader × ℕ
subscribe_buckets [] st = st
subscribe_buckets ((hash, cms) ∷ buckets) st = subscribe_buckets buckets (subscribe_counters cms st)

unfoldable pub subscribe_to_session : SessionMeta → Reader → Reader × ℕ
subscribe_to_session meta r = subscribe_buckets meta.hash_to_counters (r, 0)

-- SubscribeToSessionFromTimestampMs, with the topics so far.
unfoldable pub collect_counters : List CounterMeta → Reader × List Bytes → Reader × List Bytes
collect_counters [] (r, topics) = (r, topics)
collect_counters (cm ∷ cms) (r, topics) = elim (new_feed cm r.topic_to_feed) [
  | none ↦ collect_counters cms (r, topics)
  | some ft ↦ collect_counters cms (
    record r { topic_to_feed = assign cm.data_topic ft r.topic_to_feed },
    topics ++ cm.data_topic ∷ [],
  )
]

unfoldable pub collect_buckets :
    List (ℕ × List CounterMeta) → Reader × List Bytes → Reader × List Bytes
collect_buckets [] st = st
collect_buckets ((hash, cms) ∷ buckets) st = collect_buckets buckets (collect_counters cms st)

unfoldable pub assign_at : ℤ → Reader × List Bytes → Reader × ℕ
assign_at seek_ms (r, []) = (r, 0)
assign_at seek_ms (r, topic ∷ topics) =
    (record r { assigned = r.assigned ++ (topic ∷ topics, seek_ms) ∷ [] }, length (topic ∷ topics))

unfoldable pub subscribe_from_timestamp_ms : SessionMeta → ℤ → Reader → Reader × ℕ
subscribe_from_timestamp_ms meta seek_ms r =
    assign_at seek_ms (collect_buckets meta.hash_to_counters (r, []))

-- `tsKafkaMs * 1000`
unfoldable pub to_us : ℤ → ℤ
to_us (ℤ.pos ms) = ℤ.pos (ms * 1000)
to_us (ℤ.negsuc ms) = ℤ.negsuc (ms * 1000 + 999)

-- The item that a slot of a ring starts as.
abbrev pub no_nav : Frame NavPayload
no_nav = record { ts_us = ℤ.pos 0; payload = read_nav [] }

abbrev pub no_att : Frame AttPayload
no_att = record { ts_us = ℤ.pos 0; payload = read_att [] }

abbrev pub no_mot : Frame MotPayload
no_mot = record { ts_us = ℤ.pos 0; payload = read_mot [] }

abbrev pub no_wx : Frame WxPayload
no_wx = record { ts_us = ℤ.pos 0; payload = read_wx [] }

-- One case of the switch; `size` is that of the payload.
unfoldable pub push_frame :
    {P : Type 0} → Frame P → ℕ → ℕ → (Bytes → P) → ℤ → Bytes → Ring (Frame P) → Ring (Frame P)
push_frame empty n size read ts_us bytes ring =
    if leb size (length bytes)
    then (push empty n ring (record { ts_us = ts_us; payload = read bytes })).0
    else ring

unfoldable pub store_frame : FeedType → ℤ → Bytes → Reader → Reader
store_frame FeedType.nav ts_us bytes r = record r {
  nav_ring = push_frame no_nav ring_size 58 read_nav ts_us bytes r.nav_ring;
}
store_frame FeedType.att ts_us bytes r = record r {
  att_ring = push_frame no_att ring_size 80 read_att ts_us bytes r.att_ring;
}
store_frame FeedType.mot ts_us bytes r = record r {
  mot_ring = push_frame no_mot ring_size 20 read_mot ts_us bytes r.mot_ring;
}
store_frame FeedType.wx ts_us bytes r = record r {
  wx_ring = push_frame no_wx wx_ring_size 28 read_wx ts_us bytes r.wx_ring;
}

unfoldable pub on_message : Bytes → Bytes → ℤ → Reader → Reader
on_message topic payload ts_ms r =
    if ltb (length payload) udt_sample_size then r else elim (find topic r.topic_to_feed) [
      | none ↦ r
      | some ft ↦ store_frame ft (to_us ts_ms) (sample_payload payload) r
    ]
