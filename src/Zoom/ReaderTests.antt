-- ===== src/Zoom/ReaderTests.antt =====
-- The reader of the bridge at concrete inputs, and an instance of each property.
use kv8_metrics.Prelude.{ℕ, ◌≡◌, refl, Bool, true, false, List, [], ◌∷◌, ◌++◌, length}
use kv8_metrics.Prelude.Bytes.{Bytes, codes}
use kv8_metrics.Prelude.Int.{ℤ}
use kv8_metrics.Prelude.Assoc.{find, assign}
use kv8_metrics.Ring.Fixed.{fresh}
use kv8_metrics.Wire.Sample.{UdtSample}
use kv8_metrics.Registry.{CounterMeta, SessionMeta}
use kv8_metrics.Zoom.Frames.{NavPayload}
use kv8_metrics.Zoom.Reader.{
  FeedType, Reader, ring_size, wx_ring_size, no_nav, no_att, no_mot, no_wx, feed_type, new_feed,
  subscribe_counters, subscribe_buckets, subscribe_to_session, subscribe_from_timestamp_ms,
}
use kv8_metrics.Zoom.Subscribed.{with_assigned, subscriptions_agree}

abbrev feed_named : Bytes → ℕ → Bool → CounterMeta
feed_named name topic udt = record {
  name = name;
  counter_id = 0;
  flags = 0;
  min_bits = 0;
  alarm_min = 0;
  max_bits = 0;
  alarm_max = 0;
  data_topic = topic ∷ [];
  is_udt_feed = udt;
  schema_hash = 0;
  schema_json = [];
  is_virtual_field = false;
  field_offset = 0;
  field_type = 0;
  display_name = [];
}

abbrev session : SessionMeta
session = record {
  session_id = 83 ∷ [];
  session_prefix = 80 ∷ [];
  name = [];
  log_topic = [];
  control_topic = [];
  hash_to_group = [];
  hash_to_counters =
      (
        7,
        feed_named (codes "Aerial/Navigation") 1 true
            ∷ feed_named (codes "WeatherStation") 2 false
            ∷ [],
      )
      ∷ (
        8,
        feed_named (codes "Cabin") 3 true
            ∷ feed_named (codes "WeatherStation") 4 true
            ∷ feed_named (codes "Aerial/Motors") 1 true
            ∷ [],
      )
      ∷ [];
  data_topics = [];
  topic_to_group_name = [];
  topic_to_group_hash = [];
  topic_to_frequency = [];
  topic_to_timer_value = [];
  topic_to_time_hi = [];
  topic_to_time_lo = [];
  topic_to_counter = [];
  log_sites = [];
}

abbrev reader : Reader
reader = record {
  topic_to_feed = [];
  nav_ring = fresh no_nav ring_size;
  att_ring = fresh no_att ring_size;
  mot_ring = fresh no_mot ring_size;
  wx_ring = fresh no_wx wx_ring_size;
  subscribed = [];
  assigned = [];
}

-- A counter that is no feed, a feed of another name and a topic that is mapped are left out.
two_feeds : (subscribe_to_session session reader).0.subscribed ≡ (1 ∷ []) ∷ (4 ∷ []) ∷ []
unfolding subscribe_to_session subscribe_buckets subscribe_counters new_feed feed_type find assign
two_feeds = refl

subscriptions_agree_example :
    (feeds : List (Bytes × FeedType)) × (topics : List Bytes) × (subscribe_to_session session reader
      ≡ (
        record reader { topic_to_feed = feeds; subscribed = reader.subscribed ++ topics },
        length topics,
      ))
    × (subscribe_from_timestamp_ms session (ℤ.pos 500) reader ≡ (
      record reader {
        topic_to_feed = feeds;
        assigned = with_assigned reader.assigned topics (ℤ.pos 500);
      },
      length topics,
    ))
subscriptions_agree_example = subscriptions_agree session (ℤ.pos 500) reader

abbrev mapped : Reader
mapped = record reader { topic_to_feed = (1 ∷ [], FeedType.nav) ∷ [] }

abbrev header : UdtSample
header = record { bits = 3; feed_id = 2; seq = 1; timer = 1000 }

abbrev position : NavPayload
position = record {
  lat_deg = 4631000000000000000;
  lon_deg = 5;
  alt_m = 6;
  vx_ms = 7;
  vy_ms = 8;
  vz_ms = 9;
  gps_fix = 3;
  sats = 11;
  hdop = 1065353216;
  baro_alt_m = 13;
}
