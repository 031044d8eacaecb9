-- ===== src/Registry/Tests.antt =====
-- The records of a session of the channel "lab", and of a channel that loses its feeds.
use kv8_metrics.Prelude.{ℕ, ◌+◌, ◌<◌, ◌≡◌, refl, false, Option, some, [], ◌∷◌, length, ◌^◌, arith}
use kv8_metrics.Prelude.Bytes.{Bytes, codes}
use kv8_metrics.Wire.Hash.{fnv32}
use kv8_metrics.Wire.Registry.{RegistryRecord, Fits, registry_version, flag_udt}
use kv8_metrics.Kv8log.Text.{session_of, after_dot, sanitize_channel, hex8, hex4, hex_before}
use kv8_metrics.Kv8log.Session.{Session, Clock, open_session, registry_message}
use kv8_metrics.Kv8log.Register.{
  counter_topic, feed_topic, schema_message, extract_schema_name, quoted, until,
}
use kv8_metrics.Kv8log.Ctl.{find_key, skip_blanks, strip}
use kv8_metrics.Registry.{Scan, parse_record, scan}
use kv8_metrics.Prelude.Bytes.{Lacks}
use kv8_metrics.Registry.Laws.Parse.{IsReadable}
use kv8_metrics.Registry.Laws.Discovery.{
  Discovered, IsNamed, prefix_of, open-IsNamed, counter-Discovered,
}
use kv8_metrics.Registry.Laws.Feeds.{feed_meta, feed-Discovered, shadowed_feed_lost}

abbrev nothing : Scan
nothing = record { sessions = []; deleted = []; schemas = []; sites = [] }

-- A payload of one byte.
short-unreadable : ¬ IsReadable (7 ∷ [])
short-unreadable r = omega (arith, r.whole)

abbrev tombstone : RegistryRecord
tombstone = record {
  hash = 0;
  counter_id = 0xFFFD;
  flags = 0;
  min_bits = 0;
  alarm_min = 0;
  max_bits = 0;
  alarm_max = 0;
  name_len = 6;
  topic_len = 0;
  version = registry_version;
  pad = 0;
  timer_frequency = 0;
  timer_value = 0;
  time_hi = 0;
  time_lo = 0;
}

tombstone-Fits : Fits tombstone
tombstone-Fits = record {
  hash_fits = omega arith;
  id_fits = omega arith;
  flags_fits = omega arith;
  min_fits = omega arith;
  alarm_min_fits = omega arith;
  max_fits = omega arith;
  alarm_max_fits = omega arith;
  name_fits = omega arith;
  topic_fits = omega arith;
  version_fits = omega arith;
  pad_fits = omega arith;
  frequency_fits = omega arith;
  timer_fits = omega arith;
  hi_fits = omega arith;
  lo_fits = omega arith;
}

abbrev clock : Clock
clock = record { mono = 500; sec = 1; nsec = 0 }

abbrev topics : Bytes → Option ℕ
topics name = some 3

abbrev session : Bytes → Session
session channel = open_session topics channel (codes "x.S1") clock clock clock

id_given : 0 < length (session_of (codes "x.S1"))
unfolding session_of after_dot
id_given = omega arith

named : IsNamed (session (codes "lab"))
named = open-IsNamed topics (codes "lab") (codes "x.S1") clock clock clock id_given

counter_topic-lt : length (counter_topic (session (codes "lab")) 1) < 2 ^ 16
unfolding counter_topic open_session sanitize_channel session_of after_dot hex8 hex4 hex_before
counter_topic-lt = omega arith

counter-Discovered_example :
    Discovered
      (prefix_of (session (codes "lab")))
      (counter_topic (session (codes "lab")) 1)
      (record {
        name = codes "load";
        counter_id = 1;
        flags = 1;
        min_bits = 0;
        alarm_min = 0;
        max_bits = 5;
        alarm_max = 5;
        data_topic = counter_topic (session (codes "lab")) 1;
        is_udt_feed = false;
        schema_hash = 0;
        schema_json = [];
        is_virtual_field = false;
        field_offset = 0;
        field_type = 0;
        display_name = [];
      })
      (parse_record
        (session (codes "lab")).channel_name
        (registry_message
          (session (codes "lab")).group_hash
          1
          1
          0
          5
          0
          0
          0
          0
          (codes "load")
          (counter_topic (session (codes "lab")) 1))
        nothing)
counter-Discovered_example =
    counter-Discovered (session (codes "lab")) 1 0 5 (codes "load") nothing named (omega arith)
      (omega arith) (omega arith) (omega arith) counter_topic-lt

-- The sessions "lab.S1" and "a.d.b.S1".
abbrev other : Bytes → Session
other channel = record (session (codes "lab")) { channel_name = channel; session_id = codes "S1" }

abbrev json : Bytes
json = codes "{'name':'P'}"

extract_name-lt : length (extract_schema_name json) < 2 ^ 16
unfolding extract_schema_name find_key skip_blanks strip quoted until
extract_name-lt = omega arith

feed_topic-lt : length (feed_topic (other (codes "lab")) (fnv32 json) 1) < 2 ^ 16
unfolding feed_topic hex8 hex4 hex_before
feed_topic-lt = omega arith

shadowed_topic-lt : length (feed_topic (other (codes "a.d.b")) (fnv32 json) 1) < 2 ^ 16
unfolding feed_topic hex8 hex4 hex_before
shadowed_topic-lt = omega arith

prefix-Lacks : Lacks 100 (codes "lab.S1")
prefix-Lacks = (
  (λ e. omega arith),
  (
    (λ e. omega arith),
    ((λ e. omega arith), ((λ e. omega arith), ((λ e. omega arith), ((λ e. omega arith), tt)))),
  ),
)

feed-Discovered_example :
    Discovered
      (codes "lab.S1")
      (feed_topic (other (codes "lab")) (fnv32 json) 1)
      (feed_meta 1 (codes "pos") json (feed_topic (other (codes "lab")) (fnv32 json) 1))
      (scan
        (codes "lab")
        (schema_message json
          ∷ registry_message
              (fnv32 json)
              1
              (flag_udt + 1)
              0
              0
              0
              0
              0
              0
              (codes "pos")
              (feed_topic (other (codes "lab")) (fnv32 json) 1)
          ∷ [])
        nothing)
feed-Discovered_example =
    feed-Discovered (other (codes "lab")) 1 (codes "pos") json nothing prefix-Lacks (omega arith)
      (omega arith) (omega arith) (omega arith) extract_name-lt feed_topic-lt

shadowed_feed_lost_example :
    parse_record
      (codes "a.d.b")
      (registry_message
        (fnv32 json)
        1
        (flag_udt + 1)
        0
        0
        0
        0
        0
        0
        (codes "pos")
        (feed_topic (other (codes "a.d.b")) (fnv32 json) 1))
      nothing
    ≡ nothing
shadowed_feed_lost_example =
    shadowed_feed_lost (other (codes "a.d.b")) 1 (codes "a") (codes "b") (codes "pos") json nothing
      refl ((λ e. omega arith), tt) ((λ e. omega arith), ((λ e. omega arith), tt)) (omega arith)
      (omega arith) shadowed_topic-lt
