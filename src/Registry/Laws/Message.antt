-- ===== src/Registry/Laws/Message.antt =====
-- The records as `WriteRegistryRecord` builds them, before the consumer.
use kv8_metrics.Prelude.{ℕ, ◌%◌, ◌^◌, ◌<◌, ◌≡◌, refl, length, arith}
use kv8_metrics.Prelude.Bytes.{Bytes}
use kv8_metrics.Prelude.Assoc.{bytes_eq}
use kv8_metrics.Wire.Registry.{RegistryRecord, registry_version}
use kv8_metrics.Kv8log.Session.{registry_message}
use kv8_metrics.Registry.{Scan, parse_record, store_record}
use kv8_metrics.Registry.Laws.Parse.{parse-write}

-- The fixed part of a record that is built from these arguments.
unfoldable pub fields :
    (hash id flags mn mx frequency timer hi lo : ℕ) → Bytes → Bytes → RegistryRecord
fields hash id flags mn mx frequency timer hi lo name topic = record {
  hash = hash;
  counter_id = id;
  flags = flags;
  min_bits = mn;
  alarm_min = mn;
  max_bits = mx;
  alarm_max = mx;
  name_len = length name % 2 ^ 16;
  topic_len = length topic % 2 ^ 16;
  version = registry_version;
  pad = 0;
  timer_frequency = frequency;
  timer_value = timer;
  time_hi = hi;
  time_lo = lo;
}

-- The consumer stores what the producer wrote, for a name and a topic below 64 KiB.
pub message-parsed :
    (hash id flags mn mx : ℕ) (name topic channel : Bytes) (st : Scan)
    → hash < 2 ^ 32
    → id < 2 ^ 16
    → flags < 2 ^ 16
    → mn < 2 ^ 64
    → mx < 2 ^ 64
    → length name < 2 ^ 16
    → length topic < 2 ^ 16
    → parse_record channel (registry_message hash id flags mn mx 0 0 0 0 name topic) st
      ≡ store_record channel (fields hash id flags mn mx 0 0 0 0 name topic) name topic st
unfolding registry_message fields
message-parsed hash id flags mn mx name topic channel st hh hid hf hmn hmx hname htopic =
    parse-write channel name topic (fields hash id flags mn mx 0 0 0 0 name topic) st
      (record {
        hash_fits = hh;
        id_fits = hid;
        flags_fits = hf;
        min_fits = hmn;
        alarm_min_fits = hmn;
        max_fits = hmx;
        alarm_max_fits = hmx;
        name_fits = omega arith;
        topic_fits = omega arith;
        version_fits = omega arith;
        pad_fits = omega arith;
        frequency_fits = omega arith;
        timer_fits = omega arith;
        hi_fits = omega arith;
        lo_fits = omega arith;
      })
      refl (omega arith) (omega arith)
