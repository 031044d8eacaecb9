-- ===== src/Wire/Registry.antt =====
-- KafkaRegistryRecord of libs/libkv8/include/kv8/Kv8Types.h: the fixed part of every record on a
-- channel's `._registry` topic, and the record with its tail as `WriteRegistryRecord` of
-- libs/kv8log/lib/kv8log_impl.cpp builds it. Doubles are their bit patterns.
use kv8_metrics.Prelude.{
  ℕ, ◌+◌, ◌^◌, ◌<◌, ◌≡◌, ap, ◌∙◌, [], ◌++◌, length, length-append, append_assoc, drop, arith,
}
use kv8_metrics.Prelude.Bytes.{Bytes, le, field, skip, length-le, field-le, skip-le, drop-length}

abbrev pub registry_version : ℕ
registry_version = 2

abbrev pub cid_log_site : ℕ
cid_log_site = 0xFFFB

abbrev pub cid_schema : ℕ
cid_schema = 0xFFFC

abbrev pub cid_deleted : ℕ
cid_deleted = 0xFFFD

abbrev pub cid_log : ℕ
cid_log = 0xFFFE

abbrev pub cid_group : ℕ
cid_group = 0xFFFF

abbrev pub flag_udt : ℕ
flag_udt = 2

abbrev pub registry_size : ℕ
registry_size = 72

pub record RegistryRecord : Type 0 where
  pub hash : ℕ
  pub counter_id : ℕ
  pub flags : ℕ
  pub min_bits : ℕ
  pub alarm_min : ℕ
  pub max_bits : ℕ
  pub alarm_max : ℕ
  pub name_len : ℕ
  pub topic_len : ℕ
  pub version : ℕ
  pub pad : ℕ
  pub timer_frequency : ℕ
  pub timer_value : ℕ
  pub time_hi : ℕ
  pub time_lo : ℕ

unfoldable pub write_fixed : RegistryRecord → Bytes → Bytes
write_fixed r rest =
    le 4 r.hash
    ++ (le 2 r.counter_id
        ++ (le 2 r.flags
            ++ (le 8 r.min_bits
                ++ (le 8 r.alarm_min
                    ++ (le 8 r.max_bits
                        ++ (le 8 r.alarm_max
                            ++ (le 2 r.name_len
                                ++ (le 2 r.topic_len
                                    ++ (le 2 r.version
                                        ++ (le 2 r.pad
                                            ++ (le 8 r.timer_frequency
                                                ++ (le 8 r.timer_value
                                                    ++ (le 4 r.time_hi
                                                        ++ (le 4 r.time_lo ++ rest))))))))))))))

-- The record seen through the cast pointer.
unfoldable pub read_fixed : Bytes → RegistryRecord
read_fixed b0 =
    let b1 = skip 4 b0 in
    let b2 = skip 2 b1 in
    let b3 = skip 2 b2 in
    let b4 = skip 8 b3 in
    let b5 = skip 8 b4 in
    let b6 = skip 8 b5 in
    let b7 = skip 8 b6 in
    let b8 = skip 2 b7 in
    let b9 = skip 2 b8 in
    let b10 = skip 2 b9 in
    let b11 = skip 2 b10 in
    let b12 = skip 8 b11 in
    let b13 = skip 8 b12 in
    let b14 = skip 4 b13 in
    record {
      hash = field 4 b0;
      counter_id = field 2 b1;
      flags = field 2 b2;
      min_bits = field 8 b3;
      alarm_min = field 8 b4;
      max_bits = field 8 b5;
      alarm_max = field 8 b6;
      name_len = field 2 b7;
      topic_len = field 2 b8;
      version = field 2 b9;
      pad = field 2 b10;
      timer_frequency = field 8 b11;
      timer_value = field 8 b12;
      time_hi = field 4 b13;
      time_lo = field 4 b14;
    }

pub record Fits (r : RegistryRecord) : Type 0 where
  pub hash_fits : r.hash < 2 ^ 32
  pub id_fits : r.counter_id < 2 ^ 16
  pub flags_fits : r.flags < 2 ^ 16
  pub min_fits : r.min_bits < 2 ^ 64
  pub alarm_min_fits : r.alarm_min < 2 ^ 64
  pub max_fits : r.max_bits < 2 ^ 64
  pub alarm_max_fits : r.alarm_max < 2 ^ 64
  pub name_fits : r.name_len < 2 ^ 16
  pub topic_fits : r.topic_len < 2 ^ 16
  pub version_fits : r.version < 2 ^ 16
  pub pad_fits : r.pad < 2 ^ 16
  pub frequency_fits : r.timer_frequency < 2 ^ 64
  pub timer_fits : r.timer_value < 2 ^ 64
  pub hi_fits : r.time_hi < 2 ^ 32
  pub lo_fits : r.time_lo < 2 ^ 32

pub read-write_fixed :
    (r : RegistryRecord) (rest : Bytes) → Fits r → read_fixed (write_fixed r rest) ≡ r
unfolding read_fixed write_fixed
read-write_fixed r rest f = simp (
  skip-le, field-le, f.hash_fits, f.id_fits, f.flags_fits, f.min_fits, f.alarm_min_fits, f.max_fits,
  f.alarm_max_fits, f.name_fits, f.topic_fits, f.version_fits, f.pad_fits, f.frequency_fits,
  f.timer_fits, f.hi_fits, f.lo_fits,
)

write_fixed-append :
    (r : RegistryRecord) (rest : Bytes) → write_fixed r rest ≡ write_fixed r [] ++ rest
unfolding write_fixed
write_fixed-append r rest = simp append_assoc

length-fixed : (r : RegistryRecord) → length (write_fixed r []) ≡ registry_size
unfolding write_fixed
length-fixed r = simp (length-append, length-le) (omega arith)

pub length-write_fixed :
    (r : RegistryRecord) (rest : Bytes) → length (write_fixed r rest) ≡ registry_size + length rest
length-write_fixed r rest =
    ap length (write_fixed-append r rest)
    ∙ length-append (write_fixed r []) rest
    ∙ ap (λ n. n + length rest) (length-fixed r)

pub drop-write_fixed :
    (r : RegistryRecord) (rest : Bytes) → drop registry_size (write_fixed r rest) ≡ rest
drop-write_fixed r rest =
    ap (drop registry_size) (write_fixed-append r rest)
    ∙ drop-length registry_size (write_fixed r []) rest (length-fixed r)
