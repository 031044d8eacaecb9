-- ===== src/Kv8log/Emit.antt =====
-- The hot paths of libs/kv8log/lib/kv8log_impl.cpp: samples and log records. `none` is an access
-- outside `aEnabled` or `counters`.
use kv8_metrics.Prelude.{
  ℕ, ◌+◌, ◌-◌, ◌%◌, ◌^◌, true, false, Option, none, some, [], ◌∷◌, length, get_elem?, set, take,
  ltb, leb, ◌==◌, if◌then◌else◌,
}
use kv8_metrics.Prelude.Bytes.{Bytes}
use kv8_metrics.Wire.Header.{make_ext_header, make_udt_header, udt_max_payload}
use kv8_metrics.Wire.Sample.{tel_value_size, write_value, udt_sample_size, write_sample}
use kv8_metrics.Wire.LogRecord.{
  LogRecord, write_record, log_magic, log_level_count, log_max_payload,
}
use kv8_metrics.Kv8log.Text.{key_be}
use kv8_metrics.Kv8log.Session.{Session, Slot, Call, log}

-- The guards `id >= next_id` and `!aEnabled[id]`.
pub data Gate : Type 0 where
  fault : Gate
  dropped : Gate
  passed : Gate

unfoldable pub gate : Session → ℕ → Gate
gate s id = if leb s.next_id id then Gate.dropped else elim (get_elem? s.enabled id) [
  | none ↦ Gate.fault
  | some false ↦ Gate.dropped
  | some true ↦ Gate.passed
]

-- `slot.seq.fetch_add(1)`
unfoldable pub next_seq : Session → ℕ → Slot → Session
next_seq s id slot = record s {
  counters = set s.counters id (record slot { seq = (slot.seq + 1) % 2 ^ 16 });
}

-- The counter's sequence number goes up, and its message is handed to its topic.
unfoldable pub send : Session → ℕ → Slot → Bytes → Session
unfolding next_seq
send s id slot message =
    log (next_seq s id slot) (Call.produce_to slot.rkt message (key_be id) ∷ [])

-- The message of a scalar sample.
unfoldable pub value_message : ℕ → Slot → ℕ → ℕ → Bytes
value_message id slot timer value =
    write_value
      (record {
        bits = make_ext_header tel_value_size;
        id = id;
        seq = slot.seq;
        timer = timer;
        value = value;
      })
      []

unfoldable pub emit_value : Session → ℕ → ℕ → ℕ → Option Session
unfolding gate send
emit_value s id timer value = elim (gate s id) [
  | fault ↦ none
  | dropped ↦ some s
  | passed ↦ elim (get_elem? s.counters id) [
    | none ↦ none
    | some slot ↦ some (send s id slot (value_message id slot timer value))
  ]
]

-- `MonoNs() - s->mono_anchor_ns`
unfoldable pub mono_offset : Session → ℕ → ℕ
mono_offset s mono = (mono + 2 ^ 64 - s.mono_anchor) % 2 ^ 64

-- `(ts_ns >= wall_anchor_ns) ? (ts_ns - wall_anchor_ns) : 0`
unfoldable pub wall_offset : Session → ℕ → ℕ
wall_offset s ts = if leb s.wall_anchor ts then (ts - s.wall_anchor) else 0

-- `kv8log_add`, at the reading `mono` of the monotonic clock; `value` is the double's bit pattern.
unfoldable pub add : Session → ℕ → ℕ → ℕ → Option Session
unfolding emit_value mono_offset
add s id value mono = emit_value s id (mono_offset s mono) value

-- `kv8log_add_ts`
unfoldable pub add_ts : Session → ℕ → ℕ → ℕ → Option Session
unfolding emit_value wall_offset
add_ts s id value ts = emit_value s id (wall_offset s ts) value

-- The message of a UDT sample.
unfoldable pub udt_message : ℕ → Slot → ℕ → Bytes → Bytes
udt_message id slot timer payload =
    write_sample
      (record {
        bits = make_udt_header ((udt_sample_size + length payload) % 2 ^ 16);
        feed_id = id;
        seq = slot.seq;
        timer = timer;
      })
      payload

unfoldable pub emit_udt : Session → ℕ → ℕ → Bytes → Option Session
unfolding gate send
emit_udt s id timer payload = elim (gate s id) [
  | fault ↦ none
  | dropped ↦ some s
  | passed ↦
      if ltb udt_max_payload (length payload) then some s else elim (get_elem? s.counters id) [
        | none ↦ none
        | some slot ↦ some (send s id slot (udt_message id slot timer payload))
      ]
]

-- `kv8log_add_udt`
unfoldable pub add_udt : Session → ℕ → Bytes → ℕ → Option Session
unfolding emit_udt mono_offset
add_udt s id payload mono = emit_udt s id (mono_offset s mono) payload

-- `kv8log_add_udt_ts`
unfoldable pub add_udt_ts : Session → ℕ → Bytes → ℕ → Option Session
unfolding emit_udt wall_offset
add_udt_ts s id payload ts = emit_udt s id (wall_offset s ts) payload

-- The header of a log record. Time, thread and core are those of the caller.
unfoldable pub log_header : ℕ → ℕ → ℕ → ℕ → ℕ → ℕ → ℕ → LogRecord
log_header hash level flags len wall thread cpu = record {
  magic = log_magic;
  site_hash = hash;
  ts_ns = wall;
  thread_id = thread;
  cpu_id = cpu;
  level = level;
  flags = flags;
  arg_len = len;
  reserved = 0;
}

-- `if (payload_len > KV8_LOG_MAX_PAYLOAD) payload_len = KV8_LOG_MAX_PAYLOAD`
unfoldable pub cut_length : ℕ → ℕ
cut_length n = if ltb log_max_payload n then log_max_payload else n

-- The header and the payload as they are copied to the buffer.
unfoldable pub log_message : ℕ → ℕ → Bytes → ℕ → ℕ → ℕ → ℕ → Bytes
log_message hash level payload flags wall thread cpu =
    let len = cut_length (length payload) in
    write_record (log_header hash level flags len wall thread cpu) (take len payload)

-- `kv8log_log`, for a payload that is given.
unfoldable pub log_text : Session → ℕ → ℕ → Bytes → ℕ → ℕ → ℕ → ℕ → Session
log_text s hash level payload flags wall thread cpu = if hash == 0 then s else elim s.log_rkt [
  | none ↦ s
  | some handle ↦
      if leb log_level_count level
      then s
      else log s (
          Call.produce_to (some handle) (log_message hash level payload flags wall thread cpu) []
          ∷ [])
]
