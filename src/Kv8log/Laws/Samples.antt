-- ===== src/Kv8log/Laws/Samples.antt =====
-- What the hot paths of libs/kv8log/lib/kv8log_impl.cpp put on the wire.
use kv8_metrics.Prelude.{
  ℕ, ◌+◌, ◌-◌, ◌%◌, ◌^◌, ◌≤◌, ◌<◌, ◌≡◌, refl, sym, ◌∙◌, some, [], length, get_elem?,
  get_elem?-set_self, arith,
}
use kv8_metrics.Prelude.Bytes.{Bytes}
use kv8_metrics.Wire.Header.{
  make_ext_header, make_udt_header, pack_header, pack_header-lt, header_fields, get_ext_type,
  get_ext_subtype, get_ext_size, packet_type_telemetry, tel_type_value, tel_type_udt,
  udt_max_payload,
}
use kv8_metrics.Wire.Sample.{
  TelValue, tel_value_size, read_value, read-write_value, UdtSample, udt_sample_size, read_sample,
  read-write_sample, payload-write_sample, sample_payload, length-write_sample, length-write_value,
}
use kv8_metrics.Kv8log.Session.{Session, Slot}
use kv8_metrics.Kv8log.Emit.{
  send, value_message, udt_message, emit_value, mono_offset, wall_offset, gate, Gate,
}
use kv8_metrics.Kv8log.Control.{monotonic_to_ns}

-- For an id and a sequence number of 16 bits and a time and a value of 64 bits, a scalar message
-- carries the id, the slot's sequence number, the time and the value, and its header says
-- TELEMETRY, VALUE and the length of the message.
pub value_message_lem :
    (id : ℕ) (c : Slot) (timer value : ℕ)
    → id < 2 ^ 16
    → c.seq < 2 ^ 16
    → timer < 2 ^ 64
    → value < 2 ^ 64
    → let p = read_value (value_message id c timer value) in
      (p.id ≡ id)
      × (p.seq ≡ c.seq)
      × (p.timer ≡ timer)
      × (p.value ≡ value)
      × (get_ext_type p.bits ≡ packet_type_telemetry)
      × (get_ext_subtype p.bits ≡ tel_type_value)
      × (get_ext_size p.bits ≡ length (value_message id c timer value))
unfolding value_message make_ext_header
value_message_lem id c timer value hi hs ht hv =
    let p : TelValue = record {
      bits = pack_header 2 tel_value_size;
      id = id;
      seq = c.seq;
      timer = timer;
      value = value;
    } in
    let e = read-write_value p [] (record {
      bits_fits = pack_header-lt 2 tel_value_size (omega arith) (omega arith);
      id_fits = hi;
      seq_fits = hs;
      timer_fits = ht;
      value_fits = hv;
    }) in
    let (type, subtype, size) = header_fields 2 tel_value_size (omega arith) (omega arith) in
    rw e (refl, refl, refl, refl, type, subtype, size ∙ sym (length-write_value p []))

-- For an id and a sequence number of 16 bits, a time of 64 bits and a payload of at most 240
-- bytes, a feed's message carries the id, the slot's sequence number, the time and, behind its
-- 16-byte header, the payload; its header says TELEMETRY, UDT and the length of the message,
-- which is at most 256 bytes.
pub udt_message_lem :
    (id : ℕ) (c : Slot) (timer : ℕ) (payload : Bytes)
    → id < 2 ^ 16
    → c.seq < 2 ^ 16
    → timer < 2 ^ 64
    → length payload ≤ udt_max_payload
    → let m = udt_message id c timer payload in
      let p = read_sample m in
      (p.feed_id ≡ id)
      × (p.seq ≡ c.seq)
      × (p.timer ≡ timer)
      × (sample_payload m ≡ payload)
      × (get_ext_type p.bits ≡ packet_type_telemetry)
      × (get_ext_subtype p.bits ≡ tel_type_udt)
      × (get_ext_size p.bits ≡ length m)
      × (length m ≤ 256)
unfolding udt_message make_udt_header
udt_message_lem id c timer payload hi hs ht hp =
    let n = (udt_sample_size + length payload) % 2 ^ 16 in
    let p : UdtSample = record {
      bits = pack_header tel_type_udt n;
      feed_id = id;
      seq = c.seq;
      timer = timer;
    } in
    let e = read-write_sample p payload (record {
      bits_fits = pack_header-lt tel_type_udt n (omega arith) (omega arith);
      id_fits = hi;
      seq_fits = hs;
      timer_fits = ht;
    }) in
    let (type, subtype, size) = header_fields tel_type_udt n (omega arith) (omega arith) in
    let total = length-write_sample p payload in
    rw e (
      refl,
      refl,
      refl,
      payload-write_sample p payload,
      type,
      subtype,
      omega (arith, size, total),
      omega (arith, total),
    )

gate-send : (s : Session) (id j : ℕ) (c : Slot) (m : Bytes) → gate (send s id c m) j ≡ gate s j
unfolding gate send
gate-send s id j c m = refl

slot-send :
    (s : Session) (id : ℕ) (c : Slot) (m : Bytes)
    → id < length s.counters
    → get_elem? (send s id c m).counters id ≡ some (record c { seq = (c.seq + 1) % 2 ^ 16 })
unfolding send
slot-send s id c m h = get_elem?-set_self s.counters id (record c { seq = (c.seq + 1) % 2 ^ 16 }) h

-- Two samples sent for one counter that is registered and enabled carry consecutive sequence
-- numbers, modulo 2 ^ 16: the second one is sent from a slot that differs in that number only.
pub consecutive :
    (s : Session) (id : ℕ) (c : Slot) (t1 v1 t2 v2 : ℕ)
    → gate s id ≡ Gate.passed
    → get_elem? s.counters id ≡ some c
    → id < length s.counters
    → let s1 = send s id c (value_message id c t1 v1) in
      let next = record c { seq = (c.seq + 1) % 2 ^ 16 } in
      (emit_value s id t1 v1 ≡ some s1)
      × (emit_value s1 id t2 v2 ≡ some (send s1 id next (value_message id next t2 v2)))
unfolding emit_value
consecutive s id c t1 v1 t2 v2 passed e h =
    let s1 = send s id c (value_message id c t1 v1) in
    let next : Slot = record c { seq = (c.seq + 1) % 2 ^ 16 } in
    let passes : gate s1 id ≡ Gate.passed =
      gate-send s id id c (value_message id c t1 v1) ∙ passed in
    let found : get_elem? s1.counters id ≡ some next =
      slot-send s id c (value_message id c t1 v1) h in
    (ground arith, ground (arith, passes, found))

-- A sample stamped with the converted monotonic time carries the same offset as one taken at that
-- time, as long as the wall clock does not wrap.
pub converted_time :
    (s : Session) (mono : ℕ)
    → s.mono_anchor ≤ mono
    → mono < 2 ^ 64
    → s.wall_anchor + (mono - s.mono_anchor) < 2 ^ 64
    → wall_offset s (monotonic_to_ns s mono) ≡ mono_offset s mono
unfolding wall_offset monotonic_to_ns mono_offset
converted_time s mono h k fits = ground arith

-- Times before the session's anchor, by the wall clock, are moved to its start.
pub early_time : (s : Session) (ts : ℕ) → ts ≤ s.wall_anchor → wall_offset s ts ≡ 0
unfolding wall_offset
early_time s ts h = ground arith
