-- ===== src/Wire/LogRecord.antt =====
-- One trace log record of libs/libkv8/include/kv8/Kv8Types.h: the 28-byte packed header, with the
-- payload that follows it, and `Kv8DecodeLogRecord`.
use kv8_metrics.Prelude.{
  ℕ, ◌+◌, ◌^◌, ◌<◌, ◌≤◌, ◌≡◌, sym, ap, ◌∙◌, Bool, true, false, Option, none, some, [], ◌++◌, length,
  length-append, append_assoc, take, drop, length-take, length-drop, subst, ◌==◌, ltb, leb,
  if◌then◌else◌, arith, not,
}
use kv8_metrics.Prelude.Bytes.{
  Bytes, le, field, skip, length-le, field-le, skip-le, take-length, drop-length,
}

abbrev pub log_magic : ℕ
log_magic = 0x4B563854

abbrev pub log_level_count : ℕ
log_level_count = 5

abbrev pub log_max_payload : ℕ
log_max_payload = 4095

abbrev pub log_flag_text : ℕ
log_flag_text = 1

abbrev pub log_record_size : ℕ
log_record_size = 28

-- Kv8LogRecord
pub record LogRecord : Type 0 where
  pub magic : ℕ
  pub site_hash : ℕ
  pub ts_ns : ℕ
  pub thread_id : ℕ
  pub cpu_id : ℕ
  pub level : ℕ
  pub flags : ℕ
  pub arg_len : ℕ
  pub reserved : ℕ

-- The struct in memory (`#pragma pack(push, 1)`), in front of `rest`.
unfoldable pub write_record : LogRecord → Bytes → Bytes
write_record h rest =
    le 4 h.magic
    ++ (le 4 h.site_hash
        ++ (le 8 h.ts_ns
            ++ (le 4 h.thread_id
                ++ (le 2 h.cpu_id
                    ++ (le 1 h.level
                        ++ (le 1 h.flags ++ (le 2 h.arg_len ++ (le 2 h.reserved ++ rest))))))))

-- `memcpy(&outHeader, pData, sizeof(Kv8LogRecord))`
unfoldable pub read_record : Bytes → LogRecord
read_record b0 =
    let b1 = skip 4 b0 in
    let b2 = skip 4 b1 in
    let b3 = skip 8 b2 in
    let b4 = skip 4 b3 in
    let b5 = skip 2 b4 in
    let b6 = skip 1 b5 in
    let b7 = skip 1 b6 in
    let b8 = skip 2 b7 in
    record {
      magic = field 4 b0;
      site_hash = field 4 b1;
      ts_ns = field 8 b2;
      thread_id = field 4 b3;
      cpu_id = field 2 b4;
      level = field 1 b5;
      flags = field 1 b6;
      arg_len = field 2 b7;
      reserved = field 2 b8;
    }

-- The tests on the header, in the order of the code.
unfoldable pub accepts : LogRecord → ℕ → Bool
accepts h size =
    if not (h.magic == log_magic)
    then false
    else if leb log_level_count h.level
    then false
    else if not (h.reserved == 0)
    then false
    else if ltb log_max_payload h.arg_len
    then false
    else if ltb size (log_record_size + h.arg_len)
    then false
    else true

-- `outHeader` and `outPayload`, or false.
unfoldable pub decode_log_record : Bytes → Option (LogRecord × Bytes)
decode_log_record bytes =
    if ltb (length bytes) log_record_size
    then none
    else let h = read_record bytes in
      if accepts h (length bytes)
      then some (h, take h.arg_len (drop log_record_size bytes))
      else none

-- Each field fits its width.
pub record Fits (h : LogRecord) : Type 0 where
  pub magic_fits : h.magic < 2 ^ 32
  pub site_fits : h.site_hash < 2 ^ 32
  pub ts_fits : h.ts_ns < 2 ^ 64
  pub thread_fits : h.thread_id < 2 ^ 32
  pub cpu_fits : h.cpu_id < 2 ^ 16
  pub level_fits : h.level < 2 ^ 8
  pub flags_fits : h.flags < 2 ^ 8
  pub arg_fits : h.arg_len < 2 ^ 16
  pub reserved_fits : h.reserved < 2 ^ 16

-- What the decoder promises of a header.
pub record IsWellFormed (h : LogRecord) : Type 0 where
  pub magic_ok : h.magic ≡ log_magic
  pub level_ok : h.level < log_level_count
  pub reserved_ok : h.reserved ≡ 0
  pub arg_ok : h.arg_len ≤ log_max_payload

read-write : (h : LogRecord) (rest : Bytes) → Fits h → read_record (write_record h rest) ≡ h
unfolding read_record write_record
read-write h rest f = simp (
  skip-le, field-le, f.magic_fits, f.site_fits, f.ts_fits, f.thread_fits, f.cpu_fits, f.level_fits,
  f.flags_fits, f.arg_fits, f.reserved_fits,
)

write_record-append :
    (h : LogRecord) (rest : Bytes) → write_record h rest ≡ write_record h [] ++ rest
unfolding write_record
write_record-append h rest = simp append_assoc

pub length-write_record : (h : LogRecord) → length (write_record h []) ≡ log_record_size
unfolding write_record
length-write_record h = simp (length-append, length-le) (omega arith)

length-write :
    (h : LogRecord) (rest : Bytes) → length (write_record h rest) ≡ log_record_size + length rest
length-write h rest =
    ap length (write_record-append h rest)
    ∙ length-append (write_record h []) rest
    ∙ ap (λ n. n + length rest) (length-write_record h)

drop-write : (h : LogRecord) (rest : Bytes) → drop log_record_size (write_record h rest) ≡ rest
drop-write h rest =
    ap (drop log_record_size) (write_record-append h rest)
    ∙ drop-length log_record_size (write_record h []) rest (length-write_record h)

accepted :
    (h : LogRecord) (n : ℕ) → IsWellFormed h → log_record_size + h.arg_len ≤ n → accepts h n ≡ true
unfolding accepts
accepted h n v room = ground arith

accepts-IsWellFormed :
    (h : LogRecord) (n : ℕ)
    → accepts h n ≡ true
    → IsWellFormed h × (log_record_size + h.arg_len ≤ n)
unfolding accepts
accepts-IsWellFormed h n e = ground arith

-- A well-formed record whose fields fit their widths, with a payload of the declared length, is
-- decoded to itself, whatever bytes follow it.
pub decode-write :
    (h : LogRecord) (payload extra : Bytes)
    → Fits h
    → IsWellFormed h
    → length payload ≡ h.arg_len
    → decode_log_record (write_record h (payload ++ extra)) ≡ some (h, payload)
unfolding decode_log_record
decode-write h payload extra f v e =
    let n = length-write h (payload ++ extra) in
    let room = length-append payload extra in
    ground (
      arith,
      n,
      room,
      read-write h (payload ++ extra) f,
      accepted h (length (write_record h (payload ++ extra))) v (omega (arith, n, room)),
      drop-write h (payload ++ extra),
      take-length h.arg_len payload extra e,
    )

-- A record is accepted only if its header is well formed; the payload then has the declared length
-- and lies, complete, behind the header.
pub decode_record_sound :
    (bytes : Bytes) (h : LogRecord) (payload : Bytes)
    → decode_log_record bytes ≡ some (h, payload)
    → IsWellFormed h
      × (length payload ≡ h.arg_len)
      × (payload ≡ take h.arg_len (drop log_record_size bytes))
      × (log_record_size + h.arg_len ≤ length bytes)
unfolding decode_log_record
decode_record_sound bytes h payload e =
    let r = read_record bytes in
    let same : r ≡ h = ground arith in
    let ok : accepts r (length bytes) ≡ true = ground arith in
    let cut : take r.arg_len (drop log_record_size bytes) ≡ payload = ground arith in
    let (v, room) = accepts-IsWellFormed r (length bytes) ok in
    let size : length payload ≡ r.arg_len =
      ap length (sym cut)
      ∙ length-take r.arg_len (drop log_record_size bytes)
      ∙ omega (arith, length-drop log_record_size bytes) in
    subst
      (λ g.
        IsWellFormed g
        × (length payload ≡ g.arg_len)
        × (payload ≡ take g.arg_len (drop log_record_size bytes))
        × (log_record_size + g.arg_len ≤ length bytes))
      same (v, size, sym cut, room)
