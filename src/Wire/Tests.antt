-- ===== src/Wire/Tests.antt =====
-- The wire formats on a small call site and a small record.
use kv8_metrics.Prelude.{◌≡◌, refl, some, [], ◌∷◌, ◌++◌, arith}
use kv8_metrics.Prelude.Bytes.{Bytes, codes, AllBytes, field, un_le, le}
use kv8_metrics.Wire.LogSite as LogSite
use kv8_metrics.Wire.LogSite.{
  LogSiteInfo, layout, tail_size, encode_tail, decode_tail, counted_text, advance, decode-encode,
  length-encode, decode_tail_sound,
}
use kv8_metrics.Wire.LogRecord as LogRecord
use kv8_metrics.Wire.LogRecord.{
  LogRecord, IsWellFormed, write_record, decode_log_record, log_magic, log_record_size,
  decode-write, decode_record_sound,
}

abbrev site : LogSiteInfo
site = record { file = codes "a.c"; func = codes "f"; fmt = codes "x=%d"; line = 300 }

abbrev site_bytes : Bytes
site_bytes = 3 ∷ 0 ∷ 97 ∷ 46 ∷ 99 ∷ 44 ∷ 1 ∷ 0 ∷ 0 ∷ 1 ∷ 0 ∷ 102 ∷ 4 ∷ 0 ∷ 120 ∷ 61 ∷ 37 ∷ 100 ∷ []

site-Fits : LogSite.Fits site
site-Fits = record {
  file_fits = omega arith;
  func_fits = omega arith;
  fmt_fits = omega arith;
  line_fits = omega arith;
}

site_encoded : encode_tail site 2048 ≡ some site_bytes
unfolding encode_tail layout tail_size le
site_encoded = refl

site_decoded : decode_tail site_bytes ≡ some site
unfolding decode_tail counted_text advance field un_le
site_decoded = refl

site_bytes-AllBytes : AllBytes site_bytes
site_bytes-AllBytes = ground arith

decode_tail_sound_example :
    LogSite.Fits site × ((rest : Bytes) × (site_bytes ≡ layout site ++ rest))
decode_tail_sound_example = decode_tail_sound site_bytes site site_bytes-AllBytes site_decoded

abbrev header : LogRecord
header = record {
  magic = log_magic;
  site_hash = 77;
  ts_ns = 1000;
  thread_id = 4;
  cpu_id = 2;
  level = 3;
  flags = 1;
  arg_len = 2;
  reserved = 0;
}

header-Fits : LogRecord.Fits header
header-Fits = record {
  magic_fits = omega arith;
  site_fits = omega arith;
  ts_fits = omega arith;
  thread_fits = omega arith;
  cpu_fits = omega arith;
  level_fits = omega arith;
  flags_fits = omega arith;
  arg_fits = omega arith;
  reserved_fits = omega arith;
}

header-IsWellFormed : IsWellFormed header
header-IsWellFormed = record {
  magic_ok = refl;
  level_ok = omega arith;
  reserved_ok = refl;
  arg_ok = omega arith;
}

decode-write_example :
    decode_log_record (write_record header (codes "hi" ++ 0 ∷ [])) ≡ some (header, codes "hi")
decode-write_example =
    decode-write header (codes "hi") (0 ∷ []) header-Fits header-IsWellFormed refl
