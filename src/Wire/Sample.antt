-- ===== src/Wire/Sample.antt =====
-- The telemetry messages of libs/libkv8/include/kv8/Kv8Types.h: Kv8TelValue (24 bytes) and the
-- 16-byte header Kv8UDTSample. Packed to 2 bytes, their fields follow one another without gaps.
use kv8_metrics.Prelude.{ℕ, ◌+◌, ◌^◌, ◌<◌, ◌≡◌, ◌++◌, length, length-append, arith}
use kv8_metrics.Prelude.Bytes.{Bytes, le, field, skip, length-le, field-le, skip-le}

-- The last field is the bit pattern of a double.
pub record TelValue : Type 0 where
  pub bits : ℕ
  pub id : ℕ
  pub seq : ℕ
  pub timer : ℕ
  pub value : ℕ

abbrev pub tel_value_size : ℕ
tel_value_size = 24

unfoldable pub write_value : TelValue → Bytes → Bytes
write_value p rest =
    le 4 p.bits ++ (le 2 p.id ++ (le 2 p.seq ++ (le 8 p.timer ++ (le 8 p.value ++ rest))))

unfoldable pub read_value : Bytes → TelValue
read_value b0 =
    let b1 = skip 4 b0 in
    let b2 = skip 2 b1 in
    let b3 = skip 2 b2 in
    let b4 = skip 8 b3 in
    record {
      bits = field 4 b0;
      id = field 2 b1;
      seq = field 2 b2;
      timer = field 8 b3;
      value = field 8 b4;
    }

pub record ValueFits (p : TelValue) : Type 0 where
  pub bits_fits : p.bits < 2 ^ 32
  pub id_fits : p.id < 2 ^ 16
  pub seq_fits : p.seq < 2 ^ 16
  pub timer_fits : p.timer < 2 ^ 64
  pub value_fits : p.value < 2 ^ 64

pub read-write_value :
    (p : TelValue) (rest : Bytes) → ValueFits p → read_value (write_value p rest) ≡ p
unfolding read_value write_value
read-write_value p rest f =
    simp (skip-le, field-le, f.bits_fits, f.id_fits, f.seq_fits, f.timer_fits, f.value_fits)

pub length-write_value :
    (p : TelValue) (rest : Bytes) → length (write_value p rest) ≡ tel_value_size + length rest
unfolding write_value
length-write_value p rest = simp (length-append, length-le) (omega arith)

pub record UdtSample : Type 0 where
  pub bits : ℕ
  pub feed_id : ℕ
  pub seq : ℕ
  pub timer : ℕ

abbrev pub udt_sample_size : ℕ
udt_sample_size = 16

unfoldable pub write_sample : UdtSample → Bytes → Bytes
write_sample p rest = le 4 p.bits ++ (le 2 p.feed_id ++ (le 2 p.seq ++ (le 8 p.timer ++ rest)))

unfoldable pub read_sample : Bytes → UdtSample
read_sample b0 =
    let b1 = skip 4 b0 in
    let b2 = skip 2 b1 in
    let b3 = skip 2 b2 in
    record { bits = field 4 b0; feed_id = field 2 b1; seq = field 2 b2; timer = field 8 b3 }

-- The payload behind the header.
unfoldable pub sample_payload : Bytes → Bytes
sample_payload b = skip 8 (skip 2 (skip 2 (skip 4 b)))

pub record SampleFits (p : UdtSample) : Type 0 where
  pub bits_fits : p.bits < 2 ^ 32
  pub id_fits : p.feed_id < 2 ^ 16
  pub seq_fits : p.seq < 2 ^ 16
  pub timer_fits : p.timer < 2 ^ 64

pub read-write_sample :
    (p : UdtSample) (rest : Bytes) → SampleFits p → read_sample (write_sample p rest) ≡ p
unfolding read_sample write_sample
read-write_sample p rest f =
    simp (skip-le, field-le, f.bits_fits, f.id_fits, f.seq_fits, f.timer_fits)

pub payload-write_sample :
    (p : UdtSample) (rest : Bytes) → sample_payload (write_sample p rest) ≡ rest
unfolding sample_payload write_sample
payload-write_sample p rest = simp skip-le

pub length-write_sample :
    (p : UdtSample) (rest : Bytes) → length (write_sample p rest) ≡ udt_sample_size + length rest
unfolding write_sample
length-write_sample p rest = simp (length-append, length-le) (omega arith)
