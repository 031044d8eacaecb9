-- ===== src/Udt/Decode.antt =====
-- `UdtDecodeField` of libs/libkv8/src/UdtSchemaParser.cpp. A double is its bit pattern; the
-- conversions to it and the division are arguments.
use kv8_metrics.Prelude.{ℕ, ◌==◌, ◌||◌, if◌then◌else◌}
use kv8_metrics.Prelude.Bytes.{Bytes, field, skip}
use kv8_metrics.Prelude.Int.{ℤ, signed}
use kv8_metrics.Udt.Types.{FieldType}

-- `(double)v` of an integer and of a float, and the division of doubles.
pub record Doubles : Type 0 where
  pub of_int : ℤ → ℕ
  pub of_float : ℕ → ℕ
  pub divide : ℕ → ℕ → ℕ

module _ (fl : Doubles) where
  unfoldable pub decode_field : Bytes → FieldType → ℕ
  unfolding signed field skip
  decode_field src FieldType.i8 = fl.of_int (signed 8 (field 1 src))
  decode_field src FieldType.u8 = fl.of_int (ℤ.pos (field 1 src))
  decode_field src FieldType.i16 = fl.of_int (signed 16 (field 2 src))
  decode_field src FieldType.u16 = fl.of_int (ℤ.pos (field 2 src))
  decode_field src FieldType.i32 = fl.of_int (signed 32 (field 4 src))
  decode_field src FieldType.u32 = fl.of_int (ℤ.pos (field 4 src))
  decode_field src FieldType.i64 = fl.of_int (signed 64 (field 8 src))
  decode_field src FieldType.u64 = fl.of_int (ℤ.pos (field 8 src))
  decode_field src FieldType.f32 = fl.of_float (field 4 src)
  decode_field src FieldType.f64 = field 8 src
  decode_field src FieldType.rational =
      let num = signed 32 (field 4 src) in
      let den = field 4 (skip 4 src) in
      if den == 0 then 0 else fl.divide (fl.of_int num) (fl.of_int (ℤ.pos den))

-- The cast to uint8_t of a field type: its place in the enumeration.
unfoldable pub field_code : FieldType → ℕ
field_code FieldType.i8 = 0
field_code FieldType.u8 = 1
field_code FieldType.i16 = 2
field_code FieldType.u16 = 3
field_code FieldType.i32 = 4
field_code FieldType.u32 = 5
field_code FieldType.i64 = 6
field_code FieldType.u64 = 7
field_code FieldType.f32 = 8
field_code FieldType.f64 = 9
field_code FieldType.rational = 10

-- `Kv8UdtFieldWireSize` of libs/libkv8/include/kv8/Kv8Types.h.
unfoldable pub kv8_wire_size : ℕ → ℕ
kv8_wire_size n =
    if n == 0 || n == 1
    then 1
    else if n == 2 || n == 3
    then 2
    else if n == 4 || n == 5 || n == 8
    then 4
    else if n == 6 || n == 7 || n == 9 || n == 10
    then 8
    else 0

-- `Kv8DecodeUdtField` of the same file, on the code of a field type.
module _ (fl : Doubles) where
  unfoldable pub kv8_decode_field : Bytes → ℕ → ℕ
  unfolding signed field skip
  kv8_decode_field src n =
      let num = signed 32 (field 4 src) in
      let den = field 4 (skip 4 src) in
      if n == 0
      then fl.of_int (signed 8 (field 1 src))
      else if n == 1
      then fl.of_int (ℤ.pos (field 1 src))
      else if n == 2
      then fl.of_int (signed 16 (field 2 src))
      else if n == 3
      then fl.of_int (ℤ.pos (field 2 src))
      else if n == 4
      then fl.of_int num
      else if n == 5
      then fl.of_int (ℤ.pos (field 4 src))
      else if n == 6
      then fl.of_int (signed 64 (field 8 src))
      else if n == 7
      then fl.of_int (ℤ.pos (field 8 src))
      else if n == 8
      then fl.of_float (field 4 src)
      else if n == 9
      then field 8 src
      else if n == 10
      then (if den == 0 then 0 else fl.divide (fl.of_int num) (fl.of_int (ℤ.pos den)))
      else 0
