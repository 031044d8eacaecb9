-- ===== src/Udt/Types.antt =====
-- The types of libs/libkv8/src/UdtSchemaParser.h, with the wire sizes and the type tokens of
-- UdtSchemaParser.cpp and `Kv8UdtFieldWireSize` of libs/libkv8/include/kv8/Kv8Types.h.
use kv8_metrics.Prelude.{ℕ, Option, none, some, List, if◌then◌else◌}
use kv8_metrics.Prelude.Bytes.{Bytes, codes}
use kv8_metrics.Prelude.Assoc.{bytes_beq}

pub data FieldType : Type 0 where
  i8 u8 i16 u16 i32 u32 i64 u64 f32 f64 rational : FieldType

-- The limits are bit patterns of doubles.
pub record SchemaField : Type 0 where
  pub name : Bytes
  pub display_name : Bytes
  pub type : FieldType
  pub offset : ℕ
  pub min_val : ℕ
  pub max_val : ℕ

pub record ResolvedSchema : Type 0 where
  pub schema_name : Bytes
  pub hash : ℕ
  pub payload_size : ℕ
  pub fields : List SchemaField

unfoldable pub wire_size : FieldType → ℕ
wire_size FieldType.i8 = 1
wire_size FieldType.u8 = 1
wire_size FieldType.i16 = 2
wire_size FieldType.u16 = 2
wire_size FieldType.i32 = 4
wire_size FieldType.u32 = 4
wire_size FieldType.f32 = 4
wire_size FieldType.i64 = 8
wire_size FieldType.u64 = 8
wire_size FieldType.f64 = 8
wire_size FieldType.rational = 8

unfoldable pub parse_type_token : Bytes → Option FieldType
parse_type_token tok =
    if bytes_beq tok (codes "i8")
    then some FieldType.i8
    else if bytes_beq tok (codes "u8")
    then some FieldType.u8
    else if bytes_beq tok (codes "i16")
    then some FieldType.i16
    else if bytes_beq tok (codes "u16")
    then some FieldType.u16
    else if bytes_beq tok (codes "i32")
    then some FieldType.i32
    else if bytes_beq tok (codes "u32")
    then some FieldType.u32
    else if bytes_beq tok (codes "i64")
    then some FieldType.i64
    else if bytes_beq tok (codes "u64")
    then some FieldType.u64
    else if bytes_beq tok (codes "f32")
    then some FieldType.f32
    else if bytes_beq tok (codes "f64")
    then some FieldType.f64
    else if bytes_beq tok (codes "rat")
    then some FieldType.rational
    else if bytes_beq tok (codes "rational")
    then some FieldType.rational
    else none
