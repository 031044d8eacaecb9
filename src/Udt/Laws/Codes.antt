-- ===== src/Udt/Laws/Codes.antt =====
-- The decoder of libs/libkv8/src/UdtSchemaParser.cpp and its copy in
-- libs/libkv8/include/kv8/Kv8Types.h.
use kv8_metrics.Prelude.{◌≡◌, refl}
use kv8_metrics.Prelude.Bytes.{Bytes}
use kv8_metrics.Udt.Types.{FieldType, wire_size}
use kv8_metrics.Udt.Decode.{Doubles, decode_field, field_code, kv8_wire_size, kv8_decode_field}

-- For every field type, `Kv8DecodeUdtField` and `Kv8UdtFieldWireSize`, given the code of the type,
-- agree with `UdtDecodeField` and `UdtFieldWireSize`, given the type.
pub codes_agree :
    (fl : Doubles) (src : Bytes) (t : FieldType)
    → (kv8_decode_field fl src (field_code t) ≡ decode_field fl src t)
      × (kv8_wire_size (field_code t) ≡ wire_size t)
unfolding field_code kv8_decode_field decode_field kv8_wire_size wire_size
codes_agree fl src FieldType.i8 = (refl, refl)
codes_agree fl src FieldType.rational = (refl, refl)
codes_agree fl src _ = (refl, refl)
