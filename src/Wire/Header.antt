-- ===== src/Wire/Header.antt =====
-- The extension header word of libs/libkv8/include/kv8/Kv8Types.h, and the packing of it in
-- libs/kv8log/lib/kv8log_impl.cpp (`MakeExtHeader` and the UDT variant of it).
use Prim.Native.Nat.{bit_and, bit_or}
use native.Mathlib.Nat.{mod-eq_of_lt}
use kv8_metrics.Prelude.{ℕ, ◌+◌, ◌-◌, ◌*◌, ◌/◌, ◌%◌, ◌^◌, ◌<◌, ◌≡◌, ap, ◌∙◌, arith}
use kv8_metrics.Prelude.Bits.{bit_and_mask, bit_or_join}

abbrev pub ext_type_bits : ℕ
ext_type_bits = 5

abbrev pub ext_subtype_bits : ℕ
ext_subtype_bits = 5

abbrev pub packet_type_telemetry : ℕ
packet_type_telemetry = 2

abbrev pub tel_type_value : ℕ
tel_type_value = 2

abbrev pub tel_type_udt : ℕ
tel_type_udt = 5

abbrev pub udt_max_payload : ℕ
udt_max_payload = 240

-- `h.dwBits & ((1u << KV8_EXT_TYPE_BITS) - 1u)`
unfoldable pub get_ext_type : ℕ → ℕ
get_ext_type bits = bit_and bits (2 ^ ext_type_bits - 1)

unfoldable pub get_ext_subtype : ℕ → ℕ
get_ext_subtype bits = bit_and (bits / 2 ^ ext_type_bits) (2 ^ ext_subtype_bits - 1)

unfoldable pub get_ext_size : ℕ → ℕ
get_ext_size bits = bits / 2 ^ (ext_type_bits + ext_subtype_bits)

-- `2u | (subtype << 5) | (size << 10)` in 32 bits.
unfoldable pub pack_header : ℕ → ℕ → ℕ
pack_header subtype size = bit_or (bit_or 2 (subtype * 2 ^ 5 % 2 ^ 32)) (size * 2 ^ 10 % 2 ^ 32)

unfoldable pub make_ext_header : ℕ → ℕ
unfolding pack_header
make_ext_header size = pack_header 2 size

unfoldable pub make_udt_header : ℕ → ℕ
unfolding pack_header
make_udt_header size = pack_header tel_type_udt size

pack_header_lem :
    (subtype size : ℕ)
    → subtype < 32
    → size < 2 ^ 22
    → pack_header subtype size ≡ 2 + subtype * 32 + size * 1024
unfolding pack_header
pack_header_lem subtype size hs hz =
    ap (λ t. bit_or (bit_or 2 t) (size * 2 ^ 10 % 2 ^ 32))
      (mod-eq_of_lt {n = subtype * 2 ^ 5} {m = 2 ^ 32} (omega arith))
    ∙ ap (λ t. bit_or (bit_or 2 (subtype * 2 ^ 5)) t)
        (mod-eq_of_lt {n = size * 2 ^ 10} {m = 2 ^ 32} (omega arith))
    ∙ ap (λ t. bit_or t (size * 2 ^ 10)) (bit_or_join 5 2 subtype (omega arith))
    ∙ bit_or_join 10 (2 + subtype * 2 ^ 5) size (omega arith)

pub pack_header-lt :
    (subtype size : ℕ) → subtype < 32 → size < 2 ^ 22 → pack_header subtype size < 2 ^ 32
pack_header-lt subtype size hs hz = omega (arith, pack_header_lem subtype size hs hz)

-- The three fields of a packed header are read back: the type is TELEMETRY, and sub-type and size
-- are those given, for each sub-type of 5 bits and size of 22 bits.
pub header_fields :
    (subtype size : ℕ)
    → subtype < 32
    → size < 2 ^ 22
    → (get_ext_type (pack_header subtype size) ≡ packet_type_telemetry)
      × (get_ext_subtype (pack_header subtype size) ≡ subtype)
      × (get_ext_size (pack_header subtype size) ≡ size)
unfolding get_ext_type get_ext_subtype get_ext_size
header_fields subtype size hs hz =
    let e = pack_header_lem subtype size hs hz in
    (
      omega (arith, e, bit_and_mask (pack_header subtype size) 5),
      omega (arith, e, bit_and_mask (pack_header subtype size / 2 ^ 5) 5),
      omega (arith, e),
    )
