-- ===== src/Udt/Laws/Packing.antt =====
-- The packed struct of KV8_UDT.h and the offsets that `ParseUdtSchema` of
-- libs/libkv8/src/UdtSchemaParser.cpp computes are the same layout.
use kv8_metrics.Prelude.{
  ℕ, zero, suc, ◌*◌, ◌^◌, ◌<◌, ◌-◌, ◌≡◌, refl, sym, ap, ◌∙◌, subst, Option, List, [], ◌∷◌, ◌++◌,
  length, length-append, append_assoc, append-nil, arith,
}
use kv8_metrics.Prelude.Bytes.{Bytes, le, field, skip, field-le, skip-le, drop-length, length-le}
use native.Mathlib.Nat.{pow-suc}
use kv8_metrics.Udt.Outcome.{done}
use kv8_metrics.Udt.Types.{FieldType, SchemaField, ResolvedSchema, wire_size}
use kv8_metrics.Udt.Decode.{Doubles, decode_field}
use kv8_metrics.Prelude.Int.{ℤ, signed}
use kv8_metrics.Udt.Laws.Layout.{Packed, total_size, parse-Packed}
use kv8_metrics.Udt.Schema.{parse_udt_schema}

-- What the program stores in one member of the struct.
pub data Stored : FieldType → Type 0 where
  int8 : ℤ → Stored FieldType.i8
  uint8 : ℕ → Stored FieldType.u8
  int16 : ℤ → Stored FieldType.i16
  uint16 : ℕ → Stored FieldType.u16
  int32 : ℤ → Stored FieldType.i32
  uint32 : ℕ → Stored FieldType.u32
  int64 : ℤ → Stored FieldType.i64
  uint64 : ℕ → Stored FieldType.u64
  single : (bits : ℕ) → Stored FieldType.f32
  double : (bits : ℕ) → Stored FieldType.f64
  ratio : (num : ℤ) (den : ℕ) → Stored FieldType.rational

-- The two's complement of an integer in `w` bits.
abbrev pub twos : ℕ → ℤ → ℕ
twos w (ℤ.pos n) = n
twos w (ℤ.negsuc n) = 2 ^ w - 1 - n

abbrev pub InRange : ℕ → ℤ → Type 0
InRange w (ℤ.pos n) = n < 2 ^ (w - 1)
InRange w (ℤ.negsuc n) = n < 2 ^ (w - 1)

pow_halves : (w : ℕ) → 0 < w → 2 ^ w ≡ 2 * 2 ^ (w - 1)
pow_halves w hw =
    ap (λ k. 2 ^ k) {x = w} {y = suc (w - 1)} (omega arith) ∙ pow-suc 2 (w - 1) ∙ omega arith

signed-twos : (w : ℕ) (z : ℤ) → InRange w z → 0 < w → signed w (twos w z) ≡ z
unfolding signed
signed-twos w (ℤ.pos n) h hw = ground arith
signed-twos w (ℤ.negsuc n) h hw = ground (arith, pow_halves w hw)

abbrev pub bytes_of : {t : FieldType} → Stored t → Bytes
bytes_of (int8 z) = le 1 (twos 8 z)
bytes_of (uint8 n) = le 1 n
bytes_of (int16 z) = le 2 (twos 16 z)
bytes_of (uint16 n) = le 2 n
bytes_of (int32 z) = le 4 (twos 32 z)
bytes_of (uint32 n) = le 4 n
bytes_of (int64 z) = le 8 (twos 64 z)
bytes_of (uint64 n) = le 8 n
bytes_of (single bits) = le 4 bits
bytes_of (double bits) = le 8 bits
bytes_of (ratio num den) = le 4 (twos 32 num) ++ le 4 den

-- The value has the type of the member.
abbrev pub Fits : {t : FieldType} → Stored t → Type 0
Fits (int8 z) = InRange 8 z
Fits (uint8 n) = n < 2 ^ 8
Fits (int16 z) = InRange 16 z
Fits (uint16 n) = n < 2 ^ 16
Fits (int32 z) = InRange 32 z
Fits (uint32 n) = n < 2 ^ 32
Fits (int64 z) = InRange 64 z
Fits (uint64 n) = n < 2 ^ 64
Fits (single bits) = bits < 2 ^ 32
Fits (double bits) = bits < 2 ^ 64
Fits (ratio num den) = InRange 32 num × (den < 2 ^ 32)

-- As a double; a ratio with denominator 0 counts as 0.
abbrev pub value_of : Doubles → {t : FieldType} → Stored t → ℕ
value_of fl (int8 z) = fl.of_int z
value_of fl (uint8 n) = fl.of_int (ℤ.pos n)
value_of fl (int16 z) = fl.of_int z
value_of fl (uint16 n) = fl.of_int (ℤ.pos n)
value_of fl (int32 z) = fl.of_int z
value_of fl (uint32 n) = fl.of_int (ℤ.pos n)
value_of fl (int64 z) = fl.of_int z
value_of fl (uint64 n) = fl.of_int (ℤ.pos n)
value_of fl (single bits) = fl.of_float bits
value_of fl (double bits) = bits
value_of fl (ratio num zero) = 0
value_of fl (ratio num (suc d)) = fl.divide (fl.of_int num) (fl.of_int (ℤ.pos (suc d)))

length-bytes_of : {t : FieldType} (v : Stored t) → length (bytes_of v) ≡ wire_size t
unfolding wire_size
length-bytes_of (int8 z) = length-le 1 (twos 8 z)
length-bytes_of (uint8 n) = length-le 1 n
length-bytes_of (int16 z) = length-le 2 (twos 16 z)
length-bytes_of (uint16 n) = length-le 2 n
length-bytes_of (int32 z) = length-le 4 (twos 32 z)
length-bytes_of (uint32 n) = length-le 4 n
length-bytes_of (int64 z) = length-le 8 (twos 64 z)
length-bytes_of (uint64 n) = length-le 8 n
length-bytes_of (single bits) = length-le 4 bits
length-bytes_of (double bits) = length-le 8 bits
length-bytes_of (ratio num den) = omega (
  arith,
  length-append (le 4 (twos 32 num)) (le 4 den),
  length-le 4 (twos 32 num),
  length-le 4 den,
)

twos-lt : (w : ℕ) (z : ℤ) → 0 < w → InRange w z → twos w z < 2 ^ w
twos-lt w (ℤ.pos n) hw h = omega (arith, pow_halves w hw)
twos-lt w (ℤ.negsuc n) hw h = omega (arith, pow_halves w hw)

signed-field :
    (k : ℕ) (z : ℤ) (rest : Bytes)
    → 0 < k
    → 2 ^ (8 * k) ≡ 256 ^ k
    → InRange (8 * k) z
    → signed (8 * k) (field k (le k (twos (8 * k) z) ++ rest)) ≡ z
signed-field k z rest hk bits h =
    ap (signed (8 * k))
      (field-le k (twos (8 * k) z) rest (omega (arith, bits, twos-lt (8 * k) z (omega arith) h)))
    ∙ signed-twos (8 * k) z h (omega arith)

module _ (num : ℤ) (den : ℕ) (rest : Bytes) where
  numerator : InRange 32 num → signed 32 (field 4 (le 4 (twos 32 num) ++ le 4 den ++ rest)) ≡ num
  numerator h =
      ap (λ s. signed 32 (field 4 s)) (append_assoc (le 4 (twos 32 num)) (le 4 den) rest)
      ∙ signed-field 4 num (le 4 den ++ rest) (omega arith) refl h

  denominator : den < 2 ^ 32 → field 4 (skip 4 (le 4 (twos 32 num) ++ le 4 den ++ rest)) ≡ den
  denominator h =
      ap (λ s. field 4 (skip 4 s)) (append_assoc (le 4 (twos 32 num)) (le 4 den) rest)
      ∙ ap (field 4) (skip-le 4 (twos 32 num) (le 4 den ++ rest))
      ∙ field-le 4 den rest h

decode-bytes_of :
    (fl : Doubles) {t : FieldType} (v : Stored t) (rest : Bytes)
    → Fits v
    → decode_field fl (bytes_of v ++ rest) t ≡ value_of fl v
unfolding decode_field
decode-bytes_of fl (int8 z) rest h = ap fl.of_int (signed-field 1 z rest (omega arith) refl h)
decode-bytes_of fl (uint8 n) rest h = ap (λ v. fl.of_int (ℤ.pos v)) (field-le 1 n rest h)
decode-bytes_of fl (int16 z) rest h = ap fl.of_int (signed-field 2 z rest (omega arith) refl h)
decode-bytes_of fl (uint16 n) rest h = ap (λ v. fl.of_int (ℤ.pos v)) (field-le 2 n rest h)
decode-bytes_of fl (int32 z) rest h = ap fl.of_int (signed-field 4 z rest (omega arith) refl h)
decode-bytes_of fl (uint32 n) rest h = ap (λ v. fl.of_int (ℤ.pos v)) (field-le 4 n rest h)
decode-bytes_of fl (int64 z) rest h = ap fl.of_int (signed-field 8 z rest (omega arith) refl h)
decode-bytes_of fl (uint64 n) rest h = ap (λ v. fl.of_int (ℤ.pos v)) (field-le 8 n rest h)
decode-bytes_of fl (single bits) rest h = ap fl.of_float (field-le 4 bits rest h)
decode-bytes_of fl (double bits) rest h = field-le 8 bits rest h
decode-bytes_of fl (ratio num zero) rest h = rw (denominator num 0 rest h.1) refl
decode-bytes_of fl (ratio num (suc d)) rest h =
    rw (denominator num (suc d) rest h.1, numerator num (suc d) rest h.0) (ground arith)

-- The members of a struct, in order.
pub data Struct : List SchemaField → Type 0 where
  no_more : Struct []
  member : {f : SchemaField} {fs : List SchemaField} → Stored f.type → Struct fs → Struct (f ∷ fs)

-- The struct in memory, without padding.
abbrev pub pack : {fs : List SchemaField} → Struct fs → Bytes
pack no_more = []
pack (member v s) = bytes_of v ++ pack s

abbrev pub AllFit : {fs : List SchemaField} → Struct fs → Type 0
AllFit no_more = Unit {0}
AllFit (member v s) = Fits v × AllFit s

-- Each field, decoded at its offset, is the member that it belongs to.
abbrev pub Decoded : Doubles → Bytes → {fs : List SchemaField} → Struct fs → Type 0
Decoded fl payload no_more = Unit {0}
Decoded fl payload (member {f} v s) =
    (decode_field fl (skip f.offset payload) f.type ≡ value_of fl v) × Decoded fl payload s

pack-Decoded :
    (fl : Doubles) (before : Bytes) (fs : List SchemaField) (stop : ℕ) (s : Struct fs)
    → Packed (length before) fs stop
    → AllFit s
    → Decoded fl (before ++ pack s) s × (length (before ++ pack s) ≡ stop)
unfolding skip
pack-Decoded fl before [] stop no_more p fit = (tt, rw append-nil p)
pack-Decoded fl before (f ∷ fs) stop (member v s) p fit =
    let after = before ++ bytes_of v in
    let (decoded, whole) =
      pack-Decoded fl after fs stop s
        (subst (λ n. Packed n fs stop)
          (omega (arith, length-append before (bytes_of v), length-bytes_of v)) p.1)
        fit.1 in
    let same : before ++ pack (member {f = f} v s) ≡ after ++ pack s =
      sym (append_assoc before (bytes_of v) (pack s)) in
    (
      (
        ap (λ b. decode_field fl b f.type)
              (drop-length f.offset before (bytes_of v ++ pack s) (sym p.0))
            ∙ decode-bytes_of fl v (pack s) fit.0,
        subst (λ b. Decoded fl b s) (sym same) decoded,
      ),
      ap length same ∙ whole,
    )

-- For any schema whose parse succeeds, with fields of less than 64 KiB in all, and any values that
-- fit its fields: the packed struct is as long as the payload size, and what `UdtDecodeField` reads at
-- the offset of a field is the value stored in its member.
pub parse_udt_schema-Decoded :
    (strtod : Bytes → Option (ℕ × Bytes)) (known : List (Bytes × ResolvedSchema)) (json : Bytes)
    (r : ResolvedSchema)
    → parse_udt_schema strtod known json ≡ done r
    → total_size r.fields < 2 ^ 16
    → (fl : Doubles) (s : Struct r.fields) → AllFit s
    → Decoded fl (pack s) s × (length (pack s) ≡ r.payload_size)
parse_udt_schema-Decoded strtod known json r parsed small fl s fit =
    pack-Decoded fl [] r.fields r.payload_size s (parse-Packed strtod known json r parsed small) fit
