-- ===== src/Udt/Tests.antt =====
-- Schemas at concrete inputs, and an instance of each property.
use kv8_metrics.Prelude.{
  ℕ, ◌+◌, ◌*◌, ◌-◌, ◌^◌, ◌<◌, ◌≤◌, ◌≡◌, ◌≢◌, refl, none, some, Option, List, [], ◌∷◌, length,
  get_elem?, arith, if◌then◌else◌,
}
use kv8_metrics.Prelude.Bytes.{Bytes, codes}
use kv8_metrics.Prelude.Assoc.{find, bytes_eq}
use kv8_metrics.Prelude.Decimal.{decimal, read_digits, is_digit}
use kv8_metrics.Udt.Outcome.{
  done, failed, out_of_fuel, end_of_fields, unknown_type, expected_char, no_text,
}
use kv8_metrics.Udt.Types.{FieldType, SchemaField, ResolvedSchema, wire_size, parse_type_token}
use kv8_metrics.Udt.Decode.{Doubles}
use kv8_metrics.Prelude.Int.{ℤ}
use kv8_metrics.Udt.Build.{Member, get_schema}
use kv8_metrics.Udt.Schema.{parse_udt_schema}
use kv8_metrics.Udt.Laws.Lengths.{Consumes}
use kv8_metrics.Udt.Laws.Termination.{parse_udt_schema-returns}
use kv8_metrics.Udt.Laws.Layout.{parse_udt_schema-disjoint}
use kv8_metrics.Udt.Laws.Strings.{ReadsBack}
use kv8_metrics.Udt.Laws.Announced.{
  Writable, AllWritable, AnnounceAll, Placed, get_schema-AnnounceAll,
}
use kv8_metrics.Udt.Laws.Packing.{Stored, Struct, Decoded, pack, parse_udt_schema-Decoded}

-- Doubles whose bit patterns are the numbers, in decimal.
abbrev scan_number : Bytes → Option (ℕ × Bytes)
scan_number [] = none
scan_number (c ∷ s) = if is_digit c then some (read_digits 0 (c ∷ s)) else none

length-read_digits : (acc : ℕ) (s : Bytes) → length (read_digits acc s).1 ≤ length s
unfolding read_digits
length-read_digits acc [] = omega arith
length-read_digits acc (c ∷ s) = ground (arith, length-read_digits (acc * 10 + (c - 48)) s)

scan_number-Consumes : Consumes scan_number
unfolding read_digits
scan_number-Consumes [] rest v e = cc
scan_number-Consumes (c ∷ s) rest v e = ground (arith, length-read_digits (0 * 10 + (c - 48)) s)

limit-ReadsBack : ReadsBack scan_number decimal 7
unfolding decimal read_digits
limit-ReadsBack = record {
  first = 55;
  others = [];
  shown = refl;
  visible = refl;
  short = omega arith;
  before_comma = λ rest. refl;
  before_brace = λ rest. refl;
}

abbrev vec : ResolvedSchema
vec = record { schema_name = codes "V"; hash = 0; payload_size = 3; fields = x ∷ y ∷ [] }
  where
    x : SchemaField
    x = record {
      name = codes "x";
      display_name = [];
      type = FieldType.i16;
      offset = 0;
      min_val = 0;
      max_val = 9;
    }

    y : SchemaField
    y = record {
      name = codes "y";
      display_name = codes "Y";
      type = FieldType.u8;
      offset = 2;
      min_val = 0;
      max_val = 0;
    }

abbrev known : List (Bytes × ResolvedSchema)
known = (codes "V", vec) ∷ []

abbrev vec_json : Bytes
vec_json = codes "{'name':'V','fields':[{'n':'x','t':'i16','max':9},{'n':'y','d':'Y','t':'u8'}]}"

vec_parsed : parse_udt_schema scan_number [] vec_json ≡ done vec
unfolding parse_udt_schema read_digits
vec_parsed = refl

-- Cut off inside the fields, and inside an object of the field list.
vec_truncated :
    parse_udt_schema scan_number [] (codes "{'name':'V','fields':[{'n':'x','t':'i16'},")
    ≡ failed end_of_fields
unfolding parse_udt_schema
vec_truncated = refl

nothing_to_skip : parse_udt_schema scan_number [] (codes "{'kv8':") ≡ failed no_text
unfolding parse_udt_schema
nothing_to_skip = refl

-- A nested object under an unknown key is skipped, brackets in its strings included.
nested_skipped :
    parse_udt_schema scan_number [] (codes "{'a':{'b':[{}],'c':'}'},'name':'E','fields':[]}")
    ≡ done (record { schema_name = codes "E"; hash = 0; payload_size = 0; fields = [] })
unfolding parse_udt_schema
nested_skipped = refl

unknown_embedded :
    parse_udt_schema scan_number [] (codes "{'fields':[{'n':'p','t':'V'}]}")
    ≡ failed (unknown_type (codes "V"))
unfolding parse_udt_schema
unknown_embedded = refl

-- The offset in this message is 0, here behind seven bytes.
offset_reported :
    parse_udt_schema scan_number [] (codes "{'name'='V'}") ≡ failed (expected_char b':' b'=' 0)
unfolding parse_udt_schema
offset_reported = refl

parse_udt_schema-returns_example : parse_udt_schema scan_number known (codes "{'a':1") ≢ out_of_fuel
parse_udt_schema-returns_example =
    parse_udt_schema-returns scan_number known (codes "{'a':1") scan_number-Consumes

parse_udt_schema-disjoint_example :
    ((i : ℕ) (f : SchemaField) → get_elem? vec.fields i ≡ some f → f.offset + wire_size f.type ≤ 3)
    × ((i j : ℕ) (f g : SchemaField)
        → i < j
        → get_elem? vec.fields i ≡ some f
        → get_elem? vec.fields j ≡ some g
        → f.offset + wire_size f.type ≤ g.offset)
parse_udt_schema-disjoint_example =
    parse_udt_schema-disjoint scan_number [] vec_json vec vec_parsed
      (unfold wire_size in omega arith)

abbrev members : List Member
members =
    Member.field (codes "f64") (codes "t") 7 7
    ∷ Member.embed (codes "V") (codes "p")
    ∷ Member.field_named (codes "rational") (codes "r") (codes "Ratio") 7 7
    ∷ []

members-AllWritable : AllWritable scan_number decimal known members
unfolding parse_type_token find
members-AllWritable = (
  Writable.field refl (ground arith) (ground arith) limit-ReadsBack limit-ReadsBack,
  (
    Writable.embed {r = vec} refl refl (ground arith) (ground arith),
    (
      Writable.field_named refl (ground arith) (ground arith) (ground arith) limit-ReadsBack
          limit-ReadsBack,
      tt,
    ),
  ),
)

get_schema-AnnounceAll_example :
    (r : ResolvedSchema) × (fs : List SchemaField) × (parse_udt_schema scan_number known
        (get_schema decimal (codes "N") members)
      ≡ done r)
    × (r.schema_name ≡ codes "N")
    × AnnounceAll scan_number decimal known members fs
    × Placed 0 fs r.fields r.payload_size
get_schema-AnnounceAll_example =
    get_schema-AnnounceAll scan_number decimal known (codes "N") members (ground arith)
      members-AllWritable

abbrev bits : Doubles
bits = record { of_int = of_int; of_float = λ v. v; divide = λ a b. a + b }
  where
    of_int : ℤ → ℕ
    of_int (ℤ.pos n) = n
    of_int (ℤ.negsuc n) = 2 ^ 64 - 1 - n

abbrev sample : Struct vec.fields
sample = Struct.member (Stored.int16 (ℤ.negsuc 1)) (Struct.member (Stored.uint8 200) Struct.no_more)

parse_udt_schema-Decoded_example : Decoded bits (pack sample) sample × (length (pack sample) ≡ 3)
parse_udt_schema-Decoded_example =
    parse_udt_schema-Decoded scan_number [] vec_json vec vec_parsed
      (unfold wire_size in omega arith) bits sample (ground arith)
