-- ===== src/Udt/Build.antt =====
-- The schema JSON that the macros of libs/kv8log/include/kv8log/KV8_UDT.h build: SchemaAccumulator,
-- and the list of its calls to which a field list expands. The text that snprintf makes of a number
-- is an argument.
use kv8_metrics.Prelude.{
  ℕ, Bool, true, false, ◌&&◌, List, [], ◌∷◌, ◌++◌, length, ltb, if◌then◌else◌,
}
use kv8_metrics.Prelude.Bytes.{Bytes, codes}

-- F, FN, and E or EN of a field list.
pub data Member : Type 0 where
  field : (type_tag cname : Bytes) (mn mx : ℕ) → Member
  field_named : (type_tag cname disp : Bytes) (mn mx : ℕ) → Member
  embed : (schema_name cname : Bytes) → Member

pub record Accumulator : Type 0 where
  pub json : Bytes
  pub needs_comma : Bool

-- `if (needs_comma) json += ',';`
unfoldable pub separated : Accumulator → Bytes
separated acc = if acc.needs_comma then acc.json ++ codes "," else acc.json

module _ (print_num : ℕ → Bytes) where
  unfoldable pub append_num : ℕ → Bytes → Bytes
  append_num v json =
      let text = print_num v in
      if ltb 0 (length text) && ltb (length text) 32 then json ++ text else json

  -- What `field` and `field_named` have in common: behind the names.
  unfoldable pub append_type : Bytes → ℕ → ℕ → Bytes → Bytes
  append_type type_tag mn mx json =
      append_num mx (
        append_num mn (json ++ codes "\",\"t\":\"" ++ type_tag ++ codes "\",\"min\":")
        ++ codes ",\"max\":")
      ++ codes "}"

  unfoldable pub add_member : Member → Accumulator → Accumulator
  add_member (Member.field type_tag cname mn mx) acc = record {
    json = append_type type_tag mn mx (separated acc ++ codes "{\"n\":\"" ++ cname);
    needs_comma = true;
  }
  add_member (Member.field_named type_tag cname disp mn mx) acc = record {
    json =
        append_type type_tag mn mx
          (separated acc ++ codes "{\"n\":\"" ++ cname ++ codes "\",\"d\":\"" ++ disp);
    needs_comma = true;
  }
  add_member (Member.embed schema_name cname) acc = record {
    json =
        separated acc
        ++ codes "{\"n\":\""
        ++ cname
        ++ codes "\",\"t\":\""
        ++ schema_name
        ++ codes "\"}";
    needs_comma = true;
  }

  unfoldable pub accumulate : List Member → Accumulator → Accumulator
  unfolding add_member
  accumulate [] acc = acc
  accumulate (m ∷ ms) acc = accumulate ms (add_member m acc)

  -- `GetSchema_<Name>`
  unfoldable pub get_schema : Bytes → List Member → Bytes
  unfolding accumulate
  get_schema schema_name ms =
      codes "{\"kv8_schema\":1,\"name\":\""
      ++ schema_name
      ++ codes "\",\"fields\":["
      ++ (accumulate ms (record { json = []; needs_comma = false })).json
      ++ codes "]}"
