-- ===== src/Udt/Schema.antt =====
-- `ParseUdtSchema` of libs/libkv8/src/UdtSchemaParser.cpp. Its three nested loops are on fuel; each
-- round takes a byte of the input, so that the length of the input is enough.
use kv8_metrics.Prelude.{
  ℕ, zero, suc, ◌+◌, ◌%◌, ◌^◌, Bool, true, false, not, ◌||◌, Option, none, some, List, [], ◌∷◌,
  ◌++◌, map, length, ◌==◌, if◌then◌else◌,
}
use kv8_metrics.Prelude.Bytes.{Bytes, codes}
use kv8_metrics.Prelude.Assoc.{find, bytes_beq, bytes_eq}
use kv8_metrics.Udt.Outcome.{
  Outcome, Parser, pure, bind, run, ◌>>=◌, ◌>>◌, done, failed, out_of_fuel, empty_schema,
  end_of_object, end_of_fields, missing_field_key, missing_name, missing_fields, unknown_type,
}
use kv8_metrics.Udt.Types.{FieldType, SchemaField, ResolvedSchema, wire_size, parse_type_token}
use kv8_metrics.Udt.Json.{skip_ws, consume, read_string, read_number, skip_value, skip_comma}

-- The locals of the loop over the members of one field object.
pub record FieldObject : Type 0 where
  pub field_name : Bytes
  pub type_tok : Bytes
  pub disp_name : Bytes
  pub fmin : ℕ
  pub fmax : ℕ
  pub got_fn : Bool
  pub got_ft : Bool

abbrev pub no_members : FieldObject
no_members = record {
  field_name = [];
  type_tok = [];
  disp_name = [];
  fmin = 0;
  fmax = 0;
  got_fn = false;
  got_ft = false;
}

-- The locals of `ParseUdtSchema`.
pub record SchemaObject : Type 0 where
  pub schema_name : Bytes
  pub raw_fields : List SchemaField
  pub got_name : Bool
  pub got_fields : Bool

-- The field that the object of a primitive field stands for.
unfoldable pub primitive_field : FieldObject → FieldType → SchemaField
primitive_field o t = record {
  name = o.field_name;
  display_name = o.disp_name;
  type = t;
  offset = 0;
  min_val = o.fmin;
  max_val = o.fmax;
}

unfoldable pub embedded_field : Bytes → SchemaField → SchemaField
embedded_field prefix f = record f { name = prefix ++ codes "." ++ f.name; offset = 0 }

module _ (known : List (Bytes × ResolvedSchema)) where
  -- What an object appends to `raw_fields`.
  unfoldable pub field_entries : FieldObject → Outcome (List SchemaField)
  unfolding primitive_field embedded_field parse_type_token find
  field_entries o =
      if not o.got_fn || not o.got_ft
      then failed missing_field_key
      else elim (parse_type_token o.type_tok) [
        | some t ↦ done (primitive_field o t ∷ [])
        | none ↦ elim (find o.type_tok known) [
          | none ↦ failed (unknown_type o.type_tok)
          | some embedded ↦ done (map (embedded_field o.field_name) embedded.fields)
        ]
      ]

module _ (strtod : Bytes → Option (ℕ × Bytes)) where
  -- The value of the member `key` of a field object.
  unfoldable pub read_member : Bytes → FieldObject → Parser FieldObject
  unfolding read_string read_number skip_value
  read_member key o =
      if bytes_beq key (codes "n")
      then (do v ← read_string; pure (record o { field_name = v; got_fn = true }))
      else if bytes_beq key (codes "d")
      then (do v ← read_string; pure (record o { disp_name = v }))
      else if bytes_beq key (codes "t")
      then (do v ← read_string; pure (record o { type_tok = v; got_ft = true }))
      else if bytes_beq key (codes "min")
      then (do v ← read_number strtod; pure (record o { fmin = v }))
      else if bytes_beq key (codes "max")
      then (do v ← read_number strtod; pure (record o { fmax = v }))
      else (do skip_value; pure o)

  -- The loop over the members, behind the '{'. At the end of the input it stops without an error.
  unfoldable pub read_members : ℕ → FieldObject → Parser FieldObject
  unfolding skip_ws read_string consume read_member skip_comma
  read_members zero o s = out_of_fuel
  read_members (suc fuel) o s =
      let more = run (skip_ws s) do
        key ← read_string
        consume b':'
        o' ← read_member key o
        λ rest. read_members fuel o' (skip_comma rest)
      in elim (skip_ws s) [
        | [] ↦ done (o, [])
        | c ∷ rest ↦ if c == b'}' then done (o, rest) else more
      ]

  module _ (known : List (Bytes × ResolvedSchema)) where
    -- The loop over the field objects, behind the '['.
    unfoldable pub read_fields : ℕ → List SchemaField → Parser (List SchemaField)
    unfolding skip_ws consume read_members skip_comma field_entries
    read_fields zero raw s = out_of_fuel
    read_fields (suc fuel) raw s =
        let more = run (skip_ws s) do
          consume b'{'
          o ← read_members fuel no_members
          λ rest.
              bind (field_entries known o)
                λ entries. read_fields fuel (raw ++ entries) (skip_comma rest)
        in elim (skip_ws s) [
          | [] ↦ failed end_of_fields
          | c ∷ rest ↦ if c == b']' then done (raw, rest) else more
        ]

    -- The value of the member `key` of the schema object.
    unfoldable pub read_entry : ℕ → Bytes → SchemaObject → Parser SchemaObject
    unfolding read_string consume read_fields skip_value
    read_entry fuel key o =
        if bytes_beq key (codes "name")
        then (do v ← read_string; pure (record o { schema_name = v; got_name = true }))
        else if bytes_beq key (codes "fields")
        then (do
          consume b'['
          raw ← read_fields fuel o.raw_fields
          pure (record o { raw_fields = raw; got_fields = true }))
        else (do skip_value; pure o)

    -- The loop over the members of the schema object.
    unfoldable pub read_entries : ℕ → SchemaObject → Parser SchemaObject
    unfolding skip_ws read_string consume read_entry skip_comma
    read_entries zero o s = out_of_fuel
    read_entries (suc fuel) o s =
        let more = run (skip_ws s) do
          key ← read_string
          consume b':'
          o' ← read_entry fuel key o
          λ rest. read_entries fuel o' (skip_comma rest)
        in elim (skip_ws s) [
          | [] ↦ failed end_of_object
          | c ∷ rest ↦ if c == b'}' then done (o, rest) else more
        ]

-- The offsets of the fields, from `offset` on, and the offset behind the last one: `uint16_t`.
unfoldable pub assign_offsets : ℕ → List SchemaField → List SchemaField × ℕ
unfolding wire_size
assign_offsets offset [] = ([], offset)
assign_offsets offset (f ∷ fs) =
    let (placed, end_offset) = assign_offsets ((offset + wire_size f.type) % 2 ^ 16) fs in
    (record f { offset = offset } ∷ placed, end_offset)

-- `out` as it is filled in at the end; `dwHash` is left to the caller.
unfoldable pub resolve_fields : Bytes → List SchemaField → ResolvedSchema
unfolding assign_offsets
resolve_fields name raw =
    let (placed, size) = assign_offsets 0 raw in
    record { schema_name = name; hash = 0; payload_size = size; fields = placed }

-- Behind the loop.
unfoldable pub finish_schema : SchemaObject → Outcome ResolvedSchema
unfolding resolve_fields
finish_schema o =
    if not o.got_name
    then failed missing_name
    else if not o.got_fields
    then failed missing_fields
    else done (resolve_fields o.schema_name o.raw_fields)

unfoldable pub read_schema :
    (strtod : Bytes → Option (ℕ × Bytes))
    → List (Bytes × ResolvedSchema)
    → Bytes
    → Outcome (SchemaObject × Bytes)
unfolding consume read_entries
read_schema strtod known json = run json do
  consume b'{'
  read_entries strtod known (suc (length json))
      (record { schema_name = []; raw_fields = []; got_name = false; got_fields = false })

unfoldable pub parse_udt_schema :
    (strtod : Bytes → Option (ℕ × Bytes))
    → List (Bytes × ResolvedSchema)
    → Bytes
    → Outcome ResolvedSchema
unfolding read_schema finish_schema
parse_udt_schema strtod known [] = failed empty_schema
parse_udt_schema strtod known (c ∷ s) =
    bind (read_schema strtod known (c ∷ s)) λ (o, _). finish_schema o
