-- ===== src/Udt/Laws/Announced.antt =====
-- From the field list of a macro in KV8_UDT.h to the schema that `ParseUdtSchema` of
-- libs/libkv8/src/UdtSchemaParser.cpp returns.
use kv8_metrics.Prelude.{
  ℕ, ◌+◌, ◌%◌, ◌^◌, ◌≡◌, refl, Option, none, some, List, [], ◌∷◌, ◌++◌, map, append_assoc,
}
use kv8_metrics.Prelude.Bytes.{Bytes, codes, Lacks}
use kv8_metrics.Prelude.Assoc.{find, bytes_eq}
use kv8_metrics.Udt.Outcome.{done}
use kv8_metrics.Udt.Types.{FieldType, SchemaField, ResolvedSchema, parse_type_token, wire_size}
use kv8_metrics.Udt.Build.{Member, get_schema}
use kv8_metrics.Udt.Schema.{embedded_field, assign_offsets, resolve_fields, parse_udt_schema}
use kv8_metrics.Udt.Laws.Strings.{ReadsBack}
use kv8_metrics.Udt.Laws.Members.{Declares}
use kv8_metrics.Udt.Laws.RoundTrip.{DeclareAll, parse_udt_schema-get_schema}

-- The fields stand one behind the other from an offset on, and end at another, in 16 bits.
abbrev pub Placed : ℕ → List SchemaField → List SchemaField → ℕ → Type 0
Placed offset [] [] size = offset ≡ size
Placed offset (f ∷ fs) (p ∷ ps) size =
    (p ≡ record f { offset = offset }) × Placed ((offset + wire_size f.type) % 2 ^ 16) fs ps size
Placed offset [] (p ∷ ps) size = ⊥
Placed offset (f ∷ fs) [] size = ⊥

-- What a parsed field says.
pub record Says (name label : Bytes) (t : FieldType) (low high : ℕ) (f : SchemaField) : Type 0 where
  pub named : f.name ≡ name
  pub labelled : f.display_name ≡ label
  pub typed : f.type ≡ t
  pub least : f.min_val ≡ low
  pub greatest : f.max_val ≡ high

-- The fields of an embedded schema, each named behind the member and a dot.
abbrev pub Inside : Bytes → List SchemaField → List SchemaField → Type 0
Inside cname [] [] = Unit {0}
Inside cname (f ∷ fs) (g ∷ gs) =
    Says (cname ++ (codes "." ++ f.name)) f.display_name f.type f.min_val f.max_val g
    × Inside cname fs gs
Inside cname [] (g ∷ gs) = ⊥
Inside cname (f ∷ fs) [] = ⊥

module _ (strtod : Bytes → Option (ℕ × Bytes)) (print_num : ℕ → Bytes)
    (known : List (Bytes × ResolvedSchema)) where
  -- A member that can be written: no name has a '"' in it, the limits are read back as they are printed, and
  -- the type is a scalar, or the name of a known schema.
  pub data Writable : Member → Type 0 where
    field :
        {tag cname : Bytes} {mn mx : ℕ} {t : FieldType}
        → parse_type_token tag ≡ some t
        → Lacks 34 tag
        → Lacks 34 cname
        → ReadsBack strtod print_num mn
        → ReadsBack strtod print_num mx
        → Writable (Member.field tag cname mn mx)
    field_named :
        {tag cname disp : Bytes} {mn mx : ℕ} {t : FieldType}
        → parse_type_token tag ≡ some t
        → Lacks 34 tag
        → Lacks 34 cname
        → Lacks 34 disp
        → ReadsBack strtod print_num mn
        → ReadsBack strtod print_num mx
        → Writable (Member.field_named tag cname disp mn mx)
    embed :
        {schema cname : Bytes} {r : ResolvedSchema}
        → parse_type_token schema ≡ none
        → find schema known ≡ some r
        → Lacks 34 schema
        → Lacks 34 cname
        → Writable (Member.embed schema cname)

  abbrev pub AllWritable : List Member → Type 0
  AllWritable [] = Unit {0}
  AllWritable (m ∷ ms) = Writable m × AllWritable ms

  -- The fields that a member announces.
  abbrev pub Announces : Member → List SchemaField → Type 0
  Announces (Member.field tag cname mn mx) fs =
      (t : FieldType) × (f : SchemaField) × (parse_type_token tag ≡ some t)
      × (fs ≡ f ∷ [])
      × Says cname [] t mn mx f
  Announces (Member.field_named tag cname disp mn mx) fs =
      (t : FieldType) × (f : SchemaField) × (parse_type_token tag ≡ some t)
      × (fs ≡ f ∷ [])
      × Says cname disp t mn mx f
  Announces (Member.embed schema cname) fs =
      (r : ResolvedSchema) × (find schema known ≡ some r) × Inside cname r.fields fs

  -- The fields of all members, in the order of the members.
  pub data AnnounceAll : List Member → List SchemaField → Type 0 where
    no_members_left : AnnounceAll [] []
    announce :
        (m : Member) {ms : List Member} (fs : List SchemaField) {gs : List SchemaField}
        → Announces m fs
        → AnnounceAll ms gs
        → AnnounceAll (m ∷ ms) (fs ++ gs)

  map-Inside :
      (cname : Bytes) (fs : List SchemaField) → Inside cname fs (map (embedded_field cname) fs)
  unfolding embedded_field
  map-Inside cname [] = tt
  map-Inside cname (f ∷ fs) = (
    record {
      named = append_assoc cname (codes ".") f.name;
      labelled = refl;
      typed = refl;
      least = refl;
      greatest = refl;
    },
    map-Inside cname fs,
  )

  declared :
      (m : Member)
      → Writable m
      → (fs : List SchemaField) × Declares strtod print_num known m fs × Announces m fs
  declared _ (Writable.field typed tagged named low high) = (
    _,
    Declares.field typed tagged named low high,
    (
      _,
      _,
      typed,
      refl,
      record { named = refl; labelled = refl; typed = refl; least = refl; greatest = refl },
    ),
  )
  declared _ (Writable.field_named typed tagged named shown low high) = (
    _,
    Declares.field_named typed tagged named shown low high,
    (
      _,
      _,
      typed,
      refl,
      record { named = refl; labelled = refl; typed = refl; least = refl; greatest = refl },
    ),
  )
  declared _ (Writable.embed {schema} {cname} {r} scalar found tagged named) =
      (_, Declares.embed scalar found tagged named, (r, found, map-Inside cname r.fields))

  all_declared :
      (ms : List Member)
      → AllWritable ms
      → (fs : List SchemaField) × DeclareAll strtod print_num known ms fs × AnnounceAll ms fs
  all_declared [] w = ([], DeclareAll.no_members_left, AnnounceAll.no_members_left)
  all_declared (m ∷ ms) w =
      let (fs, d, a) = declared m w.0 in
      let (gs, ds, as') = all_declared ms w.1 in
      (fs ++ gs, DeclareAll.declare d ds, AnnounceAll.announce m fs a as')

  assign_offsets-Placed :
      (offset : ℕ) (fs : List SchemaField)
      → Placed offset fs (assign_offsets offset fs).0 (assign_offsets offset fs).1
  unfolding assign_offsets
  assign_offsets-Placed offset [] = refl
  assign_offsets-Placed offset (f ∷ fs) =
      (refl, assign_offsets-Placed ((offset + wire_size f.type) % 2 ^ 16) fs)

  -- For a schema name without a quote and members that can be written (no quote in the name, the type tag or the
  -- label, limits that are read back as they are printed, a scalar type or a known schema that is embedded): the text that
  -- KV8_UDT.h builds parses to a schema of that name. Its fields are, in order, one for each scalar
  -- member, with the name, the label, the type and the limits of the member, and for an embedded
  -- schema all of its fields, named behind the member and a dot, with their own label, type and
  -- limits. They stand one behind the other from 0 to the size of the payload, in 16 bits.
  pub get_schema-AnnounceAll :
      (name : Bytes) (ms : List Member)
      → Lacks 34 name
      → AllWritable ms
      → (r : ResolvedSchema) × (fs : List SchemaField) × (parse_udt_schema strtod known
            (get_schema print_num name ms)
          ≡ done r)
        × (r.schema_name ≡ name)
        × AnnounceAll ms fs
        × Placed 0 fs r.fields r.payload_size
  unfolding resolve_fields
  get_schema-AnnounceAll name ms lacks w =
      let (fs, ds, as') = all_declared ms w in
      (
        resolve_fields name fs,
        fs,
        parse_udt_schema-get_schema strtod print_num known name ms fs lacks ds,
        refl,
        as',
        assign_offsets-Placed 0 fs,
      )
