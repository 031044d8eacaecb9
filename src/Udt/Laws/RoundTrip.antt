-- ===== src/Udt/Laws/RoundTrip.antt =====
-- `ParseUdtSchema` of libs/libkv8/src/UdtSchemaParser.cpp on what KV8_UDT.h builds.
use kv8_metrics.Prelude.{
  ℕ, zero, suc, ◌+◌, ◌<◌, ◌≤◌, ◌-◌, Bool-cases, inl, inr, ◌≡◌, refl, ap, ◌∙◌, Bool, true, false,
  Option, List, [], ◌∷◌, ◌++◌, append_assoc, append-nil, length, length-append, arith,
  if◌then◌else◌,
}
use kv8_metrics.Prelude.Bytes.{Bytes, codes, Lacks}
use kv8_metrics.Prelude.Assoc.{bytes_eq}
use kv8_metrics.Udt.Outcome.{done}
use kv8_metrics.Udt.Types.{SchemaField, ResolvedSchema}
use kv8_metrics.Udt.Json.{skip_comma}
use kv8_metrics.Udt.Build.{Member, Accumulator, separated, add_member, accumulate, get_schema}
use kv8_metrics.Udt.Schema.{
  SchemaObject, no_members, read_members, read_fields, read_entries, read_schema, resolve_fields,
  parse_udt_schema,
}
use kv8_metrics.Udt.Laws.Strings.{until_quote-append}
use kv8_metrics.Udt.Laws.Members.{Declares, member_text, member-read, add_member-text}

module _ (strtod : Bytes → Option (ℕ × Bytes)) (print_num : ℕ → Bytes)
    (known : List (Bytes × ResolvedSchema)) where
  pub data DeclareAll : List Member → List SchemaField → Type 0 where
    no_members_left : DeclareAll [] []
    declare :
        {m : Member} {ms : List Member} {fs gs : List SchemaField}
        → Declares strtod print_num known m fs
        → DeclareAll ms gs
        → DeclareAll (m ∷ ms) (fs ++ gs)

  -- The members that are still to be written, in front of `rest`.
  members_text : Bool → List Member → Bytes → Bytes
  members_text comma [] rest = rest
  members_text comma (m ∷ ms) rest =
      (if comma then codes "," else [])
      ++ (b'{' ∷ member_text print_num m (members_text true ms rest))

  separated-append :
      (acc : Accumulator) (s : Bytes)
      → separated acc ++ s ≡ acc.json ++ ((if acc.needs_comma then codes "," else []) ++ s)
  unfolding separated
  separated-append acc s = elim (Bool-cases acc.needs_comma) [
    | inl e ↦ rw e (append_assoc acc.json (codes ",") s)
    | inr e ↦ rw e refl
  ]

  add_member-needs_comma :
      (m : Member) (acc : Accumulator) → (add_member print_num m acc).needs_comma ≡ true
  unfolding add_member
  add_member-needs_comma (Member.field tag cname mn mx) acc = refl
  add_member-needs_comma (Member.field_named tag cname disp mn mx) acc = refl
  add_member-needs_comma (Member.embed schema cname) acc = refl

  accumulate-text :
      (ms : List Member) (fs : List SchemaField) (acc : Accumulator) (rest : Bytes)
      → DeclareAll ms fs
      → (accumulate print_num ms acc).json ++ rest
        ≡ acc.json ++ members_text acc.needs_comma ms rest
  unfolding accumulate members_text
  accumulate-text _ _ acc rest DeclareAll.no_members_left = refl
  accumulate-text _ _ acc rest (DeclareAll.declare {m} {ms} {fs} {gs} d ds) =
      accumulate-text ms gs (add_member print_num m acc) rest ds
      ∙ ap (λ b. (add_member print_num m acc).json ++ members_text b ms rest)
          (add_member-needs_comma m acc)
      ∙ add_member-text strtod print_num known m fs acc (members_text true ms rest) d
      ∙ separated-append acc _

  skip_comma-text :
      (ms : List Member) (rest : Bytes)
      → skip_comma (members_text true ms (b']' ∷ rest)) ≡ members_text false ms (b']' ∷ rest)
  unfolding skip_comma members_text
  skip_comma-text [] rest = refl
  skip_comma-text (m ∷ ms) rest = refl

  -- The loop over the field objects reads them all.
  fields-read :
      (ms : List Member) (fs raw : List SchemaField) (rest : Bytes)
      → DeclareAll ms fs
      → (fuel : ℕ) → length ms + 6 < fuel
      → read_fields strtod known fuel raw (members_text false ms (b']' ∷ rest))
        ≡ done (raw ++ fs, rest)
  unfolding read_fields members_text
  fields-read _ _ raw rest ds zero h = absurd (omega arith)
  fields-read _ _ raw rest DeclareAll.no_members_left (suc fuel) h = rw append-nil refl
  fields-read _ _ raw rest (DeclareAll.declare {m} {ms} {fs} {gs} d ds) (suc fuel) h =
      let (o, read, declared) =
        member-read strtod print_num known m fs d (fuel - 6) (members_text true ms (b']' ∷ rest)) in
      let read' : read_members strtod fuel no_members
            (member_text print_num m (members_text true ms (b']' ∷ rest)))
          ≡ done (o, members_text true ms (b']' ∷ rest)) =
        ap
          (λ n.
            read_members strtod n no_members
              (member_text print_num m (members_text true ms (b']' ∷ rest))))
          {x = fuel} {y = suc (suc (suc (suc (suc (suc (fuel - 6))))))} (omega arith)
        ∙ read in
      rw (read', declared, skip_comma-text)
        (fields-read ms gs (raw ++ fs) rest ds fuel (omega arith)
          ∙ ap (λ xs. done (xs, rest)) (append_assoc raw fs gs))

  -- The whole object, behind its '{'.
  schema_text : Bytes → List Member → Bytes
  schema_text name ms =
      codes "\"kv8_schema\":1,\"name\":\""
      ++ (name ++ (codes "\",\"fields\":[" ++ members_text false ms (codes "]}")))

  start : SchemaObject
  start = record { schema_name = []; raw_fields = []; got_name = false; got_fields = false }

  entries-read :
      (name : Bytes) (ms : List Member) (fs : List SchemaField) (fuel : ℕ)
      → Lacks 34 name
      → DeclareAll ms fs
      → length ms + 6 < suc fuel
      → read_entries strtod known (suc (suc (suc (suc fuel)))) start (schema_text name ms)
        ≡ done
            (record { schema_name = name; raw_fields = fs; got_name = true; got_fields = true }, [])
  unfolding read_entries schema_text start
  entries-read name ms fs fuel lacks ds h =
      rw
        (until_quote-append 34 name (codes ",\"fields\":[" ++ members_text false ms (codes "]}"))
          lacks)
        (rw (fields-read ms fs [] (codes "}") ds (suc fuel) h) refl)

  length-member_text :
      (m : Member) (rest : Bytes) → length rest ≤ length (member_text print_num m rest)
  unfolding member_text
  length-member_text (Member.field tag cname mn mx) rest = simp length-append (omega arith)
  length-member_text (Member.field_named tag cname disp mn mx) rest =
      simp length-append (omega arith)
  length-member_text (Member.embed schema cname) rest = simp length-append (omega arith)

  length-members_text :
      (comma : Bool) (ms : List Member) (rest : Bytes)
      → length ms + length rest ≤ length (members_text comma ms rest)
  unfolding members_text
  length-members_text comma [] rest = omega arith
  length-members_text false (m ∷ ms) rest =
      omega
        (arith, length-members_text true ms rest, length-member_text m (members_text true ms rest))
  length-members_text true (m ∷ ms) rest =
      omega
        (arith, length-members_text true ms rest, length-member_text m (members_text true ms rest))

  get_schema-text :
      (name : Bytes) (ms : List Member) (fs : List SchemaField)
      → DeclareAll ms fs
      → get_schema print_num name ms ≡ b'{' ∷ schema_text name ms
  unfolding get_schema schema_text
  get_schema-text name ms fs ds = simp (
    append_assoc,
    accumulate-text ms fs (record { json = []; needs_comma = false }) (codes "]}") ds,
  )

  length-schema_text :
      (name : Bytes) (ms : List Member) → length ms + 10 ≤ length (schema_text name ms)
  unfolding schema_text
  length-schema_text name ms =
      simp length-append (omega (arith, length-members_text false ms (codes "]}")))

  opened :
      (name : Bytes) (ms : List Member) (fs : List SchemaField)
      → Lacks 34 name
      → DeclareAll ms fs
      → read_schema strtod known (b'{' ∷ schema_text name ms)
        ≡ done
            (record { schema_name = name; raw_fields = fs; got_name = true; got_fields = true }, [])
  unfolding read_schema start
  opened name ms fs lacks ds =
      ap (λ n. read_entries strtod known n start (schema_text name ms))
        {x = suc (suc (length (schema_text name ms)))}
        {y = suc (suc (suc (suc (length (schema_text name ms) - 2))))} (omega (arith, long))
      ∙ entries-read name ms fs (length (schema_text name ms) - 2) lacks ds (omega (arith, long))
    where
      long : length ms + 10 ≤ length (schema_text name ms)
      long = length-schema_text name ms

  -- What KV8_UDT.h builds for members that declare fields is parsed to these fields, at their offsets.
  pub parse_udt_schema-get_schema :
      (name : Bytes) (ms : List Member) (fs : List SchemaField)
      → Lacks 34 name
      → DeclareAll ms fs
      → parse_udt_schema strtod known (get_schema print_num name ms) ≡ done (resolve_fields name fs)
  unfolding parse_udt_schema
  parse_udt_schema-get_schema name ms fs lacks ds =
      rw (get_schema-text name ms fs ds, opened name ms fs lacks ds) refl
