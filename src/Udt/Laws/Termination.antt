-- ===== src/Udt/Laws/Termination.antt =====
-- `ParseUdtSchema` returns: the fuel of its loops is enough for every input.
use kv8_metrics.Prelude.{
  ℕ, zero, suc, ◌≤◌, ◌<◌, ◌≢◌, Option, List, [], ◌∷◌, length, ◌++◌, ◌==◌, inl, inr, not, ◌||◌,
  Bool-cases, Option-cases, arith, ap,
}
use kv8_metrics.Prelude.Bytes.{Bytes, codes}
use kv8_metrics.Prelude.Assoc.{bytes_beq, bytes_eq, find}
use kv8_metrics.Udt.Outcome.{
  Leaves, left, gave_up, Leaves-bind, Leaves-if, Leaves-parser_if, Leaves-known_bind,
  bind-ne-out_of_fuel, out_of_fuel,
}
use kv8_metrics.Udt.Types.{ResolvedSchema, SchemaField, parse_type_token}
use kv8_metrics.Udt.Json.{skip_ws, skip_comma, read_string, read_number}
use kv8_metrics.Udt.Schema.{
  FieldObject, SchemaObject, no_members, read_member, read_members, field_entries, read_fields,
  read_entry, read_entries, finish_schema, parse_udt_schema,
}
use kv8_metrics.Udt.Laws.Lengths.{
  Consumes, Bytes-cases, length-skip_ws, length-skip_comma, consume-Leaves, read_string-Leaves,
  read_number-Leaves, skip_value-Leaves,
}

-- A step that is not the end of the fuel leaves less of the input for the next one.
field_entries_done :
    (known : List (Bytes × ResolvedSchema)) (o : FieldObject) → field_entries known o ≢ out_of_fuel
unfolding field_entries
field_entries_done known o = elim (Bool-cases (not o.got_fn || not o.got_ft)) [
  | inl e ↦ rw (e, field_entries) (cc)
  | inr e ↦ elim (Option-cases (parse_type_token o.type_tok)) [
    | inl e1 ↦ elim (Option-cases (find o.type_tok known)) [
      | inl e2 ↦ rw (e, e1, e2, field_entries) (cc)
      | inr (m, e2) ↦ rw (e, e1, e2, field_entries) (cc)
    ]
    | inr (t, e1) ↦ rw (e, e1, field_entries) (cc)
  ]
]

module _ (strtod : Bytes → Option (ℕ × Bytes)) (consumes : Consumes strtod) where
  read_member-Leaves :
      (n : ℕ) (key : Bytes) (o : FieldObject) (s : Bytes)
      → length s ≤ n
      → Leaves n (read_member strtod key o s)
  unfolding read_member
  read_member-Leaves n key o s h =
      Leaves-parser_if (bytes_beq key (codes "n")) _ _
        (Leaves-bind _ text (λ v rest short. left short))
        (Leaves-parser_if (bytes_beq key (codes "d")) _ _
          (Leaves-bind _ text (λ v rest short. left short))
          (Leaves-parser_if (bytes_beq key (codes "t")) _ _
            (Leaves-bind _ text (λ v rest short. left short))
            (Leaves-parser_if (bytes_beq key (codes "min")) _ _
              (Leaves-bind _ number (λ v rest short. left short))
              (Leaves-parser_if (bytes_beq key (codes "max")) _ _
                (Leaves-bind _ number (λ v rest short. left short))
                (Leaves-bind _ (skip_value-Leaves n s h) (λ v rest short. left short))))))
    where
      text : Leaves n (read_string s)
      text = read_string-Leaves n s (omega arith)

      number : Leaves n (read_number strtod s)
      number = read_number-Leaves strtod n s consumes (omega arith)

  read_members-Leaves :
      (fuel n : ℕ) (o : FieldObject) (s : Bytes)
      → length s < fuel
      → length s ≤ n
      → Leaves n (read_members strtod fuel o s)
  unfolding read_members
  read_members-Leaves zero n o s hf h = absurd (omega arith)
  read_members-Leaves (suc fuel) n o s hf h = elim (Bytes-cases (skip_ws s)) [
    | inl e ↦ rw (e, read_members) (left (omega arith))
    | inr (c, rest, e) ↦
        let whole : length (c ∷ rest) ≤ length s = omega (arith, length-skip_ws s, ap length e) in
        rw (e, read_members)
          (Leaves-if (c == b'}') (left (omega (arith, whole))) (
            Leaves-bind _
              (read_string-Leaves (length rest) (skip_ws s) (omega (arith, ap length e)))
              λ key s1 h1.
                Leaves-bind _ (consume-Leaves (length rest) b':' s1 (omega arith)) λ _ s2 h2.
                  Leaves-bind _ (read_member-Leaves (length rest) key o s2 h2) λ o' s3 h3.
                    read_members-Leaves fuel n o' (skip_comma s3)
                      (omega (arith, whole, length-skip_comma s3))
                      (omega (arith, whole, length-skip_comma s3))))
  ]

  module _ (known : List (Bytes × ResolvedSchema)) where
    read_fields-Leaves :
        (fuel n : ℕ) (raw : List SchemaField) (s : Bytes)
        → length s < fuel
        → length s ≤ n
        → Leaves n (read_fields strtod known fuel raw s)
    unfolding read_fields
    read_fields-Leaves zero n raw s hf h = absurd (omega arith)
    read_fields-Leaves (suc fuel) n raw s hf h = elim (Bytes-cases (skip_ws s)) [
      | inl e ↦ rw (e, read_fields) gave_up
      | inr (c, rest, e) ↦
          let whole : length (c ∷ rest) ≤ length s = omega (arith, length-skip_ws s, ap length e) in
          rw (e, read_fields)
            (Leaves-if (c == b']') (left (omega (arith, whole))) (
              Leaves-bind _
                (consume-Leaves (length rest) b'{' (skip_ws s) (omega (arith, ap length e)))
                λ _ s1 h1.
                  Leaves-bind _
                    (read_members-Leaves fuel (length rest) no_members s1 (omega (arith, whole)) h1)
                    λ o s2 h2.
                      Leaves-known_bind _ (field_entries known o) (field_entries_done known o)
                        λ entries.
                          read_fields-Leaves fuel n (raw ++ entries) (skip_comma s2)
                            (omega (arith, whole, length-skip_comma s2))
                            (omega (arith, whole, length-skip_comma s2))))
    ]

    read_entry-Leaves :
        (fuel n : ℕ) (key : Bytes) (o : SchemaObject) (s : Bytes)
        → length s < fuel
        → length s ≤ n
        → Leaves n (read_entry strtod known fuel key o s)
    unfolding read_entry
    read_entry-Leaves fuel n key o s hf h =
        Leaves-parser_if (bytes_beq key (codes "name")) _ _
          (Leaves-bind _ (read_string-Leaves n s (omega arith)) (λ v rest short. left short))
          (Leaves-parser_if (bytes_beq key (codes "fields")) _ _
            (Leaves-bind _ (consume-Leaves (length s) b'[' s (omega arith)) λ _ s1 h1.
              Leaves-bind _ (read_fields-Leaves fuel n o.raw_fields s1 (omega arith) (omega arith))
                (λ v rest short. left short))
            (Leaves-bind _ (skip_value-Leaves n s h) (λ v rest short. left short)))

    read_entries-Leaves :
        (fuel n : ℕ) (o : SchemaObject) (s : Bytes)
        → length s < fuel
        → length s ≤ n
        → Leaves n (read_entries strtod known fuel o s)
    unfolding read_entries
    read_entries-Leaves zero n o s hf h = absurd (omega arith)
    read_entries-Leaves (suc fuel) n o s hf h = elim (Bytes-cases (skip_ws s)) [
      | inl e ↦ rw (e, read_entries) gave_up
      | inr (c, rest, e) ↦
          let whole : length (c ∷ rest) ≤ length s = omega (arith, length-skip_ws s, ap length e) in
          rw (e, read_entries)
            (Leaves-if (c == b'}') (left (omega (arith, whole))) (
              Leaves-bind _
                (read_string-Leaves (length rest) (skip_ws s) (omega (arith, ap length e)))
                λ key s1 h1.
                  Leaves-bind _ (consume-Leaves (length rest) b':' s1 (omega arith)) λ _ s2 h2.
                    Leaves-bind _
                      (read_entry-Leaves fuel (length rest) key o s2 (omega (arith, whole)) h2)
                      λ o' s3 h3.
                        read_entries-Leaves fuel n o' (skip_comma s3)
                          (omega (arith, whole, length-skip_comma s3))
                          (omega (arith, whole, length-skip_comma s3))))
    ]

finish_done : (o : SchemaObject) → finish_schema o ≢ out_of_fuel
unfolding finish_schema
finish_done o = ground arith

-- For any text, any known schemas and any strtod that takes a byte when it reads a number: the parse
-- returns a schema or an error, and never runs out of fuel.
pub parse_udt_schema-returns :
    (strtod : Bytes → Option (ℕ × Bytes)) (known : List (Bytes × ResolvedSchema)) (json : Bytes)
    → Consumes strtod
    → parse_udt_schema strtod known json ≢ out_of_fuel
unfolding parse_udt_schema
parse_udt_schema-returns strtod known [] consumes = cc
parse_udt_schema-returns strtod known (c ∷ s) consumes =
    bind-ne-out_of_fuel _
      (Leaves-bind _ (consume-Leaves (length s) b'{' (c ∷ s) (omega arith)) λ _ s1 h1.
        read_entries-Leaves strtod consumes known (suc (suc (length s))) (length s) _ s1
          (omega arith) h1)
      λ o rest. finish_done o
