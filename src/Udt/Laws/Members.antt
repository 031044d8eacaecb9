-- ===== src/Udt/Laws/Members.antt =====
-- One member of a field list: what KV8_UDT.h writes for it, and what `ParseUdtSchema` of
-- libs/libkv8/src/UdtSchemaParser.cpp reads.
use kv8_metrics.Prelude.{
  ℕ, suc, ◌≡◌, refl, ◌∙◌, true, Option, none, some, List, [], ◌∷◌, ◌++◌, map, append_assoc,
}
use kv8_metrics.Prelude.Bytes.{Bytes, codes, Lacks}
use kv8_metrics.Prelude.Assoc.{find, bytes_eq}
use kv8_metrics.Udt.Outcome.{done}
use kv8_metrics.Udt.Types.{FieldType, SchemaField, ResolvedSchema, parse_type_token}
use kv8_metrics.Udt.Json.{skip_comma}
use kv8_metrics.Udt.Build.{Member, Accumulator, separated, add_member}
use kv8_metrics.Udt.Schema.{FieldObject, no_members, read_members, field_entries, embedded_field}
use kv8_metrics.Udt.Laws.Strings.{
  ReadsBack, append_type-shown, members-name, members-label, members-type, members-min, members-max,
}

module _ (print_num : ℕ → Bytes) where
  -- What a member looks like behind its '{', in front of `rest`.
  unfoldable pub member_text : Member → Bytes → Bytes
  member_text (Member.field tag cname mn mx) rest =
      codes "\"n\":\""
      ++ (cname
          ++ (codes "\",\"t\":\""
              ++ (tag
                  ++ (codes "\",\"min\":"
                      ++ (print_num mn ++ (codes ",\"max\":" ++ (print_num mx ++ b'}' ∷ rest)))))))
  member_text (Member.field_named tag cname disp mn mx) rest =
      codes "\"n\":\""
      ++ (cname
          ++ (codes "\",\"d\":\""
              ++ (disp
                  ++ (codes "\",\"t\":\""
                      ++ (tag
                          ++ (codes "\",\"min\":"
                              ++ (print_num mn
                                  ++ (codes ",\"max\":" ++ (print_num mx ++ b'}' ∷ rest)))))))))
  member_text (Member.embed schema cname) rest =
      codes "\"n\":\"" ++ (cname ++ (codes "\",\"t\":\"" ++ (schema ++ (codes "\"}" ++ rest))))

module _ (strtod : Bytes → Option (ℕ × Bytes)) (print_num : ℕ → Bytes)
    (known : List (Bytes × ResolvedSchema)) where
  -- A member, and the fields that it declares: itself, or those of the schema that it embeds. No name
  -- has a '"' in it, and the limits are read back as they are printed.
  pub data Declares : Member → List SchemaField → Type 0 where
    field :
        {tag cname : Bytes} {mn mx : ℕ} {t : FieldType}
        → parse_type_token tag ≡ some t
        → Lacks 34 tag
        → Lacks 34 cname
        → ReadsBack strtod print_num mn
        → ReadsBack strtod print_num mx
        → Declares (Member.field tag cname mn mx) (
            record {
              name = cname;
              display_name = [];
              type = t;
              offset = 0;
              min_val = mn;
              max_val = mx;
            }
            ∷ [])
    field_named :
        {tag cname disp : Bytes} {mn mx : ℕ} {t : FieldType}
        → parse_type_token tag ≡ some t
        → Lacks 34 tag
        → Lacks 34 cname
        → Lacks 34 disp
        → ReadsBack strtod print_num mn
        → ReadsBack strtod print_num mx
        → Declares (Member.field_named tag cname disp mn mx) (
            record {
              name = cname;
              display_name = disp;
              type = t;
              offset = 0;
              min_val = mn;
              max_val = mx;
            }
            ∷ [])
    embed :
        {schema cname : Bytes} {r : ResolvedSchema}
        → parse_type_token schema ≡ none
        → find schema known ≡ some r
        → Lacks 34 schema
        → Lacks 34 cname
        → Declares (Member.embed schema cname) (map (embedded_field cname) r.fields)

  members-end :
      (fuel : ℕ) (o : FieldObject) (rest : Bytes)
      → read_members strtod (suc fuel) o (b'}' ∷ rest) ≡ done (o, rest)
  unfolding read_members
  members-end fuel o rest = refl

  -- Read back, it declares its fields.
  pub member-read :
      (m : Member) (fs : List SchemaField)
      → Declares m fs
      → (fuel : ℕ) (rest : Bytes)
      → (o : FieldObject) × (read_members strtod
            (suc (suc (suc (suc (suc (suc fuel))))))
            no_members
            (member_text print_num m rest)
          ≡ done (o, rest))
        × (field_entries known o ≡ done fs)
  unfolding member_text field_entries skip_comma
  member-read _ _ (Declares.field {tag} {cname} {mn} {mx} {t} typed tagged named low high) fuel
        rest =
      (
        record no_members {
          field_name = cname;
          got_fn = true;
          type_tok = tag;
          got_ft = true;
          fmin = mn;
          fmax = mx;
        },
        members-name strtod _ _ cname _ named
            ∙ members-type strtod _ _ tag _ tagged
            ∙ members-min strtod _ _ print_num mn low _
            ∙ members-max strtod _ _ print_num mx high rest
            ∙ members-end _ _ rest,
        rw typed,
      )
  member-read _ _
        (Declares.field_named {tag} {cname} {disp} {mn} {mx} {t} typed tagged named shown low high)
        fuel rest =
      (
        record no_members {
          field_name = cname;
          got_fn = true;
          disp_name = disp;
          type_tok = tag;
          got_ft = true;
          fmin = mn;
          fmax = mx;
        },
        members-name strtod _ _ cname _ named
            ∙ members-label strtod _ _ disp _ shown
            ∙ members-type strtod _ _ tag _ tagged
            ∙ members-min strtod _ _ print_num mn low _
            ∙ members-max strtod _ _ print_num mx high rest
            ∙ members-end _ _ rest,
        rw typed,
      )
  member-read _ _ (Declares.embed {schema} {cname} {r} scalar found tagged named) fuel rest = (
    record no_members { field_name = cname; got_fn = true; type_tok = schema; got_ft = true },
    members-name strtod _ _ cname _ named
        ∙ members-type strtod _ _ schema _ tagged
        ∙ members-end _ _ rest,
    rw (scalar, found),
  )

  -- The builder writes that text.
  pub add_member-text :
      (m : Member) (fs : List SchemaField) (acc : Accumulator) (rest : Bytes)
      → Declares m fs
      → (add_member print_num m acc).json ++ rest
        ≡ separated acc ++ (b'{' ∷ member_text print_num m rest)
  unfolding member_text add_member
  add_member-text _ _ acc rest
        (Declares.field {tag} {cname} {mn} {mx} {t} typed tagged named low high) =
      append_type-shown strtod print_num tag mn mx _ rest low high ∙ simp append_assoc
  add_member-text _ _ acc rest
        (Declares.field_named {tag} {cname} {disp} {mn} {mx} {t} typed tagged named shown low
          high) =
      append_type-shown strtod print_num tag mn mx _ rest low high ∙ simp append_assoc
  add_member-text _ _ acc rest (Declares.embed {schema} {cname} {r} scalar found tagged named) =
      simp append_assoc
