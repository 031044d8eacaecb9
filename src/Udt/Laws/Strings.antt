-- ===== src/Udt/Laws/Strings.antt =====
-- What the parser of libs/libkv8/src/UdtSchemaParser.cpp reads of the texts that KV8_UDT.h writes.
use kv8_metrics.Prelude.{
  ℕ, suc, ◌<◌, ◌≡◌, refl, true, false, Option, some, [], ◌∷◌, ◌++◌, append_assoc, length, arith,
}
use kv8_metrics.Prelude.Bytes.{Bytes, codes, Lacks}
use kv8_metrics.Udt.Outcome.{done}
use kv8_metrics.Udt.Json.{blank, skip_ws, until_quote, read_number, skip_comma}
use kv8_metrics.Udt.Build.{append_num, append_type}
use kv8_metrics.Udt.Schema.{FieldObject, read_members}

pub until_quote-append :
    (q : ℕ) (text rest : Bytes)
    → Lacks q text
    → until_quote q (text ++ q ∷ rest) ≡ some (text, rest)
unfolding until_quote
until_quote-append q [] rest lacks = ground arith
until_quote-append q (c ∷ text) rest lacks =
    ground (arith, lacks.0, until_quote-append q text rest lacks.1)

-- What is relied on for a number: snprintf shows it in fewer than 32 characters, the first of which is
-- no white space, and strtod reads it back in front of ',' or '}'.
pub record ReadsBack (strtod : Bytes → Option (ℕ × Bytes)) (print_num : ℕ → Bytes) (v : ℕ)
    : Type 0 where
  pub first : ℕ
  pub others : Bytes
  pub shown : print_num v ≡ first ∷ others
  pub visible : blank first ≡ false
  pub short : length others < 31
  pub before_comma : (rest : Bytes) → strtod (print_num v ++ b',' ∷ rest) ≡ some (v, b',' ∷ rest)
  pub before_brace : (rest : Bytes) → strtod (print_num v ++ b'}' ∷ rest) ≡ some (v, b'}' ∷ rest)

module _ (strtod : Bytes → Option (ℕ × Bytes)) (print_num : ℕ → Bytes) (v : ℕ)
    (back : ReadsBack strtod print_num v) where
  pub append_num-shown : (json : Bytes) → append_num print_num v json ≡ json ++ print_num v
  unfolding append_num
  append_num-shown json = ground (arith, back.shown, back.short)

  read_number-shown :
      (c : ℕ) (rest : Bytes)
      → strtod (print_num v ++ c ∷ rest) ≡ some (v, c ∷ rest)
      → read_number strtod (print_num v ++ c ∷ rest) ≡ done (v, c ∷ rest)
  unfolding read_number skip_ws
  read_number-shown c rest e = ground (arith, e, back.shown, back.visible)

  pub read_number-comma :
      (rest : Bytes) → read_number strtod (print_num v ++ b',' ∷ rest) ≡ done (v, b',' ∷ rest)
  read_number-comma rest = read_number-shown b',' rest (back.before_comma rest)

  pub read_number-brace :
      (rest : Bytes) → read_number strtod (print_num v ++ b'}' ∷ rest) ≡ done (v, b'}' ∷ rest)
  read_number-brace rest = read_number-shown b'}' rest (back.before_brace rest)

module _ (strtod : Bytes → Option (ℕ × Bytes)) (print_num : ℕ → Bytes) where
  pub append_type-shown :
      (type_tag : Bytes) (mn mx : ℕ) (json rest : Bytes)
      → ReadsBack strtod print_num mn
      → ReadsBack strtod print_num mx
      → append_type print_num type_tag mn mx json ++ rest
        ≡ json
          ++ (codes "\",\"t\":\""
              ++ (type_tag
                  ++ (codes "\",\"min\":"
                      ++ (print_num mn ++ (codes ",\"max\":" ++ (print_num mx ++ b'}' ∷ rest))))))
  unfolding append_type
  append_type-shown type_tag mn mx json rest low high = simp (
    append_assoc,
    append_num-shown strtod print_num mn low,
    append_num-shown strtod print_num mx high,
  )

-- One member in front of the rest.
module _ (strtod : Bytes → Option (ℕ × Bytes)) (fuel : ℕ) (o : FieldObject) where
  module _ (text rest : Bytes) (lacks : Lacks 34 text) where
    pub members-name :
        read_members strtod (suc fuel) o (codes "\"n\":\"" ++ (text ++ b'"' ∷ rest))
        ≡ read_members strtod fuel (record o { field_name = text; got_fn = true }) (skip_comma rest)
    unfolding read_members
    members-name = rw (until_quote-append 34 text rest lacks) refl

    pub members-label :
        read_members strtod (suc fuel) o (codes "\"d\":\"" ++ (text ++ b'"' ∷ rest))
        ≡ read_members strtod fuel (record o { disp_name = text }) (skip_comma rest)
    unfolding read_members
    members-label = rw (until_quote-append 34 text rest lacks) refl

    pub members-type :
        read_members strtod (suc fuel) o (codes "\"t\":\"" ++ (text ++ b'"' ∷ rest))
        ≡ read_members strtod fuel (record o { type_tok = text; got_ft = true }) (skip_comma rest)
    unfolding read_members
    members-type = rw (until_quote-append 34 text rest lacks) refl

  module _ (print_num : ℕ → Bytes) (v : ℕ) (back : ReadsBack strtod print_num v)
      (rest : Bytes) where
    pub members-min :
        read_members strtod (suc fuel) o (codes "\"min\":" ++ (print_num v ++ b',' ∷ rest))
        ≡ read_members strtod fuel (record o { fmin = v }) rest
    unfolding read_members
    members-min = rw (read_number-comma strtod print_num v back rest) refl

    pub members-max :
        read_members strtod (suc fuel) o (codes "\"max\":" ++ (print_num v ++ b'}' ∷ rest))
        ≡ read_members strtod fuel (record o { fmax = v }) (b'}' ∷ rest)
    unfolding read_members
    members-max = rw (read_number-brace strtod print_num v back rest) refl
