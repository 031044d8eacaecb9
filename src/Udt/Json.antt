-- ===== src/Udt/Json.antt =====
-- struct `Parser` of libs/libkv8/src/UdtSchemaParser.cpp. The input is what lies between `p` and
-- `end`. A double is its bit pattern; strtod, which is libc's, is an argument: `none` where it
-- consumes nothing, and otherwise the number and what is behind it.
use kv8_metrics.Prelude.{ℕ, zero, suc, Bool, Option, none, some, [], ◌∷◌, ◌==◌, ◌||◌, if◌then◌else◌}
use kv8_metrics.Prelude.Bytes.{Bytes}
use kv8_metrics.Udt.Outcome.{
  Outcome, Parser, done, failed, expected_char, expected_quote, unterminated_string,
  expected_number, invalid_number, unterminated, no_text, bind, from_option,
}

-- Space, tab, carriage return and line feed.
abbrev pub blank : ℕ → Bool
blank c = c == 32 || c == 9 || c == 13 || c == 10

-- '"' and '\''.
abbrev pub is_quote : ℕ → Bool
is_quote c = c == 34 || c == 39

unfoldable pub skip_ws : Bytes → Bytes
skip_ws [] = []
skip_ws (c ∷ s) = if blank c then skip_ws s else c ∷ s

-- The offset that the message reports is `p - (end - (end - p))`, whatever `p` is.
unfoldable pub consume : ℕ → Parser (Unit {0})
unfolding skip_ws
consume want s = elim (skip_ws s) [
  | [] ↦ failed (expected_char want b'?' 0)
  | c ∷ rest ↦ if c == want then done (tt, rest) else failed (expected_char want c 0)
]

-- The text in front of the next quote `q`, and what is behind the quote.
unfoldable pub until_quote : ℕ → Bytes → Option (Bytes × Bytes)
until_quote q [] = none
until_quote q (c ∷ s) =
    if c == q
    then some ([], s)
    else elim (until_quote q s) [ none ↦ none | some (text, rest) ↦ some (c ∷ text, rest) ]

unfoldable pub read_string : Parser Bytes
unfolding skip_ws until_quote
read_string s = elim (skip_ws s) [
  | [] ↦ failed expected_quote
  | q ∷ rest ↦
      if is_quote q
      then from_option unterminated_string (until_quote q rest)
      else failed expected_quote
]

unfoldable pub read_number : (strtod : Bytes → Option (ℕ × Bytes)) → Parser ℕ
unfolding skip_ws
read_number strtod s = elim (skip_ws s) [
  | [] ↦ failed expected_number
  | c ∷ rest ↦ from_option invalid_number (strtod (c ∷ rest))
]

-- The loop of `skip_value` behind an opening bracket. `some q` is inside a string that ends with `q`,
-- which the code skips by `read_string`.
unfoldable pub skip_nested : (open_char close_char : ℕ) → Option ℕ → ℕ → Parser (Unit {0})
skip_nested o c none depth [] = failed (unterminated o)
skip_nested o c (some q) depth [] = failed unterminated_string
skip_nested o c (some q) depth (d ∷ s) = skip_nested o c (if d == q then none else some q) depth s
skip_nested o c none depth (d ∷ s) =
    let deeper = skip_nested o c none (suc depth) s in
    let within = skip_nested o c none depth s in
    let quoted = skip_nested o c (some d) depth s in
    let outer : Outcome (Unit {0} × Bytes) = elim depth [
      | zero ↦ done (tt, s)
      | suc less ↦ skip_nested o c none less s
    ] in
    if is_quote d then quoted else if d == o then deeper else if d == c then outer else within

-- A number, true, false or null: up to the next ',', '}' or ']'.
unfoldable pub skip_plain : Bytes → Bytes
skip_plain [] = []
skip_plain (c ∷ s) = if c == b',' || c == b'}' || c == b']' then c ∷ s else skip_plain s

unfoldable pub skip_value : Parser (Unit {0})
unfolding skip_ws read_string skip_nested skip_plain
skip_value s = elim (skip_ws s) [
  | [] ↦ failed no_text
  | c ∷ rest ↦
      if is_quote c
      then bind (read_string (c ∷ rest)) (λ (_, behind). done (tt, behind))
      else if c == b'{'
      then skip_nested b'{' b'}' none 0 rest
      else if c == b'['
      then skip_nested b'[' b']' none 0 rest
      else done (tt, skip_plain (c ∷ rest))
]

-- `skip_ws(); if (p < end && *p == ',') ++p;`
unfoldable pub skip_comma : Bytes → Bytes
unfolding skip_ws
skip_comma s = elim (skip_ws s) [ [] ↦ [] | c ∷ rest ↦ if c == b',' then rest else c ∷ rest ]
