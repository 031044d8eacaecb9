-- ===== src/Registry/Resolve.antt =====
-- The parse of the cached schemas in `DiscoverSessions` of libs/libkv8/src/Kv8Consumer.cpp: passes
-- over the schemas that remain, until none does or a pass resolves none.
use kv8_metrics.Prelude.{
  ℕ, zero, suc, Bool, true, false, not, ◌&&◌, Option, List, [], ◌∷◌, ◌++◌, length, ltb, ◌==◌,
  if◌then◌else◌,
}
use kv8_metrics.Prelude.Bytes.{Bytes}
use kv8_metrics.Prelude.Assoc.{assign, bytes_eq, nat_eq}
use kv8_metrics.Udt.Outcome.{Outcome, done, failed, out_of_fuel}
use kv8_metrics.Udt.Types.{ResolvedSchema}
use kv8_metrics.Udt.Schema.{parse_udt_schema}
use kv8_metrics.Registry.Ordered.{in_key_order}

pub record Resolution : Type 0 where
  pub known_schemas : List (Bytes × ResolvedSchema)
  pub hash_to_resolved : List (ℕ × ResolvedSchema)
  pub remaining : List (ℕ × Bytes)
  pub progress : Bool

-- What becomes of one pending schema, by the result of its parse.
unfoldable pub settle : ℕ × Bytes → Outcome ResolvedSchema → Resolution → Resolution
unfolding assign
settle (h, json) (done r) st = record st {
  known_schemas = assign r.schema_name (record r { hash = h }) st.known_schemas;
  hash_to_resolved = assign h (record r { hash = h }) st.hash_to_resolved;
  progress = true;
}
settle (h, json) (failed e) st = record st { remaining = st.remaining ++ (h, json) ∷ [] }
settle (h, json) out_of_fuel st = record st { remaining = st.remaining ++ (h, json) ∷ [] }

-- What a parser of `json.c_str()` sees of the text.
unfoldable pub c_str : Bytes → Bytes
c_str [] = []
c_str (c ∷ cs) = if c == 0 then [] else c ∷ c_str cs

abbrev pub none_left : List (ℕ × Bytes) → Bool
none_left [] = true
none_left (p ∷ ps) = false

module _ (strtod : Bytes → Option (ℕ × Bytes)) where
  -- One pass over the pending schemas; the ones that stay are collected again.
  unfoldable pub resolve_pass : List (ℕ × Bytes) → Resolution → Resolution
  unfolding settle parse_udt_schema
  resolve_pass [] st = st
  resolve_pass (p ∷ ps) st =
      resolve_pass ps (settle p (parse_udt_schema strtod st.known_schemas (c_str p.1)) st)

  -- `while (progress && !remaining.empty())`
  unfoldable pub resolve_loop : ℕ → Resolution → Resolution
  unfolding resolve_pass
  resolve_loop zero st = st
  resolve_loop (suc fuel) st =
      let next =
        resolve_loop fuel
          (resolve_pass st.remaining (record st { remaining = []; progress = false })) in
      if st.progress && not (none_left st.remaining) then next else st

  -- Each pass but the last takes a schema from `remaining`, so that one round more than there are
  -- schemas is enough.
  unfoldable pub resolve_schemas : List (ℕ × Bytes) → Resolution
  unfolding resolve_loop in_key_order
  resolve_schemas cache = resolve_loop (suc (length cache)) (record {
    known_schemas = [];
    hash_to_resolved = [];
    remaining = in_key_order ltb cache;
    progress = true;
  })
