-- ===== src/Udt/Laws/Layout.antt =====
-- Where `ParseUdtSchema` places the fields of a payload.
use kv8_metrics.Prelude.{
  ℕ, zero, suc, ◌+◌, ◌%◌, ◌^◌, ◌≤◌, ◌<◌, ◌≡◌, refl, subst, some, List, [], ◌∷◌, get_elem?, arith,
}
use kv8_metrics.Prelude.{Option}
use kv8_metrics.Prelude.Bytes.{Bytes}
use kv8_metrics.Udt.Outcome.{done, bind-eq-done}
use kv8_metrics.Udt.Types.{SchemaField, ResolvedSchema, wire_size}
use kv8_metrics.Udt.Schema.{
  SchemaObject, assign_offsets, resolve_fields, finish_schema, read_schema, parse_udt_schema,
}

-- The bytes that the fields take.
abbrev pub total_size : List SchemaField → ℕ
total_size [] = 0
total_size (f ∷ fs) = wire_size f.type + total_size fs

-- The fields lie one behind the other, from `start` up to `stop`.
abbrev pub Packed : ℕ → List SchemaField → ℕ → Type 0
Packed start [] stop = start ≡ stop
Packed start (f ∷ fs) stop = (f.offset ≡ start) × Packed (start + wire_size f.type) fs stop

assign_offsets-Packed :
    (start : ℕ) (fs : List SchemaField)
    → start + total_size (assign_offsets start fs).0 < 2 ^ 16
    → Packed start (assign_offsets start fs).0 (assign_offsets start fs).1
unfolding assign_offsets
assign_offsets-Packed start [] h = refl
assign_offsets-Packed start (f ∷ fs) h =
    let next : (start + wire_size f.type) % 2 ^ 16 ≡ start + wire_size f.type = omega arith in
    (
      refl,
      subst
          (λ o.
            Packed o (assign_offsets ((start + wire_size f.type) % 2 ^ 16) fs).0
              (assign_offsets ((start + wire_size f.type) % 2 ^ 16) fs).1)
          next
          (assign_offsets-Packed ((start + wire_size f.type) % 2 ^ 16) fs (omega (arith, next))),
    )

-- Every field ends where the payload ends, or before.
Packed-within :
    (start stop : ℕ) (fs : List SchemaField)
    → Packed start fs stop
    → (start ≤ stop)
      × ((i : ℕ) (f : SchemaField)
          → get_elem? fs i ≡ some f
          → (start ≤ f.offset) × (f.offset + wire_size f.type ≤ stop))
Packed-within start stop [] p = (omega arith, λ i f e. cc)
Packed-within start stop (g ∷ fs) p =
    let (below, inner) = Packed-within (start + wire_size g.type) stop fs p.1 in
    (omega arith, λ i f e. at i f e below inner)
  where
    at :
        (i : ℕ) (f : SchemaField)
        → get_elem? (g ∷ fs) i ≡ some f
        → start + wire_size g.type ≤ stop
        → ((j : ℕ) (f' : SchemaField)
            → get_elem? fs j ≡ some f'
            → (start + wire_size g.type ≤ f'.offset) × (f'.offset + wire_size f'.type ≤ stop))
        → (start ≤ f.offset) × (f.offset + wire_size f.type ≤ stop)
    at zero f e below inner = ground (arith, p.0)
    at (suc i) f e below inner = ground (arith, inner i f e)

-- A field of a lower index ends before one of a higher index starts.
Packed-disjoint :
    (start stop : ℕ) (fs : List SchemaField)
    → Packed start fs stop
    → (i j : ℕ) (f g : SchemaField) → i < j
    → get_elem? fs i ≡ some f
    → get_elem? fs j ≡ some g
    → f.offset + wire_size f.type ≤ g.offset
Packed-disjoint start stop [] p i j f g lt ei ej = cc
Packed-disjoint start stop (h ∷ fs) p i zero f g lt ei ej = absurd (omega arith)
Packed-disjoint start stop (h ∷ fs) p zero (suc j) f g lt ei ej =
    ground (arith, p.0, ((Packed-within (start + wire_size h.type) stop fs p.1).1 j g ej).0)
Packed-disjoint start stop (h ∷ fs) p (suc i) (suc j) f g lt ei ej =
    Packed-disjoint (start + wire_size h.type) stop fs p.1 i j f g (omega arith) ei ej

finish_schema-resolved :
    (o : SchemaObject) (r : ResolvedSchema)
    → finish_schema o ≡ done r
    → resolve_fields o.schema_name o.raw_fields ≡ r
unfolding finish_schema
finish_schema-resolved o r e = ground arith

resolve_fields-Packed :
    (name : Bytes) (raw : List SchemaField) (r : ResolvedSchema)
    → resolve_fields name raw ≡ r
    → total_size r.fields < 2 ^ 16
    → Packed 0 r.fields r.payload_size
unfolding resolve_fields
resolve_fields-Packed name raw r e small =
    subst (λ s. total_size s.fields < 2 ^ 16 → Packed 0 s.fields s.payload_size) e
      (λ h. assign_offsets-Packed 0 raw (omega arith)) small

parse-resolved :
    (strtod : Bytes → Option (ℕ × Bytes)) (known : List (Bytes × ResolvedSchema)) (json : Bytes)
    (r : ResolvedSchema)
    → parse_udt_schema strtod known json ≡ done r
    → (o : SchemaObject) × (resolve_fields o.schema_name o.raw_fields ≡ r)
unfolding parse_udt_schema
parse-resolved strtod known [] r e = cc
parse-resolved strtod known (c ∷ s) r e =
    let ((o, rest), _, finished) =
      bind-eq-done (read_schema strtod known (c ∷ s)) (λ (o, _). finish_schema o) e in
    (o, finish_schema-resolved o r finished)

pub parse-Packed :
    (strtod : Bytes → Option (ℕ × Bytes)) (known : List (Bytes × ResolvedSchema)) (json : Bytes)
    (r : ResolvedSchema)
    → parse_udt_schema strtod known json ≡ done r
    → total_size r.fields < 2 ^ 16
    → Packed 0 r.fields r.payload_size
parse-Packed strtod known json r parsed small =
    let (o, e) = parse-resolved strtod known json r parsed in
    resolve_fields-Packed o.schema_name o.raw_fields r e small

-- Where the parse of any text succeeds, with fields of less than 64 KiB in all: each field lies
-- within the payload, and a field ends before the next ones start.
pub parse_udt_schema-disjoint :
    (strtod : Bytes → Option (ℕ × Bytes)) (known : List (Bytes × ResolvedSchema)) (json : Bytes)
    (r : ResolvedSchema)
    → parse_udt_schema strtod known json ≡ done r
    → total_size r.fields < 2 ^ 16
    → ((i : ℕ) (f : SchemaField)
        → get_elem? r.fields i ≡ some f
        → f.offset + wire_size f.type ≤ r.payload_size)
      × ((i j : ℕ) (f g : SchemaField)
          → i < j
          → get_elem? r.fields i ≡ some f
          → get_elem? r.fields j ≡ some g
          → f.offset + wire_size f.type ≤ g.offset)
parse_udt_schema-disjoint strtod known json r parsed small =
    let packed = parse-Packed strtod known json r parsed small in
    (
      λ i f at. ((Packed-within 0 r.payload_size r.fields packed).1 i f at).1,
      Packed-disjoint 0 r.payload_size r.fields packed,
    )
