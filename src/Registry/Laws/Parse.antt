-- ===== src/Registry/Laws/Parse.antt =====
-- The guards of `ParseRegistryRecord`, and what it makes of a whole record.
use kv8_metrics.Prelude.{
  ℕ, ◌+◌, ◌≤◌, ◌≡◌, ap₂, dec_lt, ℕ_discrete, ◌∙◌, [], ◌++◌, length, length-append, append-nil, drop,
  arith,
}
use kv8_metrics.Prelude.Bytes.{Bytes, take-length, drop-length}
use kv8_metrics.Wire.Registry.{
  RegistryRecord, Fits, write_fixed, read_fixed, read-write_fixed, drop-write_fixed,
  length-write_fixed, registry_size, registry_version,
}
use kv8_metrics.Registry.{Scan, parse_record, parse_fields, store_record}

-- What a payload needs to be stored.
pub record IsReadable (payload : Bytes) : Type 0 where
  pub whole : registry_size ≤ length payload
  pub known : (read_fixed payload).version ≡ registry_version
  pub complete :
      registry_size + (read_fixed payload).name_len + (read_fixed payload).topic_len
      ≤ length payload

fields_ignored :
    (channel : Bytes) (size : ℕ) (r : RegistryRecord) (tail : Bytes) (st : Scan)
    → ¬ ((r.version ≡ registry_version) × (registry_size + r.name_len + r.topic_len ≤ size))
    → parse_fields channel size r tail st ≡ st
unfolding parse_fields
fields_ignored channel size r tail st h = elim (ℕ_discrete r.version registry_version) [
  | no n ↦ ground arith
  | yes e ↦ elim (dec_lt size (registry_size + r.name_len + r.topic_len)) [
    | yes short ↦ ground arith
    | no long ↦ absurd (h (e, omega arith))
  ]
]

-- A payload that is too short for its fixed part, for the texts that its lengths announce, or that
-- has another version leaves the scan unchanged.
pub unreadable_ignored :
    (channel payload : Bytes) (st : Scan)
    → ¬ IsReadable payload
    → parse_record channel payload st ≡ st
unfolding parse_record
unreadable_ignored channel payload st h = elim (dec_lt (length payload) registry_size) [
  | yes short ↦ ground arith
  | no long ↦
      let rest : parse_fields channel (length payload) (read_fixed payload)
            (drop registry_size payload) st
          ≡ st =
        fields_ignored channel (length payload) (read_fixed payload) (drop registry_size payload) st
          (λ f. h (record { whole = omega arith; known = f.0; complete = f.1 })) in
      ground arith
]

fields-store :
    (channel name topic : Bytes) (size : ℕ) (r : RegistryRecord) (st : Scan)
    → r.version ≡ registry_version
    → length name ≡ r.name_len
    → length topic ≡ r.topic_len
    → registry_size + r.name_len + r.topic_len ≤ size
    → parse_fields channel size r (name ++ topic) st ≡ store_record channel r name topic st
unfolding parse_fields
fields-store channel name topic size r st v hn ht room = ground (
  arith,
  take-length r.name_len name topic hn,
  drop-length r.name_len name topic hn,
  take-length r.topic_len topic [] ht,
  append-nil topic,
)

long_enough :
    (channel payload : Bytes) (st : Scan)
    → registry_size ≤ length payload
    → parse_record channel payload st
      ≡ parse_fields channel (length payload) (read_fixed payload) (drop registry_size payload) st
unfolding parse_record
long_enough channel payload st h = ground arith

-- A record of the current version, whose fields fit their widths and whose lengths are those of
-- its name and topic, is stored with exactly the name and the topic written behind it.
pub parse-write :
    (channel name topic : Bytes) (r : RegistryRecord) (st : Scan)
    → Fits r
    → r.version ≡ registry_version
    → length name ≡ r.name_len
    → length topic ≡ r.topic_len
    → parse_record channel (write_fixed r (name ++ topic)) st ≡ store_record channel r name topic st
parse-write channel name topic r st f v hn ht =
    let size : length (write_fixed r (name ++ topic)) ≡ registry_size + r.name_len + r.topic_len =
      length-write_fixed r (name ++ topic) ∙ omega (arith, length-append name topic) in
    long_enough channel (write_fixed r (name ++ topic)) st (omega (arith, size))
    ∙ ap₂ (λ q tail. parse_fields channel (length (write_fixed r (name ++ topic))) q tail st)
        (read-write_fixed r (name ++ topic) f) (drop-write_fixed r (name ++ topic))
    ∙ fields-store channel name topic _ r st v hn ht (omega (arith, size))
