-- ===== src/Kv8log/Register.antt =====
-- Registration in libs/kv8log/lib/kv8log_impl.cpp: counters, UDT feeds and schemas, log call sites.
-- `none` is an access outside `counters`.
use kv8_metrics.Prelude.{
  ℕ, ◌+◌, ◌%◌, ◌^◌, Bool, false, Option, none, some, List, [], ◌∷◌, ◌++◌, length, get_elem?, set,
  leb, ◌==◌, ◌||◌, if◌then◌else◌,
}
use kv8_metrics.Prelude.Bytes.{Bytes, codes}
use kv8_metrics.Wire.Hash.{fnv32, log_site_hash}
use kv8_metrics.Wire.LogSite.{LogSiteInfo, encode_tail}
use kv8_metrics.Wire.Registry.{write_fixed, registry_version, cid_log_site, cid_schema, flag_udt}
use kv8_metrics.Kv8log.Text.{hex4, hex8, trim_to_basename}
use kv8_metrics.Kv8log.Ctl.{find_key, skip_blanks}
use kv8_metrics.Kv8log.Session.{Session, Slot, Call, max_counters, log, registry_message}

-- Phase 1 of a registration: the id, and the slot appended under the lock.
unfoldable pub new_slot : Bytes → Bytes → ℕ → ℕ → ℕ → Slot
new_slot name topic mn mx id = record {
  name = name;
  data_topic = topic;
  mn = mn;
  mx = mx;
  id = id;
  seq = 0;
  rkt = none;
}

unfoldable pub append_slot : Session → Slot → Session
append_slot s slot = record s {
  counters = s.counters ++ slot ∷ [];
  next_id = (s.next_id + 1) % 2 ^ 16;
}

-- Phases 3 and 4: `counters[id].rkt = CreateTopic(topic)`, then the flush.
unfoldable pub attach_topic : (Bytes → Option ℕ) → Session → ℕ → Bytes → Option Session
attach_topic topics s id topic = elim (get_elem? s.counters id) [
  | none ↦ none
  | some slot ↦ some (
      log (record s { counters = set s.counters id (record slot { rkt = topics topic }) })
        (Call.create_topic topic ∷ Call.flush 2000 ∷ []))
]

unfoldable pub counter_topic : Session → ℕ → Bytes
unfolding hex4
counter_topic s id = s.group_topic ++ (codes "." ++ hex4 id)

abbrev pub returning : ℕ → Option Session → Option (Session × ℕ)
returning id none = none
returning id (some s) = some (s, id)

-- `kv8log_register_counter`: the session, and `*out_id`. It returns 0 whenever it returns.
unfoldable pub register_counter :
    (Bytes → Option ℕ) → Session → Bytes → ℕ → ℕ → Option (Session × ℕ)
unfolding new_slot append_slot attach_topic counter_topic registry_message
register_counter topics s name mn mx =
    let id = s.next_id in
    let topic = counter_topic s id in
    let s1 = append_slot s (new_slot name topic mn mx id) in
    let s2 = log s1 (
      Call.produce s1.reg_topic (registry_message s1.group_hash id 1 mn mx 0 0 0 0 name topic) []
      ∷ []) in
    returning id (attach_topic topics s2 id topic)

-- `ExtractSchemaName`: the value behind the first `"name":`, else behind the first `'name':`.
unfoldable pub until : ℕ → Bytes → Option Bytes
until q [] = none
until q (c ∷ cs) =
    let more = until q cs in
    if c == q then some [] else elim more [ none ↦ none | some t ↦ some (c ∷ t) ]

unfoldable pub quoted : Bytes → Bytes
unfolding until
quoted [] = []
quoted (q ∷ s) = if q == 34 || q == 39 then elim (until q s) [ none ↦ [] | some t ↦ t ] else []

unfoldable pub extract_schema_name : Bytes → Bytes
unfolding find_key skip_blanks quoted
extract_schema_name json = elim (find_key (codes "\"name\":") json) [
  | some p ↦ quoted (skip_blanks p)
  | none ↦ elim (find_key (codes "'name':") json) [ some p ↦ quoted (skip_blanks p) | none ↦ [] ]
]

unfoldable pub feed_topic : Session → ℕ → ℕ → Bytes
unfolding hex4 hex8
feed_topic s schema_hash id =
    s.channel_name
    ++ (codes "."
        ++ (s.session_id ++ (codes ".u." ++ (hex8 schema_hash ++ (codes "." ++ hex4 id)))))

unfoldable pub schema_message : Bytes → Bytes
unfolding registry_message extract_schema_name
schema_message json =
    registry_message (fnv32 json) cid_schema 0 0 0 0 0 0 0 (extract_schema_name json) json

-- The result of `kv8log_register_udt_feed`: the id space is exhausted (-2), or the id.
pub data FeedResult : Type 0 where
  exhausted : FeedResult
  registered : Session → ℕ → FeedResult

abbrev pub registering : ℕ → Option Session → Option FeedResult
registering id none = none
registering id (some s) = some (registered s id)

unfoldable pub feed_calls : Bytes → Bytes → Bytes → ℕ → Bytes → List Call
unfolding schema_message registry_message
feed_calls reg_topic name json id topic =
    Call.produce reg_topic (schema_message json) []
    ∷ Call.produce reg_topic
        (registry_message (fnv32 json) id (flag_udt + 1) 0 0 0 0 0 0 name topic) []
    ∷ []

unfoldable pub register_udt_feed : (Bytes → Option ℕ) → Session → Bytes → Bytes → Option FeedResult
unfolding new_slot append_slot attach_topic feed_topic feed_calls
register_udt_feed topics s name json =
    let id = s.next_id in
    let hash = fnv32 json in
    let topic = feed_topic s hash id in
    let s1 = append_slot s (new_slot name topic 0 0 id) in
    let s2 = log s1 (feed_calls s.reg_topic name json id topic) in
    if leb max_counters id then some exhausted else registering id (attach_topic topics s2 id topic)

-- `kv8log_register_udt_schema`
unfoldable pub register_udt_schema : Session → Bytes → Session
unfolding schema_message
register_udt_schema s json =
    log s (Call.produce s.reg_topic (schema_message json) [] ∷ Call.flush 2000 ∷ [])

unfoldable pub contains : ℕ → List ℕ → Bool
contains h [] = false
contains h (x ∷ xs) = x == h || contains h xs

-- The registry record of a call site, in front of its tail.
unfoldable pub site_message : ℕ → Bytes → Bytes
site_message hash tail =
    write_fixed
      (record {
        hash = hash;
        counter_id = cid_log_site;
        flags = 0;
        min_bits = 0;
        alarm_min = 0;
        max_bits = 0;
        alarm_max = 0;
        name_len = length tail % 2 ^ 16;
        topic_len = 0;
        version = registry_version;
        pad = 0;
        timer_frequency = 0;
        timer_value = 0;
        time_hi = 0;
        time_lo = 0;
      })
      tail

-- `kv8log_register_log_site`: the session and the hash. The tail's buffer has 2048 bytes.
unfoldable pub register_log_site : Session → Bytes → Bytes → ℕ → Bytes → Session × ℕ
unfolding trim_to_basename contains site_message hex8
register_log_site s path func line fmt =
    let file = trim_to_basename path in
    let hash = log_site_hash file line func in
    let seen = record s { sites_seen = hash ∷ s.sites_seen } in
    let site : LogSiteInfo = record { file = file; func = func; fmt = fmt; line = line } in
    if contains hash s.sites_seen then (s, hash) else elim (encode_tail site 2048) [
      | none ↦ (seen, hash)
      | some tail ↦
          (log seen (Call.produce s.reg_topic (site_message hash tail) (hex8 hash) ∷ []), hash)
    ]
