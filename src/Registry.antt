-- ===== src/Registry.antt =====
-- What a consumer learns from the records of a channel's `._registry` topic: `ParseRegistryRecord`
-- of libs/libkv8/src/Kv8Consumer.cpp, with SessionMeta and CounterMeta of
-- libs/libkv8/include/kv8/Kv8Types.h. A std::map is an association list, a std::set a list of
-- members.
use kv8_metrics.Prelude.{
  ℕ, ◌+◌, ◌≡◌, Bool, true, false, not, ◌&&◌, ◌||◌, Option, none, some, List, [], ◌∷◌, ◌++◌, length,
  take, drop, ◌==◌, ltb, leb, if◌then◌else◌,
}
use kv8_metrics.Prelude.Bytes.{Bytes, codes}
use Prim.Native.Nat.{bit_and}
use kv8_metrics.Prelude.Assoc.{find, assign, insert, bytes_beq, bytes_eq, nat_eq}
use kv8_metrics.Wire.Registry.{
  RegistryRecord, read_fixed, registry_size, registry_version, cid_log_site, cid_schema,
  cid_deleted, cid_log, cid_group, flag_udt,
}
use kv8_metrics.Wire.LogSite.{LogSiteInfo, decode_tail}
pub mod Ordered
pub mod Resolve
pub mod Virtual
pub mod Laws
mod Tests
mod VirtualTests

-- The double-valued members are bit patterns. A record of the registry leaves the last four at their
-- defaults; they are for the counters made up for the fields of a feed.
pub record CounterMeta : Type 0 where
  pub name : Bytes
  pub counter_id : ℕ
  pub flags : ℕ
  pub min_bits : ℕ
  pub alarm_min : ℕ
  pub max_bits : ℕ
  pub alarm_max : ℕ
  pub data_topic : Bytes
  pub is_udt_feed : Bool
  pub schema_hash : ℕ
  pub schema_json : Bytes
  pub is_virtual_field : Bool
  pub field_offset : ℕ
  pub field_type : ℕ
  pub display_name : Bytes

pub record SessionMeta : Type 0 where
  pub session_id : Bytes
  pub session_prefix : Bytes
  pub name : Bytes
  pub log_topic : Bytes
  pub control_topic : Bytes
  pub hash_to_group : List (ℕ × Bytes)
  pub hash_to_counters : List (ℕ × List CounterMeta)
  pub data_topics : List Bytes
  pub topic_to_group_name : List (Bytes × Bytes)
  pub topic_to_group_hash : List (Bytes × ℕ)
  pub topic_to_frequency : List (Bytes × ℕ)
  pub topic_to_timer_value : List (Bytes × ℕ)
  pub topic_to_time_hi : List (Bytes × ℕ)
  pub topic_to_time_lo : List (Bytes × ℕ)
  pub topic_to_counter : List (Bytes × CounterMeta)
  pub log_sites : List (ℕ × LogSiteInfo)

-- The four containers that a scan fills.
pub record Scan : Type 0 where
  pub sessions : List (Bytes × SessionMeta)
  pub deleted : List Bytes
  pub schemas : List (ℕ × Bytes)
  pub sites : List (ℕ × LogSiteInfo)

unfoldable pub is_prefix : Bytes → Bytes → Bool
is_prefix [] s = true
is_prefix (c ∷ p) [] = false
is_prefix (c ∷ p) (d ∷ s) = c == d && is_prefix p s

-- `s.substr(0, s.rfind(p))`, and none where `p` does not occur.
unfoldable pub before_last : Bytes → Bytes → Option Bytes
unfolding is_prefix
before_last p [] = if is_prefix p [] then some [] else none
before_last p (c ∷ s) = elim (before_last p s) [
  | some r ↦ some (c ∷ r)
  | none ↦ if is_prefix p (c ∷ s) then some [] else none
]

unfoldable pub or_else : Option Bytes → Option Bytes → Option Bytes
or_else none b = b
or_else (some a) b = some a

unfoldable pub session_prefix : ℕ → Bytes → Option Bytes
unfolding before_last or_else
session_prefix id topic =
    if id == cid_log
    then before_last (codes "._log") topic
    else or_else (before_last (codes ".d.") topic) (before_last (codes ".u.") topic)

-- The check that the prefix starts with "<channel>." and has more behind it.
unfoldable pub of_channel : Bytes → Bytes → Bool
of_channel channel prefix =
    not (leb (length prefix) (length channel + 1))
    && bytes_beq (take (length channel + 1) prefix) (channel ++ codes ".")

unfoldable pub new_session : Bytes → Bytes → SessionMeta
new_session channel prefix = record {
  session_id = drop (length channel + 1) prefix;
  session_prefix = prefix;
  name = [];
  log_topic = prefix ++ codes "._log";
  control_topic = prefix ++ codes "._ctl";
  hash_to_group = [];
  hash_to_counters = [];
  data_topics = [];
  topic_to_group_name = [];
  topic_to_group_hash = [];
  topic_to_frequency = [];
  topic_to_timer_value = [];
  topic_to_time_hi = [];
  topic_to_time_lo = [];
  topic_to_counter = [];
  log_sites = [];
}

unfoldable pub session_at : Bytes → Bytes → List (Bytes × SessionMeta) → SessionMeta
unfolding find new_session
session_at channel prefix sessions = elim (find prefix sessions) [
  | none ↦ new_session channel prefix
  | some sm ↦ sm
]

-- `if (v > 0) m[k] = v`
unfoldable pub assign_positive : Bytes → ℕ → List (Bytes × ℕ) → List (Bytes × ℕ)
unfolding assign
assign_positive k v m = if ltb 0 v then assign k v m else m

unfoldable pub store_group : RegistryRecord → Bytes → Bytes → SessionMeta → SessionMeta
unfolding assign insert assign_positive
store_group r name topic sm =
    let timed = ltb 0 r.time_hi || ltb 0 r.time_lo in
    record sm {
      hash_to_group = assign r.hash name sm.hash_to_group;
      topic_to_group_name = assign topic name sm.topic_to_group_name;
      topic_to_group_hash = assign topic r.hash sm.topic_to_group_hash;
      data_topics = insert topic sm.data_topics;
      topic_to_frequency = assign_positive topic r.timer_frequency sm.topic_to_frequency;
      topic_to_timer_value = assign_positive topic r.timer_value sm.topic_to_timer_value;
      topic_to_time_hi =
          if timed then assign topic r.time_hi sm.topic_to_time_hi else sm.topic_to_time_hi;
      topic_to_time_lo =
          if timed then assign topic r.time_lo sm.topic_to_time_lo else sm.topic_to_time_lo;
    }

unfoldable pub counter_meta : RegistryRecord → Bytes → Bytes → List (ℕ × Bytes) → CounterMeta
unfolding find
counter_meta r name topic schemas =
    let udt = not (bit_and r.flags flag_udt == 0) in
    record {
      name = name;
      counter_id = r.counter_id;
      flags = r.flags;
      min_bits = r.min_bits;
      alarm_min = r.alarm_min;
      max_bits = r.max_bits;
      alarm_max = r.alarm_max;
      data_topic = topic;
      is_udt_feed = udt;
      schema_hash = if udt then r.hash else 0;
      schema_json = if udt then elim (find r.hash schemas) [ none ↦ [] | some json ↦ json ] else [];
      is_virtual_field = false;
      field_offset = 0;
      field_type = 0;
      display_name = [];
    }

-- `m[k].push_back(v)`
unfoldable pub push_back :
    ℕ → CounterMeta → List (ℕ × List CounterMeta) → List (ℕ × List CounterMeta)
unfolding find assign
push_back k v m = assign k (elim (find k m) [ none ↦ v ∷ [] | some vs ↦ vs ++ v ∷ [] ]) m

unfoldable pub store_counter : CounterMeta → RegistryRecord → SessionMeta → SessionMeta
unfolding assign insert push_back
store_counter cm r sm = record sm {
  hash_to_counters = push_back r.hash cm sm.hash_to_counters;
  data_topics = insert cm.data_topic sm.data_topics;
  topic_to_counter = assign cm.data_topic cm sm.topic_to_counter;
}

-- From "Ensure session entry exists" on.
unfoldable pub store_session : Bytes → Bytes → RegistryRecord → Bytes → Bytes → Scan → Scan
unfolding session_at store_group counter_meta store_counter assign
store_session channel prefix r name topic st =
    let sm = session_at channel prefix st.sessions in
    let updated =
      if r.counter_id == cid_log
      then record sm { name = name }
      else if r.counter_id == cid_group
      then store_group r name topic sm
      else store_counter (counter_meta r name topic st.schemas) r sm in
    record st { sessions = assign prefix updated st.sessions }

unfoldable pub is_empty : Bytes → Bool
is_empty [] = true
is_empty (c ∷ s) = false

-- From the derivation of the session prefix on.
unfoldable pub store_topic : Bytes → RegistryRecord → Bytes → Bytes → Scan → Scan
unfolding session_prefix of_channel store_session
store_topic channel r name topic st = elim (session_prefix r.counter_id topic) [
  | none ↦ st
  | some prefix ↦
      if of_channel channel prefix then store_session channel prefix r name topic st else st
]

unfoldable pub store_site : ℕ → Bytes → Scan → Scan
unfolding assign
store_site hash tail st = elim (decode_tail tail) [
  | none ↦ st
  | some info ↦ record st { sites = assign hash info st.sites }
]

-- Behind the guards on the size and the version.
unfoldable pub store_record : Bytes → RegistryRecord → Bytes → Bytes → Scan → Scan
unfolding store_site store_topic is_empty insert assign
store_record channel r name topic st =
    if r.counter_id == cid_log_site
    then store_site r.hash name st
    else if r.counter_id == cid_deleted
    then (if is_empty name then st else record st { deleted = insert name st.deleted })
    else if r.counter_id == cid_schema
    then record st { schemas = assign r.hash topic st.schemas }
    else if is_empty topic
    then st
    else store_topic channel r name topic st

-- The guards, with the record `r` seen through the cast pointer and the bytes `tail` behind it.
unfoldable pub parse_fields : Bytes → ℕ → RegistryRecord → Bytes → Scan → Scan
unfolding store_record
parse_fields channel size r tail st =
    if not (r.version == registry_version)
    then st
    else if ltb size (registry_size + r.name_len + r.topic_len)
    then st
    else store_record channel r (take r.name_len tail) (take r.topic_len (drop r.name_len tail)) st

-- `ParseRegistryRecord` on a payload of `length payload` bytes.
unfoldable pub parse_record : Bytes → Bytes → Scan → Scan
unfolding read_fixed parse_fields
parse_record channel payload st =
    if ltb (length payload) registry_size
    then st
    else parse_fields channel (length payload) (read_fixed payload) (drop registry_size payload) st

-- The loop of `DiscoverSessions` over the payloads of a registry topic.
unfoldable pub scan : Bytes → List Bytes → Scan → Scan
unfolding parse_record
scan channel [] st = st
scan channel (p ∷ ps) st = scan channel ps (parse_record channel p st)
