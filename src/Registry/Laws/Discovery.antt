-- ===== src/Registry/Laws/Discovery.antt =====
-- The records that a producer writes for a counter, for its session and for a deleted session, as a
-- consumer finds them in the registry.
use kv8_metrics.Prelude.{
  ℕ, ◌^◌, ◌<◌, ◌≡◌, refl, sym, ap, subst, ◌∙◌, true, false, Option, some, List, [], ◌∷◌, ◌++◌,
  length, length-append, append_assoc, ◌==◌, if◌then◌else◌, arith,
}
use kv8_metrics.Prelude.Bytes.{Bytes, codes}
use kv8_metrics.Prelude.Assoc.{find, assign, find-assign, bytes_beq_refl, bytes_eq}
use kv8_metrics.Wire.Registry.{
  RegistryRecord, cid_log_site, cid_schema, cid_deleted, cid_log, cid_group,
}
use kv8_metrics.Kv8log.Text.{hex4, hex8, sanitize_channel, session_of}
use kv8_metrics.Wire.Hash.{fnv32-lt}
use kv8_metrics.Kv8log.Session.{Session, Clock, open_session, registry_message}
use kv8_metrics.Kv8log.Register.{counter_topic}
use kv8_metrics.Registry.{
  Scan, SessionMeta, CounterMeta, parse_record, store_record, store_topic, store_session,
  session_prefix, of_channel, session_at, counter_meta, store_counter, is_empty,
}
use kv8_metrics.Registry.Laws.Prefix.{hex-Lacks, prefix-data_topic, of_channel-append}
use kv8_metrics.Prelude.Bytes.{}
use kv8_metrics.Registry.Laws.Message.{fields, message-parsed}

find-assign_self :
    {V : Type 0} (k : Bytes) (v : V) (m : List (Bytes × V)) → find k (assign k v m) ≡ some v
find-assign_self k v m = ground (arith, find-assign k k v m, bytes_beq_refl k)

-- What a scan says of the counter that stands on a topic of the session with a given prefix.
pub record Discovered (prefix topic : Bytes) (cm : CounterMeta) (st : Scan) : Type 0 where
  pub session : SessionMeta
  pub listed : find prefix st.sessions ≡ some session
  pub counter : find topic session.topic_to_counter ≡ some cm

-- The tests that a counter's id goes through.
counter_branch :
    {A : Type 0} (id : ℕ) (a b c : A)
    → id < cid_log
    → (if id == cid_log then a else if id == cid_group then b else c) ≡ c
counter_branch id a b c h = ground arith

record_branch :
    {A : Type 0} (id : ℕ) (topic : Bytes) (a b c d e : A)
    → id < cid_log_site
    → 0 < length topic
    → (if id == cid_log_site
        then a
        else if id == cid_deleted
        then b
        else if id == cid_schema
        then c
        else if is_empty topic
        then d
        else e)
      ≡ e
unfolding is_empty
record_branch id [] a b c d e h full = absurd (omega arith)
record_branch id (x ∷ topic) a b c d e h full = ground arith

module _ (channel prefix name topic : Bytes) (r : RegistryRecord) (st : Scan) where
  found : SessionMeta
  found =
      store_counter (counter_meta r name topic st.schemas) r (session_at channel prefix st.sessions)

  store_session-Discovered :
      r.counter_id < cid_log
      → Discovered prefix topic
          (counter_meta r name topic st.schemas)
          (store_session channel prefix r name topic st)
  unfolding store_session found store_counter counter_meta
  store_session-Discovered low = record {
    session = found;
    listed =
        ap (find prefix)
          (ap (λ u. assign prefix u st.sessions) (counter_branch r.counter_id _ _ found low))
        ∙ find-assign_self prefix found st.sessions;
    counter = find-assign_self topic (counter_meta r name topic st.schemas) _;
  }

  store_topic-Discovered :
      r.counter_id < cid_log
      → session_prefix r.counter_id topic ≡ some prefix
      → of_channel channel prefix ≡ true
      → Discovered prefix topic
          (counter_meta r name topic st.schemas)
          (store_topic channel r name topic st)
  unfolding store_topic
  store_topic-Discovered low p own = rw (p, store_topic) (rw own (store_session-Discovered low))

  pub store_record-Discovered :
      r.counter_id < cid_log_site
      → 0 < length topic
      → session_prefix r.counter_id topic ≡ some prefix
      → of_channel channel prefix ≡ true
      → Discovered prefix topic
          (counter_meta r name topic st.schemas)
          (store_record channel r name topic st)
  unfolding store_record
  store_record-Discovered low full p own =
      subst (Discovered prefix topic (counter_meta r name topic st.schemas))
        (sym (record_branch r.counter_id topic _ _ _ _ _ low full))
        (store_topic-Discovered (omega arith) p own)

  -- A record whose topic belongs to another channel.
  pub store_record-foreign :
      r.counter_id < cid_log_site
      → 0 < length topic
      → session_prefix r.counter_id topic ≡ some prefix
      → of_channel channel prefix ≡ false
      → store_record channel r name topic st ≡ st
  unfolding store_record
  store_record-foreign low full p other =
      record_branch r.counter_id topic _ _ _ _ _ low full ∙ rw (p, store_topic) (rw other refl)

-- The session's topics carry its channel and its id, as `kv8log_open` names them.
pub record IsNamed (s : Session) : Type 0 where
  pub group :
      s.group_topic
      ≡ s.channel_name ++ (codes "." ++ (s.session_id ++ (codes ".d." ++ hex8 s.group_hash)))
  pub id_given : 0 < length s.session_id
  pub hash_fits : s.group_hash < 2 ^ 32

abbrev pub prefix_of : Session → Bytes
prefix_of s = s.channel_name ++ (codes "." ++ s.session_id)

topic_split :
    (s : Session) (id : ℕ)
    → IsNamed s
    → counter_topic s id
      ≡ prefix_of s ++ (codes ".d." ++ (hex8 s.group_hash ++ (codes "." ++ hex4 id)))
unfolding counter_topic
topic_split s id n = rw (n.group) (simp append_assoc)

counter_prefix :
    (s : Session) (id : ℕ)
    → IsNamed s
    → id < cid_log
    → session_prefix id (counter_topic s id) ≡ some (prefix_of s)
counter_prefix s id n h =
    ap (session_prefix id) (topic_split s id n)
    ∙ prefix-data_topic id (prefix_of s) _ h (hex-Lacks 100 s.group_hash id (omega arith))

topic_given : (s : Session) (id : ℕ) → IsNamed s → 0 < length (counter_topic s id)
topic_given s id n = omega (
  arith,
  ap length (topic_split s id n),
  length-append (prefix_of s) (codes ".d." ++ (hex8 s.group_hash ++ (codes "." ++ hex4 id))),
)

-- A session that was just opened is named so.
pub open-IsNamed :
    (topics : Bytes → Option ℕ) (channel full : Bytes) (a b c : Clock)
    → 0 < length (session_of full)
    → IsNamed (open_session topics channel full a b c)
unfolding open_session
open-IsNamed topics channel full a b c h = record {
  group = refl;
  id_given = h;
  hash_fits = fnv32-lt (sanitize_channel channel);
}

-- For a session named as `kv8log_open` names it, an id below the reserved ones and texts below
-- 64 KiB: a consumer of the channel that reads the record of a counter finds the counter under
-- the prefix of the session and the topic of the counter, with the name, the id and the range
-- that it was registered with.
pub counter-Discovered :
    (s : Session) (id mn mx : ℕ) (name : Bytes) (st : Scan)
    → IsNamed s
    → id < cid_log_site
    → mn < 2 ^ 64
    → mx < 2 ^ 64
    → length name < 2 ^ 16
    → length (counter_topic s id) < 2 ^ 16
    → Discovered
        (prefix_of s)
        (counter_topic s id)
        (record {
          name = name;
          counter_id = id;
          flags = 1;
          min_bits = mn;
          alarm_min = mn;
          max_bits = mx;
          alarm_max = mx;
          data_topic = counter_topic s id;
          is_udt_feed = false;
          schema_hash = 0;
          schema_json = [];
          is_virtual_field = false;
          field_offset = 0;
          field_type = 0;
          display_name = [];
        })
        (parse_record s.channel_name
          (registry_message s.group_hash id 1 mn mx 0 0 0 0 name (counter_topic s id))
          st)
unfolding fields counter_meta
counter-Discovered s id mn mx name st n hid hmn hmx hname htopic =
    subst
      (Discovered (prefix_of s) (counter_topic s id)
        (counter_meta sent name (counter_topic s id) st.schemas))
      (sym (
        message-parsed s.group_hash id 1 mn mx name (counter_topic s id) s.channel_name st
          n.hash_fits (omega arith) (omega arith) hmn hmx hname htopic))
      (store_record-Discovered s.channel_name (prefix_of s) name (counter_topic s id) sent st hid
        (topic_given s id n) (counter_prefix s id n (omega arith))
        (of_channel-append s.channel_name s.session_id n.id_given))
  where
    sent : RegistryRecord
    sent = fields s.group_hash id 1 mn mx 0 0 0 0 name (counter_topic s id)
