-- ===== src/Kv8log/Session.antt =====
-- The session handle of libs/kv8log/lib/kv8log_impl.cpp, `Kv8LogSession`, and `kv8log_open` and
-- `kv8log_close`. The calls made on the producer interface are kept in `calls`, the latest last.
use kv8_metrics.Prelude.{
  ℕ, ◌+◌, ◌*◌, ◌/◌, ◌%◌, ◌^◌, Bool, true, false, Option, none, some, List, [], ◌∷◌, ◌++◌, length,
  replicate, ltb, if◌then◌else◌,
}
use kv8_metrics.Prelude.Bytes.{Bytes, codes}
use kv8_metrics.Wire.Hash.{fnv32}
use kv8_metrics.Wire.Registry.{write_fixed, registry_version, cid_log, cid_group}
use kv8_metrics.Kv8log.Text.{hex8, sanitize_channel, session_of}
use kv8_metrics.Kv8log.Ctl.{session_open_msg}

-- The calls of IKv8Producer. A topic handle (`rd_kafka_topic_t*`) is a number, and none is nullptr;
-- a missing key is the empty one.
pub data Call : Type 0 where
  produce : Bytes → Bytes → Bytes → Call
  produce_to : Option ℕ → Bytes → Bytes → Call
  create_topic : Bytes → Call
  destroy_topic : ℕ → Call
  flush : ℕ → Call

-- CounterSlot; doubles are bit patterns.
pub record Slot : Type 0 where
  pub name : Bytes
  pub data_topic : Bytes
  pub mn : ℕ
  pub mx : ℕ
  pub id : ℕ
  pub seq : ℕ
  pub rkt : Option ℕ

-- Kv8LogSession. `enabled` is the array aEnabled.
pub record Session : Type 0 where
  pub wall_anchor : ℕ
  pub mono_anchor : ℕ
  pub channel_name : Bytes
  pub session_id : Bytes
  pub reg_topic : Bytes
  pub log_topic : Bytes
  pub group_topic : Bytes
  pub group_hash : ℕ
  pub counters : List Slot
  pub next_id : ℕ
  pub enabled : List Bool
  pub ctl_topic : Bytes
  pub ctl_stop : Bool
  pub log_rkt : Option ℕ
  pub sites_seen : List ℕ
  pub calls : List Call

abbrev pub max_counters : ℕ
max_counters = 1024

abbrev pub timer_frequency : ℕ
timer_frequency = 1000000000

abbrev pub is_empty : Bytes → Bool
is_empty [] = true
is_empty (c ∷ s) = false

abbrev pub log : Session → List Call → Session
log s cs = record s { calls = s.calls ++ cs }

-- `WriteRegistryRecord`: the message that it produces. The lengths are cut to 16 bits.
unfoldable pub registry_message :
    (hash id flags mn mx frequency timer hi lo : ℕ) → Bytes → Bytes → Bytes
registry_message hash id flags mn mx frequency timer hi lo name topic =
    write_fixed
      (record {
        hash = hash;
        counter_id = id;
        flags = flags;
        min_bits = mn;
        alarm_min = mn;
        max_bits = mx;
        alarm_max = mx;
        name_len = length name % 2 ^ 16;
        topic_len = length topic % 2 ^ 16;
        version = registry_version;
        pad = 0;
        timer_frequency = frequency;
        timer_value = timer;
        time_hi = hi;
        time_lo = lo;
      })
      (name ++ topic)

-- `GetFiletime`, from the seconds and nanoseconds of the wall clock.
unfoldable pub filetime : ℕ → ℕ → ℕ
filetime sec nsec = (sec * 10000000 + nsec / 100 + 116444736000000000) % 2 ^ 64

unfoldable pub filetime_hi : ℕ → ℕ
filetime_hi ft = ft / 2 ^ 32 % 2 ^ 32

unfoldable pub filetime_lo : ℕ → ℕ
filetime_lo ft = ft % 2 ^ 32

-- `if (n > 0 && n < sizeof(msg)) Produce(...)`, for a message printed to a buffer of 128 bytes.
unfoldable pub produce_msg : Bytes → Bytes → List Call
produce_msg topic msg =
    if ltb 0 (length msg)
    then if ltb (length msg) 128 then Call.produce topic msg [] ∷ [] else []
    else []

-- The clock readings of one call: CLOCK_MONOTONIC in ns, and the wall clock in seconds and ns.
pub record Clock : Type 0 where
  pub mono : ℕ
  pub sec : ℕ
  pub nsec : ℕ

-- `WallNs`
unfoldable pub wall_ns : Clock → ℕ
wall_ns c = (c.sec * 1000000000 + c.nsec) % 2 ^ 64

-- Kv8LogSession::WriteSessionHeader, with the clock at `GetFiletime` and at the `session_open` marker.
unfoldable pub session_header : Session → Clock → Clock → List Call
unfolding registry_message filetime filetime_hi filetime_lo produce_msg wall_ns
session_header s started marked =
    let ft = filetime started.sec started.nsec in
    (if is_empty s.ctl_topic then [] else Call.produce s.ctl_topic [] [] ∷ Call.flush 2000 ∷ [])
    ++ (Call.produce s.reg_topic
          (registry_message 0 cid_log 0 0 0 0 0 0 0 s.channel_name s.log_topic) []
        ∷ Call.produce s.reg_topic
            (registry_message s.group_hash cid_group 0 0 0 timer_frequency s.mono_anchor
              (filetime_hi ft) (filetime_lo ft) s.channel_name s.group_topic)
            []
        ∷ Call.flush 5000
        ∷ (if is_empty s.ctl_topic
            then []
            else produce_msg s.ctl_topic (session_open_msg (wall_ns marked / 1000000))
              ++ Call.flush 2000 ∷ []))

-- `kv8log_open`, once the producer is there. `full` is the name made by `GenerateTopicName`, and
-- `topics` is what `CreateTopic` returns for a name. The clock is read at `CaptureAnchors`, and twice
-- while the header is written.
module _ (topics : Bytes → Option ℕ) where
  unfoldable pub open_session : Bytes → Bytes → Clock → Clock → Clock → Session
  unfolding session_header sanitize_channel session_of hex8 wall_ns
  open_session channel full anchors started marked =
      let chan = sanitize_channel channel in
      let ses = session_of full in
      let hash = fnv32 chan in
      let s : Session = record {
        wall_anchor = wall_ns anchors;
        mono_anchor = anchors.mono;
        channel_name = chan;
        session_id = ses;
        reg_topic = chan ++ codes "._registry";
        log_topic = chan ++ (codes "." ++ (ses ++ codes "._log"));
        group_topic = chan ++ (codes "." ++ (ses ++ (codes ".d." ++ hex8 hash)));
        group_hash = hash;
        counters = [];
        next_id = 0;
        enabled = replicate max_counters true;
        ctl_topic = chan ++ (codes "." ++ (ses ++ codes "._ctl"));
        ctl_stop = false;
        log_rkt = none;
        sites_seen = [];
        calls = [];
      } in
      record s {
        log_rkt = topics s.log_topic;
        calls = session_header s started marked ++ Call.create_topic s.log_topic ∷ [];
      }

unfoldable pub destroy_handle : Option ℕ → List Call
destroy_handle none = []
destroy_handle (some k) = Call.destroy_topic k ∷ []

unfoldable pub destroy_slots : List Slot → List Call
unfolding destroy_handle
destroy_slots [] = []
destroy_slots (c ∷ cs) = destroy_handle c.rkt ++ destroy_slots cs

-- The calls of `kv8log_close`, in order, before the session is deleted.
unfoldable pub close_session : Session → List Call
unfolding destroy_slots destroy_handle
close_session s = destroy_slots s.counters ++ (destroy_handle s.log_rkt ++ Call.flush 10000 ∷ [])
