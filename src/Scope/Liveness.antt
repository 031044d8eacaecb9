-- ===== src/Scope/Liveness.antt =====
-- `ProbeSessionLiveness` of kv8scope/SessionManager.cpp, with HbRecord of
-- libs/libkv8/include/kv8/Kv8Types.h. What the consumer answers and the clock are arguments.
use kv8_metrics.Prelude.{
  ℕ, ◌+◌, ◌*◌, Bool, true, false, not, ◌&&◌, Option, none, some, List, [], ◌∷◌, ◌++◌, length, ltb,
  ◌==◌, if◌then◌else◌,
}
use kv8_metrics.Prelude.Bytes.{Bytes, codes, field, skip}
use kv8_metrics.Prelude.Int.{ℤ, int_lt, signed}
use kv8_metrics.Registry.{SessionMeta}

pub data Liveness : Type 0 where
  unknown live going_offline offline historical : Liveness

pub record LivenessInfo : Type 0 where
  pub state : Liveness
  pub last_sample : ℤ
  pub heartbeat : ℤ
  pub has_heartbeat : Bool
  pub registry_closed : Bool

-- ScopeConfig::LivenessConfig, in seconds.
pub record LivenessConfig : Type 0 where
  pub heartbeat_live : ℕ
  pub heartbeat_dead : ℕ
  pub data_live : ℕ
  pub data_dead : ℕ

-- The calls on the consumer, and the wall clock in milliseconds when the probe starts.
-- `read_latest` gives the result of ReadLatestRecord and the payload that its callback was handed.
pub record Probe : Type 0 where
  pub now : ℕ
  pub read_latest : Bytes → Bool × Option Bytes
  pub latest_timestamp : Bytes → ℤ

abbrev pub hb_size : ℕ
hb_size = 16

abbrev pub hb_version : ℕ
hb_version = 1

abbrev pub hb_shutdown : ℕ
hb_shutdown = 0

abbrev pub no_info : LivenessInfo
no_info = record {
  state = Liveness.unknown;
  last_sample = ℤ.pos 0;
  heartbeat = ℤ.pos 0;
  has_heartbeat = false;
  registry_closed = false;
}

-- `nowMs - ts < limit`
unfoldable pub younger : ℕ → ℤ → ℕ → Bool
younger now (ℤ.pos ts) limit = ltb now (ts + limit)
younger now (ℤ.negsuc ts) limit = ltb (now + ts + 1) limit

-- The classes that both layers share.
unfoldable pub by_age : ℕ → ℤ → (live_s dead_s : ℕ) → Liveness
unfolding younger
by_age now ts live_s dead_s =
    if younger now ts (live_s * 1000)
    then Liveness.live
    else if younger now ts (dead_s * 1000)
    then Liveness.going_offline
    else Liveness.offline

-- The callback on the payload of the heartbeat topic.
unfoldable pub read_heartbeat : Option Bytes → LivenessInfo
unfolding field skip signed
read_heartbeat none = no_info
read_heartbeat (some payload) =
    if not (ltb (length payload) hb_size) && field 1 payload == hb_version
    then record no_info {
      has_heartbeat = true;
      heartbeat = signed 64 (field 8 (skip 8 payload));
      registry_closed = field 1 (skip 1 payload) == hb_shutdown;
    }
    else no_info

-- The newest timestamp of the topics, from `newest` on.
unfoldable pub newest_timestamp : (Bytes → ℤ) → ℤ → List Bytes → ℤ
unfolding int_lt
newest_timestamp latest newest [] = newest
newest_timestamp latest newest (topic ∷ topics) =
    newest_timestamp latest (if int_lt newest (latest topic) then latest topic else newest) topics

-- Layer 1, with a heartbeat.
unfoldable pub by_heartbeat : LivenessConfig → ℕ → LivenessInfo → LivenessInfo
unfolding by_age
by_heartbeat lv now info = record info {
  state =
      if info.registry_closed
      then Liveness.historical
      else by_age now info.heartbeat lv.heartbeat_live lv.heartbeat_dead;
}

-- Layer 2, without one.
unfoldable pub by_data : LivenessConfig → Probe → List Bytes → LivenessInfo → LivenessInfo
unfolding newest_timestamp int_lt by_age
by_data lv probe [] info = record info { state = Liveness.offline }
by_data lv probe (topic ∷ topics) info =
    let newest = newest_timestamp probe.latest_timestamp (ℤ.negsuc 0) (topic ∷ topics) in
    record info {
      last_sample = newest;
      state =
          if int_lt (ℤ.pos 0) newest
          then by_age probe.now newest lv.data_live lv.data_dead
          else Liveness.offline;
    }

unfoldable pub probe_liveness : LivenessConfig → Probe → SessionMeta → LivenessInfo
unfolding read_heartbeat by_heartbeat by_data
probe_liveness lv probe meta =
    let (read, payload) = probe.read_latest (meta.session_prefix ++ codes ".hb") in
    let info = read_heartbeat payload in
    if read && info.has_heartbeat
    then by_heartbeat lv probe.now info
    else by_data lv probe meta.data_topics info
