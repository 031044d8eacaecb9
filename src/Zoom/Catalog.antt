-- ===== src/Zoom/Catalog.antt =====
-- The sessions that class ZoomBridge lists and looks up, and where it reads one from,
-- kv8zoom/ZoomBridge.cpp.
use Prim.Native.Nat.{bit_or}
use kv8_metrics.Prelude.{
  ℕ, ◌+◌, ◌-◌, ◌*◌, ◌/◌, ◌%◌, ◌^◌, Bool, true, false, Option, none, some, List, [], ◌∷◌, ltb, leb,
  if◌then◌else◌,
}
use kv8_metrics.Prelude.Bytes.{Bytes}
use kv8_metrics.Prelude.Assoc.{find, bytes_beq, bytes_eq}
use kv8_metrics.Prelude.Int.{ℤ}
use kv8_metrics.Registry.{CounterMeta, SessionMeta}
use kv8_metrics.Registry.Ordered.{in_key_order, bytes_less}
use kv8_metrics.Zoom.Bridge.{SessionInfo, Subscription}

unfoldable pub filetime_to_ms : ℕ → ℕ → ℕ
filetime_to_ms hi lo =
    let ft = bit_or (hi * 2 ^ 32 % 2 ^ 64) lo in
    if leb ft 116444736000000000 then 0 else ((ft - 116444736000000000) / 10000)

-- The time of the first topic; 0 where one of its halves is missing.
unfoldable pub first_time : List (Bytes × ℕ) → SessionMeta → ℕ
unfolding find filetime_to_ms
first_time [] meta = 0
first_time ((topic, hi) ∷ _) meta = elim (find topic meta.topic_to_time_lo) [
  | none ↦ 0
  | some lo ↦ filetime_to_ms hi lo
]

unfoldable pub session_ms : SessionMeta → ℕ
unfolding first_time in_key_order bytes_less
session_ms meta = first_time (in_key_order bytes_less meta.topic_to_time_hi) meta

unfoldable pub feeds_in : List CounterMeta → ℕ
feeds_in [] = 0
feeds_in (cm ∷ cms) = (if cm.is_udt_feed then 1 else 0) + feeds_in cms

unfoldable pub count_feeds : List (ℕ × List CounterMeta) → ℕ
unfolding feeds_in
count_feeds [] = 0
count_feeds ((hash, cms) ∷ buckets) = feeds_in cms + count_feeds buckets

unfoldable pub lives : Bytes → List (Bytes × Bool) → Bool
unfolding find
lives prefix liveness = elim (find prefix liveness) [ none ↦ false | some live ↦ live ]

unfoldable pub session_info : List (Bytes × Bool) → Bytes × SessionMeta → SessionInfo
unfolding session_ms count_feeds lives
session_info liveness (prefix, meta) = record {
  id = meta.session_id;
  name = meta.name;
  prefix = meta.session_prefix;
  ts_ms = session_ms meta;
  feeds = count_feeds meta.hash_to_counters;
  is_live = lives prefix liveness;
}

-- The session with the id as its prefix, or else the first with that id.
unfoldable pub session_with_id : Bytes → List (Bytes × SessionMeta) → Option (Bytes × SessionMeta)
session_with_id id [] = none
session_with_id id ((prefix, meta) ∷ sessions) =
    let more = session_with_id id sessions in
    if bytes_beq meta.session_id id then some (prefix, meta) else more

unfoldable pub look_up : Bytes → List (Bytes × SessionMeta) → Option (Bytes × SessionMeta)
look_up id sessions = elim (find id sessions) [
  | some meta ↦ some (id, meta)
  | none ↦ session_with_id id (in_key_order bytes_less sessions)
]

-- `max(0, latestMs - 30000)`, of a positive time; 0 stands for the beginning.
unfoldable pub live_edge : ℤ → ℕ
live_edge (ℤ.pos ms) = ms - 30000
live_edge (ℤ.negsuc ms) = 0

-- `*begin()` of a set, which starts at its least element.
unfoldable pub least_topic : Bytes → List Bytes → Bytes
least_topic t [] = t
least_topic t (u ∷ us) = least_topic (if bytes_less u t then u else t) us

unfoldable pub seek_ms : (Bytes → ℤ) → Bool → List Bytes → ℕ
seek_ms latest live [] = 0
seek_ms latest live (t ∷ us) = if live then live_edge (latest (least_topic t us)) else 0

unfoldable pub subscription : SessionMeta → ℕ → Subscription
subscription meta ms =
    if ltb 0 ms then Subscription.from_ms meta (ℤ.pos ms) else Subscription.from_start meta

-- `seekTs / 1000`, of a positive time.
unfoldable pub seek_subscription : SessionMeta → ℤ → Subscription
seek_subscription meta (ℤ.pos ts) =
    if ltb 0 ts then Subscription.from_ms meta (ℤ.pos (ts / 1000)) else Subscription.from_start meta
seek_subscription meta (ℤ.negsuc ts) = Subscription.from_start meta

unfoldable pub same_sessions : List (Bytes × SessionMeta) → List (Bytes × SessionMeta) → Bool
unfolding find
same_sessions [] all = true
same_sessions ((prefix, meta) ∷ fresh) all =
    let more = same_sessions fresh all in elim (find prefix all) [ none ↦ false | some m ↦ more ]
