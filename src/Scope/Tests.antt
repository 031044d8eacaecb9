-- ===== src/Scope/Tests.antt =====
-- The session discovery at concrete inputs, and an instance of each property.
use kv8_metrics.Prelude.{
  ℕ, ◌≡◌, refl, inl, inr, map, Bool-cases, true, false, none, some, List, [], ◌∷◌, ◌++◌, arith,
}
use kv8_metrics.Prelude.Bytes.{Bytes, codes}
use kv8_metrics.Prelude.Int.{ℤ}
use kv8_metrics.Prelude.Assoc.{find, bytes_beq, bytes_eq}
use kv8_metrics.Registry.{CounterMeta, SessionMeta, new_session}
use kv8_metrics.Registry.Ordered.{bytes_less}
use kv8_metrics.Scope.Liveness.{Liveness, LivenessInfo, Probe}
use kv8_metrics.Scope.Sessions.{
  SessionEvent, SessionManager, Listing, Cycle, construct, restart, drain_events, thread_round,
  thread_func,
}
use kv8_metrics.Scope.Laws.Mirror.{replay, view}
use kv8_metrics.Scope.Laws.Failures.{Fails, failed_with, failed_round, restart_mirrored}
use kv8_metrics.Scope.Laws.Pending.{Paired, thread_func-Paired}

abbrev temperature : CounterMeta
temperature = record {
  name = codes "Wx/T";
  counter_id = 32769;
  flags = 1;
  min_bits = 0;
  alarm_min = 0;
  max_bits = 0;
  alarm_max = 0;
  data_topic = codes "ch.S1.u.Wx";
  is_udt_feed = false;
  schema_hash = 7;
  schema_json = [];
  is_virtual_field = true;
  field_offset = 0;
  field_type = 0;
  display_name = [];
}

-- A session with a virtual field, and one with data topics only.
abbrev first : SessionMeta
first = record (new_session (codes "ch") (codes "ch.S1")) {
  hash_to_counters = (7, temperature ∷ []) ∷ [];
}

abbrev second : SessionMeta
second = record (new_session (codes "ch") (codes "ch.S2")) { data_topics = codes "ch.S2.d.g" ∷ [] }

-- A heartbeat of version 1, state 1, at 20000 ms; no data.
abbrev heart : Bytes
heart = 1 ∷ 1 ∷ 0 ∷ 0 ∷ 0 ∷ 0 ∷ 0 ∷ 0 ∷ 32 ∷ 78 ∷ 0 ∷ 0 ∷ 0 ∷ 0 ∷ 0 ∷ 0 ∷ []

abbrev beating : ℕ → Probe
beating now = record {
  now = now;
  read_latest = λ topic. (true, some heart);
  latest_timestamp = λ topic. ℤ.negsuc 0;
}

abbrev silent : ℕ → Probe
silent now = record {
  now = now;
  read_latest = λ topic. (false, none);
  latest_timestamp = λ topic. ℤ.pos 19000;
}

abbrev cycle : ℕ → (ℕ → Probe) → List (Bytes × SessionMeta) → Cycle
cycle now probe sessions = record {
  can_create = true;
  list_channels = Listing.listed (codes "ch" ∷ []);
  discover = λ channel. some sessions;
  probe = λ prefix. probe now;
  steady_now = λ prefix. now;
  stabilize_ms = 500;
  liveness = record { heartbeat_live = 5; heartbeat_dead = 30; data_live = 5; data_dead = 30 };
}

abbrev lost : Cycle
lost = record (cycle 23000 silent []) { list_channels = Listing.thrown (codes "timed out") }

abbrev both : List (Bytes × SessionMeta)
both = (codes "ch.S1", first) ∷ (codes "ch.S2", second) ∷ []

-- The second session goes, comes back, and ages.
abbrev cycles : List Cycle
cycles =
    cycle 21000 beating both
    ∷ cycle 22000 beating ((codes "ch.S1", first) ∷ [])
    ∷ lost
    ∷ cycle 40000 silent both
    ∷ []

abbrev used : SessionManager
used = record construct {
  running = true;
  events = SessionEvent.connected ∷ [];
  known_sessions = (codes "old.S", second) ∷ [];
  prev_liveness = (codes "old.S", Liveness.live) ∷ [];
  ever_connected = true;
}

-- What an event is, without what it carries.
data Kind : Type 0 where
  came went status contact error updated : Kind

abbrev kind : SessionEvent → Kind
kind (SessionEvent.appeared prefix channel sm) = Kind.came
kind (SessionEvent.disappeared prefix) = Kind.went
kind (SessionEvent.status_changed prefix info) = Kind.status
kind SessionEvent.connected = Kind.contact
kind (SessionEvent.connection_error message) = Kind.error
kind (SessionEvent.meta_updated prefix sm) = Kind.updated

queued_events :
    map kind (drain_events (thread_func cycles (restart used))).1
    ≡ Kind.contact ∷ Kind.came ∷ Kind.came ∷ Kind.status ∷ Kind.status ∷ Kind.went ∷ Kind.error
      ∷ Kind.came ∷ Kind.updated ∷ Kind.status ∷ Kind.status ∷ []
unfolding thread_func restart drain_events new_session bytes_less
queued_events = refl

-- Nothing of the session changes, and its meta is sent again all the same.
abbrev unchanged : List Cycle
unchanged =
    cycle 21000 beating ((codes "ch.S1", first) ∷ [])
    ∷ cycle 22000 beating ((codes "ch.S1", first) ∷ [])
    ∷ cycle 23000 beating ((codes "ch.S1", first) ∷ [])
    ∷ []

spurious_update :
    map kind (thread_func unchanged construct).events
    ≡ Kind.contact ∷ Kind.came ∷ Kind.status ∷ Kind.updated ∷ []
unfolding thread_func new_session bytes_less
spurious_update = refl

abbrev beats : LivenessInfo
beats = record {
  state = Liveness.live;
  last_sample = ℤ.pos 0;
  heartbeat = ℤ.pos 20000;
  has_heartbeat = true;
  registry_closed = false;
}

channel_is_found :
    (thread_func (cycle 21000 beating both ∷ []) construct).events
    ≡ SessionEvent.connected
      ∷ SessionEvent.appeared (codes "ch.S1") (codes "ch") first
      ∷ SessionEvent.appeared (codes "ch.S2") (codes "ch") second
      ∷ SessionEvent.status_changed (codes "ch.S1") beats
      ∷ SessionEvent.status_changed (codes "ch.S2") beats
      ∷ []
unfolding thread_func new_session bytes_less
channel_is_found = refl

restart_mirrored_example :
    replay (codes "ch.S2") (thread_func cycles (restart used)).events (false, Liveness.unknown)
    ≡ view (codes "ch.S2") (thread_func cycles (restart used))
restart_mirrored_example = restart_mirrored used cycles (codes "ch.S2")

failed_round_example :
    thread_round lost used ≡ failed_with (codes "ListChannels failed: " ++ codes "timed out") used
failed_round_example =
    failed_round lost used (codes "ListChannels failed: " ++ codes "timed out")
      (Fails.thrown (inr refl) refl)

-- A deadline is pending.
abbrev waiting : SessionManager
waiting = record used {
  known_sessions = both;
  stabilize_deadline = (codes "ch.S1", 30000) ∷ (codes "ch.S2", 22500) ∷ [];
  stabilize_meta = (codes "ch.S2", second) ∷ (codes "ch.S1", first) ∷ [];
}

waiting-Paired : Paired waiting
unfolding find
waiting-Paired p here = elim (Bool-cases (bytes_beq (codes "ch.S1") p)) [
  | inl e ↦ elim (Bool-cases (bytes_beq (codes "ch.S2") p)) [
    | inl e' ↦ ground (arith, e, e')
    | inr e' ↦ ground (arith, e, e')
  ]
  | inr e ↦ ground (arith, e, here)
]

thread_func-Paired_example : Paired (thread_func cycles waiting)
thread_func-Paired_example = thread_func-Paired cycles waiting waiting-Paired
