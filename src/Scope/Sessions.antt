-- ===== src/Scope/Sessions.antt =====
-- class SessionManager of kv8scope/SessionManager.cpp. A poll cycle is one step of the worker: what
-- the consumer answers in it is an argument. A std::map is an association list that is gone through
-- in the order of its keys; the mutex of the event queue is left out.
use kv8_metrics.Prelude.{
  ℕ, ◌+◌, ◌-◌, Bool, true, false, Option, none, some, List, [], ◌∷◌, ◌++◌, length, take, ltb, leb,
  if◌then◌else◌,
}
use kv8_metrics.Prelude.Bytes.{Bytes, codes}
use kv8_metrics.Prelude.Assoc.{find, assign, bytes_eq}
use kv8_metrics.Registry.{CounterMeta, SessionMeta, new_session, before_last, is_empty}
use kv8_metrics.Registry.Ordered.{in_key_order, bytes_less}
use kv8_metrics.Scope.Liveness.{Liveness, LivenessInfo, LivenessConfig, Probe, probe_liveness}

pub data SessionEvent : Type 0 where
  appeared : (prefix channel : Bytes) → SessionMeta → SessionEvent
  disappeared : (prefix : Bytes) → SessionEvent
  status_changed : (prefix : Bytes) → LivenessInfo → SessionEvent
  connected : SessionEvent
  connection_error : (message : Bytes) → SessionEvent
  meta_updated : (prefix : Bytes) → SessionMeta → SessionEvent

pub record SessionManager : Type 0 where
  pub running : Bool
  pub stop_requested : Bool
  -- `m_pConsumer` is set
  pub has_consumer : Bool
  pub events : List SessionEvent
  pub known_sessions : List (Bytes × SessionMeta)
  pub prev_liveness : List (Bytes × Liveness)
  pub prev_field_count : List (Bytes × ℕ)
  pub stabilize_deadline : List (Bytes × ℕ)
  pub stabilize_meta : List (Bytes × SessionMeta)
  pub ever_connected : Bool

-- What ListChannels does: it may throw a std::exception, or something else.
pub data Listing : Type 0 where
  listed : List Bytes → Listing
  thrown : (what : Bytes) → Listing
  thrown_unknown : Listing

-- What a cycle meets: whether a consumer can be created, the channels, the sessions of each channel
-- (none where DiscoverSessions throws), the probe of each session, the steady clock when a session's
-- deadline is set or checked, and the configuration.
pub record Cycle : Type 0 where
  pub can_create : Bool
  pub list_channels : Listing
  pub discover : Bytes → Option (List (Bytes × SessionMeta))
  pub probe : Bytes → Probe
  pub steady_now : Bytes → ℕ
  pub stabilize_ms : ℕ
  pub liveness : LivenessConfig

abbrev pub construct : SessionManager
construct = record {
  running = false;
  stop_requested = false;
  has_consumer = false;
  events = [];
  known_sessions = [];
  prev_liveness = [];
  prev_field_count = [];
  stabilize_deadline = [];
  stabilize_meta = [];
  ever_connected = false;
}

-- `Start` and `Stop`; the thread itself is the sequence of the cycles.
unfoldable pub start : SessionManager → SessionManager
start m = if m.running then m else record m { stop_requested = false; running = true }

-- The join waits for the worker, which drops its consumer.
unfoldable pub stop : SessionManager → SessionManager
stop m =
    if m.running
    then record m { stop_requested = true; running = false; has_consumer = false }
    else m

unfoldable pub restart : SessionManager → SessionManager
unfolding start stop
restart m = start (record (stop m) {
  known_sessions = [];
  prev_liveness = [];
  ever_connected = false;
  events = [];
})

unfoldable pub drain_events : SessionManager → SessionManager × List SessionEvent
drain_events m = (record m { events = [] }, m.events)

unfoldable pub push_event : SessionEvent → SessionManager → SessionManager
push_event ev m = record m { events = m.events ++ ev ∷ [] }

-- Step 3: the sessions of all channels. A channel that cannot be read is skipped.
unfoldable pub add_found :
    List (Bytes × SessionMeta) → List (Bytes × SessionMeta) → List (Bytes × SessionMeta)
unfolding assign
add_found [] current = current
add_found ((prefix, sm) ∷ found) current = add_found found (assign prefix sm current)

unfoldable pub current_sessions :
    (Bytes → Option (List (Bytes × SessionMeta)))
    → List Bytes
    → List (Bytes × SessionMeta)
    → List (Bytes × SessionMeta)
unfolding add_found
current_sessions discover [] current = current
current_sessions discover (channel ∷ channels) current =
    current_sessions discover channels
      (elim (discover channel) [ none ↦ current | some found ↦ add_found found current ])

-- The channel of a session: what stands in front of the last ".<sessionID>" of its prefix.
unfoldable pub channel_of : Bytes → SessionMeta → Bytes
unfolding before_last is_empty
channel_of prefix sm =
    if is_empty sm.session_id then prefix else elim (before_last sm.session_id prefix) [
      | none ↦ prefix
      | some before ↦
          let channel = take (length before - 1) before in
          if is_empty channel then prefix else channel
    ]

-- Step 4: the sessions that are not among the known ones.
unfoldable pub appearances :
    List (Bytes × SessionMeta) → List (Bytes × SessionMeta) → List SessionEvent
unfolding find channel_of
appearances known [] = []
appearances known ((prefix, sm) ∷ current) =
    let more = appearances known current in
    elim (find prefix known) [
      | none ↦ SessionEvent.appeared prefix (channel_of prefix sm) sm ∷ more
      | some _ ↦ more
    ]

-- The known sessions that are not among the current ones.
unfoldable pub disappearances :
    List (Bytes × SessionMeta) → List (Bytes × SessionMeta) → List SessionEvent
unfolding find
disappearances current [] = []
disappearances current ((prefix, sm) ∷ known) =
    let more = disappearances current known in
    elim (find prefix current) [ none ↦ SessionEvent.disappeared prefix ∷ more | some _ ↦ more ]

-- `nVirt`
unfoldable pub count_fields : List CounterMeta → ℕ
count_fields [] = 0
count_fields (cm ∷ cms) = (if cm.is_virtual_field then 1 else 0) + count_fields cms

unfoldable pub virtual_fields : List (ℕ × List CounterMeta) → ℕ
unfolding count_fields
virtual_fields [] = 0
virtual_fields ((hash, cms) ∷ buckets) = count_fields cms + virtual_fields buckets

-- `m.erase(k)`
unfoldable pub erase : {V : Type 0} → Bytes → List (Bytes × V) → List (Bytes × V)
erase k [] = []
erase k ((j, v) ∷ m) = let more = erase k m in if bytes_eq.beq j k then more else (j, v) ∷ more

-- The MetaUpdated step for a session that was known before: the deadline is set when there are more
-- virtual fields, and otherwise checked. `previous` is what `m_prevVirtualFieldCount.find` found.
unfoldable pub more_fields : ℕ → ℕ → Bytes → SessionMeta → SessionManager → SessionManager
unfolding assign
more_fields n deadline prefix sm m = record m {
  prev_field_count = assign prefix n m.prev_field_count;
  stabilize_deadline = assign prefix deadline m.stabilize_deadline;
  stabilize_meta = assign prefix sm m.stabilize_meta;
}

abbrev pub default_meta : SessionMeta
default_meta = record (new_session [] []) { log_topic = []; control_topic = [] }

-- `m_metaStabilizeMeta[prefix]`
unfoldable pub meta_at : Bytes → List (Bytes × SessionMeta) → SessionMeta
unfolding find new_session
meta_at prefix metas = elim (find prefix metas) [ none ↦ default_meta | some sm ↦ sm ]

unfoldable pub fire_expired : ℕ → Bytes → Option ℕ → SessionManager → SessionManager
unfolding push_event meta_at erase
fire_expired now prefix none m = m
fire_expired now prefix (some deadline) m =
    let fired = push_event (SessionEvent.meta_updated prefix (meta_at prefix m.stabilize_meta)) m in
    if leb deadline now
    then record fired {
      stabilize_deadline = erase prefix m.stabilize_deadline;
      stabilize_meta = erase prefix m.stabilize_meta;
    }
    else m

unfoldable pub same_fields : ℕ → ℕ → Bytes → Option ℕ → SessionManager → SessionManager
unfolding assign find fire_expired
same_fields n now prefix previous m =
    let kept = record m {
      prev_field_count = elim previous [
        | none ↦ assign prefix n m.prev_field_count
        | some _ ↦ m.prev_field_count
      ];
    } in
    fire_expired now prefix (find prefix m.stabilize_deadline) kept

unfoldable pub at_least_zero : Option ℕ → ℕ
at_least_zero none = 0
at_least_zero (some n) = n

unfoldable pub update_meta : Cycle → Bytes × SessionMeta → SessionManager → SessionManager
unfolding find virtual_fields more_fields same_fields at_least_zero
update_meta c (prefix, sm) m =
    let n = virtual_fields sm.hash_to_counters in
    let previous = find prefix m.prev_field_count in
    let now = c.steady_now prefix in
    elim (find prefix m.known_sessions) [
      | none ↦ m
      | some _ ↦
          if ltb (at_least_zero previous) n
          then more_fields n (now + c.stabilize_ms) prefix sm m
          else same_fields n now prefix previous m
    ]

unfoldable pub update_metas : Cycle → List (Bytes × SessionMeta) → SessionManager → SessionManager
unfolding update_meta
update_metas c [] m = m
update_metas c (s ∷ current) m = update_metas c current (update_meta c s m)

-- The entries whose session is still there.
unfoldable pub still_there :
    {V : Type 0} → List (Bytes × SessionMeta) → List (Bytes × V) → List (Bytes × V)
unfolding find
still_there current [] = []
still_there current ((prefix, v) ∷ m) =
    let more = still_there current m in
    elim (find prefix current) [ none ↦ more | some _ ↦ (prefix, v) ∷ more ]

-- The deadlines' entries take their metas with them.
unfoldable pub erase_metas :
    List (Bytes × SessionMeta)
    → List (Bytes × ℕ)
    → List (Bytes × SessionMeta)
    → List (Bytes × SessionMeta)
unfolding find erase
erase_metas current [] metas = metas
erase_metas current ((prefix, deadline) ∷ deadlines) metas =
    erase_metas current deadlines
      (elim (find prefix current) [ none ↦ erase prefix metas | some _ ↦ metas ])

unfoldable pub forget_gone : List (Bytes × SessionMeta) → SessionManager → SessionManager
unfolding still_there erase_metas
forget_gone current m = record m {
  prev_field_count = still_there current m.prev_field_count;
  stabilize_deadline = still_there current m.stabilize_deadline;
  stabilize_meta = erase_metas current m.stabilize_deadline m.stabilize_meta;
}

-- Step 5, for one session.
unfoldable pub same_liveness : Liveness → Liveness → Bool
same_liveness Liveness.unknown Liveness.unknown = true
same_liveness Liveness.live Liveness.live = true
same_liveness Liveness.going_offline Liveness.going_offline = true
same_liveness Liveness.offline Liveness.offline = true
same_liveness Liveness.historical Liveness.historical = true
same_liveness _ _ = false

unfoldable pub liveness_at : Bytes → List (Bytes × Liveness) → Liveness
unfolding find
liveness_at prefix m = elim (find prefix m) [ none ↦ Liveness.unknown | some l ↦ l ]

unfoldable pub update_liveness : Cycle → Bytes × SessionMeta → SessionManager → SessionManager
unfolding probe_liveness same_liveness liveness_at push_event assign
update_liveness c (prefix, sm) m =
    let info = probe_liveness c.liveness (c.probe prefix) sm in
    let told =
      if same_liveness info.state (liveness_at prefix m.prev_liveness)
      then m
      else push_event (SessionEvent.status_changed prefix info) m in
    record told { prev_liveness = assign prefix info.state m.prev_liveness }

unfoldable pub update_livenesses :
    Cycle → List (Bytes × SessionMeta) → SessionManager → SessionManager
unfolding update_liveness
update_livenesses c [] m = m
update_livenesses c (s ∷ current) m = update_livenesses c current (update_liveness c s m)

-- Steps 4 to 6, on the current sessions in the order of their prefixes.
unfoldable pub apply_current : Cycle → List (Bytes × SessionMeta) → SessionManager → SessionManager
unfolding appearances disappearances update_metas forget_gone update_livenesses still_there
    in_key_order
apply_current c current m =
    let diffed = record m {
      events =
          m.events
          ++ appearances m.known_sessions current
          ++ disappearances current (in_key_order bytes_less m.known_sessions);
    } in
    let updated = forget_gone current (update_metas c current diffed) in
    let probed = update_livenesses c current updated in
    record probed {
      prev_liveness = still_there current probed.prev_liveness;
      known_sessions = current;
    }

-- The event of the first contact with the broker.
unfoldable pub note_connected : SessionManager → SessionManager
unfolding push_event
note_connected m =
    if m.ever_connected
    then m
    else record (push_event SessionEvent.connected m) { ever_connected = true }

unfoldable pub fail_cycle : Bytes → SessionManager → SessionManager × Bool
unfolding push_event
fail_cycle message m = (push_event (SessionEvent.connection_error message) m, false)

-- Behind the creation of the consumer, by what ListChannels does.
unfoldable pub with_channels : Cycle → Listing → SessionManager → SessionManager × Bool
unfolding fail_cycle note_connected current_sessions apply_current in_key_order
with_channels c (Listing.thrown what) m = fail_cycle (codes "ListChannels failed: " ++ what) m
with_channels c Listing.thrown_unknown m =
    fail_cycle (codes "ListChannels failed (unknown error)") m
with_channels c (Listing.listed channels) m =
    let current = in_key_order bytes_less (current_sessions c.discover channels []) in
    (apply_current c current (note_connected m), true)

unfoldable pub run_one_poll_cycle : Cycle → SessionManager → SessionManager × Bool
unfolding fail_cycle with_channels
run_one_poll_cycle c m =
    if m.has_consumer
    then with_channels c c.list_channels m
    else if c.can_create
    then with_channels c c.list_channels (record m { has_consumer = true })
    else fail_cycle (codes "Failed to create Kafka consumer (bad config?)") m

-- One round of `ThreadFunc`: a consumer in a bad state is dropped.
unfoldable pub thread_round : Cycle → SessionManager → SessionManager
unfolding run_one_poll_cycle
thread_round c m =
    let (m', good) = run_one_poll_cycle c m in
    if good then m' else record m' { has_consumer = false }

-- The loop of `ThreadFunc`, for as many rounds as there are before the stop.
unfoldable pub thread_func : List Cycle → SessionManager → SessionManager
unfolding thread_round
thread_func [] m = m
thread_func (c ∷ cycles) m = thread_func cycles (thread_round c m)
