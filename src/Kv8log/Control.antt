-- ===== src/Kv8log/Control.antt =====
-- Enabling and disabling of counters, and the clock conversion, in libs/kv8log/lib/kv8log_impl.cpp.
use kv8_metrics.Prelude.{
  ℕ, ◌+◌, ◌-◌, ◌/◌, ◌%◌, ◌^◌, Bool, Option, none, some, [], ◌∷◌, length, set, ltb, leb,
  if◌then◌else◌,
}
use kv8_metrics.Prelude.Bytes.{Bytes}
use kv8_metrics.Kv8log.Ctl.{rejected, past_end, command, parse_ctl_msg, ctr_state_msg}
use kv8_metrics.Kv8log.Session.{Session, Call, log, is_empty, produce_msg}

-- `aEnabled[id].store(b)`; `none` is a store outside the array.
unfoldable pub store_enabled : Session → ℕ → Bool → Option Session
store_enabled s id b =
    if ltb id (length s.enabled) then some (record s { enabled = set s.enabled id b }) else none

-- `kv8log_set_counter_enabled`, at the wall clock `wall` in ns.
unfoldable pub set_counter_enabled : Session → ℕ → Bool → ℕ → Option Session
unfolding store_enabled produce_msg
set_counter_enabled s id b wall = if leb s.next_id id then some s else elim (store_enabled s id b) [
  | none ↦ none
  | some s' ↦ some (
      if is_empty s'.ctl_topic
      then s'
      else log s' (produce_msg s'.ctl_topic (ctr_state_msg id b (wall / 1000000))))
]

-- What `RunCtlConsumerThread` does with a message; `none` is a read past its end.
unfoldable pub handle_ctl : Session → Bytes → Option Session
unfolding store_enabled
handle_ctl s msg = elim (parse_ctl_msg msg) [
  | rejected ↦ some s
  | past_end ↦ none
  | command wid b ↦ if ltb wid s.next_id then store_enabled s wid b else some s
]

-- `kv8log_flush`
unfoldable pub flush : Session → ℕ → Session
flush s timeout = log s (Call.flush timeout ∷ [])

-- `kv8log_monotonic_to_ns`
unfoldable pub monotonic_to_ns : Session → ℕ → ℕ
monotonic_to_ns s mono =
    if ltb mono s.mono_anchor
    then s.wall_anchor
    else (s.wall_anchor + (mono - s.mono_anchor)) % 2 ^ 64
