-- ===== src/Kv8log/Tests.antt =====
-- A session with two counters, the second one switched off, and a session without room.
use kv8_metrics.Prelude.{
  ℕ, zero, suc, ◌+◌, ◌<◌, ◌≤◌, ◌≡◌, ◌≢◌, ◌⊎◌, refl, Bool, true, false, Option, none, some, List, [],
  ◌∷◌, length, length-replicate, length-set, replicate, set, arith,
}
use kv8_metrics.Prelude.Bytes.{Bytes, codes}
use kv8_metrics.Kv8log.Ctl.{ctr_state_msg}
use kv8_metrics.Kv8log.Session.{Session, Slot, max_counters}
use kv8_metrics.Kv8log.Register.{register_counter, register_udt_feed, exhausted}
use kv8_metrics.Kv8log.Emit.{emit_value, log_text}
use kv8_metrics.Kv8log.Control.{set_counter_enabled, handle_ctl}
use kv8_metrics.Kv8log.Laws.Validity.{IsValid, Numbered}
use kv8_metrics.Kv8log.Laws.Switch.{Handled, handle_ctl_lem, wid_read_past_end}
use kv8_metrics.Kv8log.Ctl.Ending.{ReadPastEnd, ends_in_wid}
use kv8_metrics.Kv8log.Laws.Logging.{Logged, log_text-Logged}
use kv8_metrics.Kv8log.Laws.Limit.{counter_past_limit}

abbrev slot : ℕ → Slot
slot id = record {
  name = codes "load";
  data_topic = codes "t";
  mn = 0;
  mx = 0;
  id = id;
  seq = 7;
  rkt = some id;
}

slots : ℕ → ℕ → List Slot
slots i zero = []
slots i (suc n) = slot i ∷ slots (i + 1) n

slots-Numbered : (i n : ℕ) → Numbered i (slots i n)
unfolding slots
slots-Numbered i zero = tt
slots-Numbered i (suc n) = (refl, omega arith, slots-Numbered (i + 1) n)

length-slots : (i n : ℕ) → length (slots i n) ≡ n
unfolding slots
length-slots i zero = refl
length-slots i (suc n) = omega (arith, length-slots (i + 1) n)

abbrev session : ℕ → Session
session n = record {
  wall_anchor = 1000000;
  mono_anchor = 500;
  channel_name = codes "c";
  session_id = codes "S1";
  reg_topic = codes "c._registry";
  log_topic = codes "c.S1._log";
  group_topic = codes "c.S1.d.0000002A";
  group_hash = 42;
  counters = slots 0 n;
  next_id = n;
  enabled = set (replicate max_counters true) 1 false;
  ctl_topic = codes "c.S1._ctl";
  ctl_stop = false;
  log_rkt = some 9;
  sites_seen = [];
  calls = [];
}

session-IsValid : (n : ℕ) → n ≤ max_counters → IsValid (session n)
session-IsValid n h = record {
  counted = length-slots 0 n;
  room = h;
  flags =
      omega (
        arith,
        length-set (replicate max_counters true) 1 false,
        length-replicate max_counters true,
      );
  numbered = slots-Numbered 0 n;
}

abbrev two : Session
two = session 2

two-IsValid : IsValid two
two-IsValid = session-IsValid 2 (omega arith)

abbrev topics : Bytes → Option ℕ
topics name = some 3

handle_ctl_lem_example :
    let msg = ctr_state_msg 1 true 5 in
    (ReadPastEnd msg × (handle_ctl two msg ≡ none))
    ⊎ (¬ ReadPastEnd msg
        × ((s' : Session) × (handle_ctl two msg ≡ some s') × IsValid s' × Handled two msg s'))
handle_ctl_lem_example = handle_ctl_lem two (ctr_state_msg 1 true 5) two-IsValid

-- {"enabled":true,"wid":70
wid_read_past_end_example : handle_ctl two (ends_in_wid true 70) ≡ none
wid_read_past_end_example = wid_read_past_end two true 70

log_text-Logged_example :
    let hash : ℕ = 77 in
    let level : ℕ = 3 in
    let s' = log_text two hash level (codes "hi") 1 1000 4 2 in
    (((hash ≡ 0) ⊎ (5 ≤ level)) × (s' ≡ two))
    ⊎ ((hash ≢ 0) × (level < 5) × Logged two 9 hash level (codes "hi") 1 1000 4 2 s')
log_text-Logged_example =
    log_text-Logged two 77 3 (codes "hi") 1 1000 4 2 9 refl (omega arith) (omega arith)
      (omega arith) (omega arith) (omega arith)

abbrev no_room : Session
no_room = session 1024

counter_past_limit_example :
    (register_udt_feed topics no_room (codes "pos") (codes "{}") ≡ some exhausted)
    × ((s' : Session) × (register_counter topics no_room (codes "pos") 0 1
          ≡ some (s', max_counters))
        × ((timer value : ℕ) → emit_value s' max_counters timer value ≡ none)
        × ((b : Bool) (wall : ℕ) → set_counter_enabled s' max_counters b wall ≡ none))
counter_past_limit_example =
    counter_past_limit topics no_room (codes "pos") (codes "{}") 0 1
      (session-IsValid 1024 (omega arith)) refl
