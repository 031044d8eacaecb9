-- ===== src/Kv8log/Laws/Switch.antt =====
-- Enabling and disabling of counters in libs/kv8log/lib/kv8log_impl.cpp, at the producer and by
-- the messages on the control topic.
use kv8_metrics.Prelude.{
  ℕ, ◌/◌, ◌^◌, ◌<◌, ◌≤◌, ◌≡◌, ◌≢◌, refl, sym, ◌∙◌, Bool, true, false, none, some, [], ◌∷◌, length,
  get_elem?, set, length-set, get_elem?-set_self, get_elem?-set_ne, ltb, if◌then◌else◌, arith,
  dec_lt, ◌⊎◌, inl, inr,
}
use kv8_metrics.Prelude.Bytes.{Bytes}
use kv8_metrics.Kv8log.Ctl.{CtlMsg, parse_ctl_msg, ctr_state_msg}
use kv8_metrics.Kv8log.Ctl.Ending.{
  ReadPastEnd, past_end-ReadPastEnd, ReadPastEnd-past_end, ends_in_wid, ends_in_wid-ReadPastEnd,
}
use kv8_metrics.Kv8log.Ctl.RoundTrip.{parse-ctr_state, length-messages}
use kv8_metrics.Kv8log.Session.{Session, Call, log, is_empty, produce_msg}
use kv8_metrics.Kv8log.Emit.{Gate, gate}
use kv8_metrics.Kv8log.Control.{store_enabled, set_counter_enabled, handle_ctl}
use kv8_metrics.Kv8log.Laws.Validity.{IsValid}

-- The session with one flag changed.
abbrev pub switched : Session → ℕ → Bool → Session
switched s id b = record s { enabled = set s.enabled id b }

switched-IsValid : (s : Session) (id : ℕ) (b : Bool) → IsValid s → IsValid (switched s id b)
switched-IsValid s id b v = record {
  counted = v.counted;
  room = v.room;
  flags = length-set s.enabled id b ∙ v.flags;
  numbered = v.numbered;
}

store_lem :
    (s : Session) (id : ℕ) (b : Bool)
    → IsValid s
    → id < s.next_id
    → store_enabled s id b ≡ some (switched s id b)
unfolding store_enabled
store_lem s id b v h = ground (arith, v.flags, v.room)

-- The message is no command, or one for a counter that is not registered.
abbrev pub NoCommand : Session → Bytes → Type 0
NoCommand s msg =
    (parse_ctl_msg msg ≡ CtlMsg.rejected)
    ⊎ ((id : ℕ) × (b : Bool) × (parse_ctl_msg msg ≡ CtlMsg.command id b) × (s.next_id ≤ id))

-- What a message that is not read past its end does.
abbrev pub Handled : Session → Bytes → Session → Type 0
Handled s msg s' =
    ((s' ≡ s) × NoCommand s msg)
    ⊎ ((id : ℕ) × (b : Bool) × (parse_ctl_msg msg ≡ CtlMsg.command id b)
        × (id < s.next_id)
        × (s' ≡ switched s id b))

ctl-cases :
    (m : CtlMsg)
    → (m ≡ CtlMsg.past_end)
      ⊎ ((m ≡ CtlMsg.rejected) ⊎ ((id : ℕ) × (b : Bool) × (m ≡ CtlMsg.command id b)))
ctl-cases CtlMsg.past_end = inl refl
ctl-cases CtlMsg.rejected = inr (inl refl)
ctl-cases (CtlMsg.command id b) = inr (inr (id, b, refl))

-- A control message with both keys whose number does not end within it is read past its end. Any other
-- leaves a valid session valid, with no access outside the flags: where it is no command, or one for a
-- counter that is not registered, the session is unchanged; where it names a registered counter, the
-- session differs in the flag of that counter only.
pub handle_ctl_lem :
    (s : Session) (msg : Bytes)
    → IsValid s
    → (ReadPastEnd msg × (handle_ctl s msg ≡ none))
      ⊎ (¬ ReadPastEnd msg
          × ((s' : Session) × (handle_ctl s msg ≡ some s') × IsValid s' × Handled s msg s'))
unfolding handle_ctl
handle_ctl_lem s msg v = elim (ctl-cases (parse_ctl_msg msg)) [
  | inl e ↦ inl (past_end-ReadPastEnd msg e, rw (e, handle_ctl) refl)
  | inr (inl e) ↦ inr (
    (λ p. cc (e, ReadPastEnd-past_end msg p)),
    (s, rw (e, handle_ctl) refl, v, inl (refl, inl e)),
  )
  | inr (inr (id, b, e)) ↦ inr (
    (λ p. cc (e, ReadPastEnd-past_end msg p)),
    elim (dec_lt id s.next_id) [
      | no p ↦ (s, rw (e, handle_ctl) (ground arith), v, inl (refl, inr (id, b, e, omega arith)))
      | yes p ↦ (
        switched s id b,
        rw (e, handle_ctl) (ground (arith, store_lem s id b v p)),
        switched-IsValid s id b v,
        inr (id, b, e, p, refl),
      )
    ],
  )
]

-- A message {"enabled":B,"wid":N, which ends in the id, is read past its end in every session, for every B and N.
pub wid_read_past_end : (s : Session) (b : Bool) (id : ℕ) → handle_ctl s (ends_in_wid b id) ≡ none
unfolding handle_ctl
wid_read_past_end s b id =
    rw (ReadPastEnd-past_end (ends_in_wid b id) (ends_in_wid-ReadPastEnd b id), handle_ctl) refl

-- The session after `kv8log_set_counter_enabled`, with the command published.
abbrev pub commanded : Session → ℕ → Bool → ℕ → Session
commanded s id b wall =
    log (switched s id b) (Call.produce s.ctl_topic (ctr_state_msg id b (wall / 1000000)) [] ∷ [])

produce_msg_lem :
    (topic msg : Bytes)
    → 0 < length msg
    → length msg < 128
    → produce_msg topic msg ≡ Call.produce topic msg [] ∷ []
unfolding produce_msg
produce_msg_lem topic msg h k = ground arith

ctr_state_nonempty : (id : ℕ) (b : Bool) (ts : ℕ) → 0 < length (ctr_state_msg id b ts)
unfolding ctr_state_msg
ctr_state_nonempty id b ts = omega arith

-- In a valid session with a control topic, switching a registered counter sets its flag and publishes
-- one command on that topic; a counter that is not registered is left alone.
pub set_counter_enabled_lem :
    (s : Session) (id : ℕ) (b : Bool) (wall : ℕ)
    → IsValid s
    → is_empty s.ctl_topic ≡ false
    → wall < 2 ^ 64
    → set_counter_enabled s id b wall
      ≡ (if ltb id s.next_id then some (commanded s id b wall) else some s)
unfolding set_counter_enabled
set_counter_enabled_lem s id b wall v topic small = elim (dec_lt id s.next_id) [
  | no p ↦ ground arith
  | yes p ↦ ground (
    arith,
    store_lem s id b v p,
    produce_msg_lem s.ctl_topic (ctr_state_msg id b (wall / 1000000))
        (ctr_state_nonempty id b (wall / 1000000))
        (length-messages id b (wall / 1000000) (omega (arith, v.room)) (omega arith)).0,
  )
]

-- The command that is published for a counter switches the same counter in every valid session
-- that has it and reads the command.
pub command_replayed :
    (t : Session) (id : ℕ) (b : Bool) (ts : ℕ)
    → IsValid t
    → id < t.next_id
    → handle_ctl t (ctr_state_msg id b ts) ≡ some (switched t id b)
unfolding handle_ctl
command_replayed t id b ts v h =
    ground (arith, parse-ctr_state id b ts (omega (arith, v.room)), store_lem t id b v h)

abbrev pub gate_of : Bool → Gate
gate_of true = Gate.passed
gate_of false = Gate.dropped

-- In a valid session, a registered counter that was switched passes samples exactly when it was
-- switched on, and the others pass them as before.
pub gate-switched :
    (s : Session) (id j : ℕ) (b : Bool)
    → IsValid s
    → id < s.next_id
    → (gate (switched s id b) id ≡ gate_of b) × (j ≢ id → gate (switched s id b) j ≡ gate s j)
unfolding gate
gate-switched s id j b v h =
    (switched_gate b, λ ne. ground (arith, get_elem?-set_ne s.enabled b (λ e. ne (sym e))))
  where
    stored : (c : Bool) → get_elem? (set s.enabled id c) id ≡ some c
    stored c = get_elem?-set_self s.enabled id c (omega (arith, v.flags, v.room))

    switched_gate : (c : Bool) → gate (switched s id c) id ≡ gate_of c
    switched_gate true = ground (arith, stored true)
    switched_gate false = ground (arith, stored false)
