-- ===== src/Kv8log/Laws/Emission.antt =====
-- The hot paths of libs/kv8log/lib/kv8log_impl.cpp on valid sessions.
use kv8_metrics.Prelude.{
  ℕ, ◌+◌, ◌%◌, ◌^◌, ◌≤◌, ◌<◌, ◌≡◌, refl, ap, ◌∙◌, true, false, Option, some, length, get_elem?,
  length-set, arith, Bool-cases, ◌⊎◌, dec_lt, inl, inr,
}
use kv8_metrics.Prelude.Bytes.{Bytes}
use kv8_metrics.Wire.Header.{udt_max_payload}
use kv8_metrics.Kv8log.Session.{Session, Slot}
use kv8_metrics.Kv8log.Emit.{Gate, gate, send, udt_message, emit_udt}
use kv8_metrics.Kv8log.Laws.Validity.{IsValid, set-Numbered, get_elem?-some}

-- Samples of a counter that is not registered, or not enabled, are ignored.
abbrev pub Ignored : Session → ℕ → Type 0
Ignored s id = (s.next_id ≤ id) ⊎ (get_elem? s.enabled id ≡ some false)

-- The hot paths never leave the arrays of a valid session.
gate_open :
    (s : Session) (id : ℕ)
    → IsValid s
    → ((gate s id ≡ Gate.dropped) × Ignored s id)
      ⊎ ((gate s id ≡ Gate.passed)
          × (id < s.next_id)
          × (get_elem? s.enabled id ≡ some true)
          × ((c : Slot) × (get_elem? s.counters id ≡ some c)))
unfolding gate
gate_open s id v = elim (dec_lt id s.next_id) [
  | no p ↦ inl (ground arith, inl (omega arith))
  | yes p ↦
      let (b, e) = get_elem?-some s.enabled id (omega (arith, v.flags, v.room)) in
      let c = get_elem?-some s.counters id (omega (arith, v.counted)) in
      elim (Bool-cases b) [
        | inl t ↦ inr (ground arith, p, e ∙ ap (λ q. some q) t, c)
        | inr f ↦ inl (ground arith, inr (e ∙ ap (λ q. some q) f))
      ]
]

send-IsValid :
    (s : Session) (id : ℕ) (c : Slot) (message : Bytes)
    → IsValid s
    → get_elem? s.counters id ≡ some c
    → IsValid (send s id c message)
unfolding send
send-IsValid s id c message v e = record {
  counted = length-set s.counters id (record c { seq = (c.seq + 1) % 2 ^ 16 }) ∙ v.counted;
  room = v.room;
  flags = v.flags;
  numbered =
      set-Numbered 0 id s.counters (record c { seq = (c.seq + 1) % 2 ^ 16 }) v.numbered e refl
        (omega arith);
}

-- An emission does nothing to the session, for the reasons `Skips`, or sends one message of the counter.
abbrev pub Emitted : Type 0 → Session → ℕ → (Slot → Bytes) → Option Session → Type 0
Emitted Skips s id message r =
    ((r ≡ some s) × Skips)
    ⊎ ((c : Slot) × (id < s.next_id)
        × (get_elem? s.enabled id ≡ some true)
        × (get_elem? s.counters id ≡ some c)
        × (r ≡ some (send s id c (message c)))
        × IsValid (send s id c (message c)))

-- On a valid session a sample of a feed is ignored, when the feed is not registered or not enabled or
-- the payload is longer than 240 bytes, or it sends one message of its feed, and the session stays valid.
pub emit_udt-Emitted :
    (s : Session) (id timer : ℕ) (payload : Bytes)
    → IsValid s
    → Emitted
        (Ignored s id ⊎ (udt_max_payload < length payload))
        s
        id
        (λ c. udt_message id c timer payload)
        (emit_udt s id timer payload)
unfolding emit_udt
emit_udt-Emitted s id timer payload v = elim (gate_open s id v) [
  | inl (shut, why) ↦ inl (ground arith, inl why)
  | inr (passed, known, enabled, (c, e)) ↦ elim (dec_lt udt_max_payload (length payload)) [
    | yes long ↦ inl (ground arith, inr long)
    | no short ↦ inr (
      c,
      known,
      enabled,
      e,
      ground arith,
      send-IsValid s id c (udt_message id c timer payload) v e,
    )
  ]
]
