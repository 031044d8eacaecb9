-- ===== src/Kv8log/Laws/Logging.antt =====
-- Log records, call sites and the end of a session in libs/kv8log/lib/kv8log_impl.cpp.
use kv8_metrics.Prelude.{
  ℕ, ◌^◌, ◌≤◌, ◌<◌, ◌≡◌, ◌≢◌, refl, sym, ap, ◌∙◌, true, Option, none, some, List, [], ◌∷◌, ◌++◌,
  length, take, length-take, append-nil, append_assoc, zero, suc, ◌⊎◌, inl, inr, dec_lt, ℕ_discrete,
  arith,
}
use kv8_metrics.Prelude.Bytes.{Bytes}
use kv8_metrics.Wire.Hash.{log_site_hash, log_site_hash_lem}
use kv8_metrics.Wire.LogRecord.{
  LogRecord, write_record, decode_log_record, decode-write, log_level_count, log_max_payload,
}
use kv8_metrics.Kv8log.Text.{trim_to_basename}
use kv8_metrics.Kv8log.Session.{
  Session, Slot, Call, log, close_session, destroy_slots, destroy_handle,
}
use kv8_metrics.Kv8log.Register.{register_log_site, contains}
use kv8_metrics.Kv8log.Emit.{log_text, log_header, log_message, cut_length}

cut_bounds :
    (payload : Bytes)
    → (cut_length (length payload) ≤ log_max_payload)
      × (length (take (cut_length (length payload)) payload) ≡ cut_length (length payload))
unfolding cut_length
cut_bounds payload =
    let cut : cut_length (length payload) ≤ length payload = ground arith in
    (ground arith, length-take (cut_length (length payload)) payload ∙ omega (arith, cut))

decode-log_message :
    (hash level : ℕ) (payload : Bytes) (flags wall thread cpu : ℕ)
    → hash < 2 ^ 32
    → flags < 2 ^ 8
    → wall < 2 ^ 64
    → thread < 2 ^ 32
    → cpu < 2 ^ 16
    → level < log_level_count
    → decode_log_record (log_message hash level payload flags wall thread cpu)
      ≡ some (
        log_header hash level flags (cut_length (length payload)) wall thread cpu,
        take (cut_length (length payload)) payload,
      )
unfolding log_message log_header
decode-log_message hash level payload flags wall thread cpu h1 h2 h3 h4 h5 ok =
    let len = cut_length (length payload) in
    let (small, size) = cut_bounds payload in
    let text = take len payload in
    let h = log_header hash level flags len wall thread cpu in
    ap (λ b. decode_log_record (write_record h b)) (sym (append-nil text))
    ∙ decode-write h text []
        (record {
          magic_fits = omega arith;
          site_fits = h1;
          ts_fits = h3;
          thread_fits = h4;
          cpu_fits = h5;
          level_fits = omega arith;
          flags_fits = h2;
          arg_fits = omega (arith, small);
          reserved_fits = omega arith;
        })
        (record { magic_ok = refl; level_ok = ok; reserved_ok = refl; arg_ok = small }) size

take-long : {A : Type 0} (n : ℕ) (xs : List A) → length xs ≤ n → take (length xs) xs ≡ take n xs
take-long zero [] h = refl
take-long (suc n) [] h = refl
take-long zero (x ∷ xs) h = absurd (omega arith)
take-long (suc n) (x ∷ xs) h = ap (λ ys. x ∷ ys) (take-long n xs (omega arith))

cut-take : (payload : Bytes) → take (cut_length (length payload)) payload ≡ take 4095 payload
unfolding cut_length
cut-take payload = elim (dec_lt 4095 (length payload)) [
  | yes p ↦ ap (λ n. take n payload) {x = cut_length (length payload)} {y = 4095} (ground arith)
  | no p ↦
      ap (λ n. take n payload) {x = cut_length (length payload)} {y = length payload} (ground arith)
      ∙ take-long 4095 payload (omega arith)
]

-- One record is sent on the log topic, and what a consumer decodes from it.
pub record Logged (s : Session) (handle hash level : ℕ) (payload : Bytes)
    (flags wall thread cpu : ℕ) (s' : Session) : Type 0 where
  pub bytes : Bytes
  pub header : LogRecord
  pub sent : s' ≡ log s (Call.produce_to (some handle) bytes [] ∷ [])
  pub decoded : decode_log_record bytes ≡ some (header, take 4095 payload)
  pub same_site : header.site_hash ≡ hash
  pub same_level : header.level ≡ level
  pub same_flags : header.flags ≡ flags
  pub same_time : header.ts_ns ≡ wall
  pub same_thread : header.thread_id ≡ thread
  pub same_cpu : header.cpu_id ≡ cpu

sent_record :
    (s : Session) (handle hash level : ℕ) (payload : Bytes) (flags wall thread cpu : ℕ)
    → s.log_rkt ≡ some handle
    → hash ≢ 0
    → level < log_level_count
    → log_text s hash level payload flags wall thread cpu
      ≡ log s (
          Call.produce_to (some handle) (log_message hash level payload flags wall thread cpu) []
          ∷ [])
unfolding log_text
sent_record s handle hash level payload flags wall thread cpu topic site ok = ground arith

not_sent :
    (s : Session) (handle hash level : ℕ) (payload : Bytes) (flags wall thread cpu : ℕ)
    → s.log_rkt ≡ some handle
    → (hash ≡ 0) ⊎ (log_level_count ≤ level)
    → log_text s hash level payload flags wall thread cpu ≡ s
unfolding log_text
not_sent s handle hash level payload flags wall thread cpu topic bad = ground arith

-- In a session with an open log topic, and for arguments that fit their widths: without a call site, or with
-- a severity of 5 or more, nothing is done. Otherwise one record is sent, and a consumer decodes it as
-- the same site, severity, flags, time, thread and core, with the first 4095 bytes of the text.
pub log_text-Logged :
    (s : Session) (hash level : ℕ) (payload : Bytes) (flags wall thread cpu handle : ℕ)
    → s.log_rkt ≡ some handle
    → hash < 2 ^ 32
    → flags < 2 ^ 8
    → wall < 2 ^ 64
    → thread < 2 ^ 32
    → cpu < 2 ^ 16
    → let s' = log_text s hash level payload flags wall thread cpu in
      (((hash ≡ 0) ⊎ (5 ≤ level)) × (s' ≡ s))
      ⊎ ((hash ≢ 0) × (level < 5) × Logged s handle hash level payload flags wall thread cpu s')
unfolding log_header
log_text-Logged s hash level payload flags wall thread cpu handle topic h1 h2 h3 h4 h5 =
    elim (ℕ_discrete hash 0) [
      | yes z ↦
          inl (inl z, not_sent s handle hash level payload flags wall thread cpu topic (inl z))
      | no site ↦ elim (dec_lt level 5) [
        | no high ↦
            let bad : 5 ≤ level = omega arith in
            inl
              (inr bad, not_sent s handle hash level payload flags wall thread cpu topic (inr bad))
        | yes ok ↦ inr (
          site,
          ok,
          record {
            bytes = log_message hash level payload flags wall thread cpu;
            header = log_header hash level flags (cut_length (length payload)) wall thread cpu;
            sent = sent_record s handle hash level payload flags wall thread cpu topic site ok;
            decoded =
                decode-log_message hash level payload flags wall thread cpu h1 h2 h3 h4 h5 ok
                ∙ ap
                    (λ t. some (
                      log_header hash level flags (cut_length (length payload)) wall thread cpu,
                      t,
                    ))
                    (cut-take payload);
            same_site = refl;
            same_level = refl;
            same_flags = refl;
            same_time = refl;
            same_thread = refl;
            same_cpu = refl;
          },
        )
      ]
    ]

site_known :
    (s : Session) (path func fmt : Bytes) (line : ℕ)
    → contains (log_site_hash (trim_to_basename path) line func) s.sites_seen ≡ true
    → register_log_site s path func line fmt ≡ (s, log_site_hash (trim_to_basename path) line func)
unfolding register_log_site
site_known s path func fmt line e = ground arith

contains-cons : (h : ℕ) (hs : List ℕ) → contains h (h ∷ hs) ≡ true
unfolding contains
contains-cons h hs = ground arith

site_registered :
    (s : Session) (path func fmt : Bytes) (line : ℕ)
    → let (s1, hash) = register_log_site s path func line fmt in
      (hash ≡ log_site_hash (trim_to_basename path) line func)
      × (contains (log_site_hash (trim_to_basename path) line func) s1.sites_seen ≡ true)
unfolding register_log_site
site_registered s path func fmt line =
    ground (arith, contains-cons (log_site_hash (trim_to_basename path) line func) s.sites_seen)

-- A second registration of a call site returns the same nonzero hash and does nothing.
pub register_log_site_twice :
    (s : Session) (path func fmt fmt' : Bytes) (line : ℕ)
    → let (s1, hash) = register_log_site s path func line fmt in
      (hash ≢ 0)
      × (hash ≡ log_site_hash (trim_to_basename path) line func)
      × (register_log_site s1 path func line fmt' ≡ (s1, hash))
register_log_site_twice s path func fmt fmt' line =
    let (same, known) = site_registered s path func fmt line in
    let (e, nonzero, small) = log_site_hash_lem (trim_to_basename path) line func in
    (
      (λ z. nonzero (sym same ∙ z)),
      same,
      site_known (register_log_site s path func line fmt).0 path func fmt' line known
          ∙ ap (λ h. ((register_log_site s path func line fmt).0, h)) (sym same),
    )

-- The handles that calls destroy, in order.
abbrev pub destroyed : List Call → List ℕ
destroyed [] = []
destroyed (Call.destroy_topic k ∷ cs) = k ∷ destroyed cs
destroyed (Call.produce t p k ∷ cs) = destroyed cs
destroyed (Call.produce_to h p k ∷ cs) = destroyed cs
destroyed (Call.create_topic t ∷ cs) = destroyed cs
destroyed (Call.flush t ∷ cs) = destroyed cs

-- The handles that a session holds: those of its slots, and the one of the log topic.
abbrev pub held : Option ℕ → List ℕ
held none = []
held (some k) = k ∷ []

abbrev pub handles : List Slot → Option ℕ → List ℕ
handles [] log_rkt = held log_rkt
handles (c ∷ cs) log_rkt = held c.rkt ++ handles cs log_rkt

destroyed-append : (xs ys : List Call) → destroyed (xs ++ ys) ≡ destroyed xs ++ destroyed ys
destroyed-append [] ys = refl
destroyed-append (Call.destroy_topic k ∷ xs) ys = ap (λ t. k ∷ t) (destroyed-append xs ys)
destroyed-append (Call.produce t p k ∷ xs) ys = destroyed-append xs ys
destroyed-append (Call.produce_to h p k ∷ xs) ys = destroyed-append xs ys
destroyed-append (Call.create_topic t ∷ xs) ys = destroyed-append xs ys
destroyed-append (Call.flush t ∷ xs) ys = destroyed-append xs ys

destroyed-handle :
    (h : Option ℕ) (xs : List Call) → destroyed (destroy_handle h ++ xs) ≡ held h ++ destroyed xs
unfolding destroy_handle
destroyed-handle none xs = refl
destroyed-handle (some k) xs = refl

destroyed-slots :
    (cs : List Slot) (l : Option ℕ)
    → destroyed (destroy_slots cs ++ (destroy_handle l ++ Call.flush 10000 ∷ [])) ≡ handles cs l
unfolding destroy_slots
destroyed-slots [] l = destroyed-handle l (Call.flush 10000 ∷ []) ∙ append-nil (held l)
destroyed-slots (c ∷ cs) l =
    ap destroyed (append_assoc (destroy_handle c.rkt) (destroy_slots cs) _)
    ∙ destroyed-handle c.rkt _
    ∙ ap (λ hs. held c.rkt ++ hs) (destroyed-slots cs l)

-- Closing a session destroys each handle that it holds exactly once, and flushes at the very end.
pub close_session_lem :
    (s : Session)
    → (destroyed (close_session s) ≡ handles s.counters s.log_rkt)
      × ((before : List Call) × (close_session s ≡ before ++ Call.flush 10000 ∷ []))
unfolding close_session
close_session_lem s = (
  destroyed-slots s.counters s.log_rkt,
  (
    destroy_slots s.counters ++ destroy_handle s.log_rkt,
    sym (
        append_assoc (destroy_slots s.counters) (destroy_handle s.log_rkt) (Call.flush 10000 ∷ [])),
  ),
)
