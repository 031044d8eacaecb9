-- ===== src/Kv8log/Ctl/RoundTrip.antt =====
-- The control messages that the runtime prints, read by `ParseCtlMsg`.
use kv8_metrics.Prelude.{
  ℕ, ◌+◌, ◌^◌, ◌<◌, ◌≡◌, refl, sym, ap, ◌∙◌, Bool, true, false, none, some, ◌∷◌, ◌++◌, length,
  length-append, if◌then◌else◌, arith,
}
use kv8_metrics.Prelude.Bytes.{Bytes, codes}
use kv8_metrics.Prelude.Decimal.{
  decimal, read_digits, read_digits-decimal, ignores-decimal, decimal_head, length-decimal,
}
use kv8_metrics.Kv8log.Ctl.{
  CtlMsg, command_of, parse_values, digits_end, number_ends, skip_spaces, find_key, skip_blanks,
  strtol, check_wid, parse_enabled, parse_ctl_msg, ctr_state_msg, session_open_msg, true_text,
  false_text, wid_key, enabled_key,
}

-- Keys start with a quote, so no key starts inside a number.
find_key-digit :
    (ks : Bytes) (d : ℕ) (rest : Bytes)
    → d < 10
    → find_key (34 ∷ ks) ((48 + d) ∷ rest) ≡ find_key (34 ∷ ks) rest
unfolding find_key
find_key-digit ks d rest h = ground arith

pub find_key-decimal :
    (ks : Bytes) (n : ℕ) (rest : Bytes)
    → find_key (34 ∷ ks) (decimal n ++ rest) ≡ find_key (34 ∷ ks) rest
find_key-decimal ks n rest = ignores-decimal (find_key (34 ∷ ks)) (find_key-digit ks) n rest

tail_text : ℕ → Bytes
tail_text ts = codes ",\"ts\":" ++ (decimal ts ++ codes "}")

enabled_text : Bool → ℕ → Bytes
enabled_text enabled ts = (if enabled then true_text else false_text) ++ tail_text ts

find_wid :
    (id : ℕ) (enabled : Bool) (ts : ℕ)
    → find_key wid_key (ctr_state_msg id enabled ts)
      ≡ some (decimal id ++ (codes ",\"enabled\":" ++ enabled_text enabled ts))
unfolding find_key ctr_state_msg enabled_text tail_text
find_wid id enabled ts = refl

find_enabled :
    (id : ℕ) (enabled : Bool) (ts : ℕ)
    → find_key enabled_key (ctr_state_msg id enabled ts) ≡ some (enabled_text enabled ts)
unfolding find_key ctr_state_msg enabled_text tail_text
find_enabled id enabled ts =
    find_key-decimal (codes "enabled\":") id (codes ",\"enabled\":" ++ enabled_text enabled ts)

-- A number whose text is followed by a comma.
strtol-digits :
    (d n : ℕ) (more rest : Bytes)
    → d < 10
    → (read_digits 0 ((48 + d) ∷ more)).0 ≡ n
    → strtol (skip_blanks ((48 + d) ∷ more)) ≡ some (false, n)
unfolding strtol skip_blanks
strtol-digits d n more rest h e = ground arith

read_digits-comma : (n : ℕ) (rest : Bytes) → (read_digits n (44 ∷ rest)).0 ≡ n
unfolding read_digits
read_digits-comma n rest = refl

pub strtol-decimal :
    (n : ℕ) (rest : Bytes) → strtol (skip_blanks (decimal n ++ 44 ∷ rest)) ≡ some (false, n)
strtol-decimal n rest =
    let (d, more, small, e) = decimal_head n in
    let text : decimal n ++ 44 ∷ rest ≡ (48 + d) ∷ (more ++ 44 ∷ rest) =
      ap (λ s. s ++ 44 ∷ rest) e in
    ap (λ s. strtol (skip_blanks s)) text
    ∙ strtol-digits d n (more ++ 44 ∷ rest) rest small (
        ap (λ s. (read_digits 0 s).0) (sym text)
        ∙ ap (λ r. r.0) (read_digits-decimal n (44 ∷ rest))
        ∙ read_digits-comma n rest)

pub digits_end-digit :
    (d : ℕ) (rest : Bytes) → d < 10 → digits_end ((48 + d) ∷ rest) ≡ digits_end rest
unfolding digits_end
digits_end-digit d rest h = ground arith

pub digits_end-decimal : (n : ℕ) (rest : Bytes) → digits_end (decimal n ++ 44 ∷ rest) ≡ true
unfolding digits_end
digits_end-decimal n rest = ignores-decimal digits_end digits_end-digit n (44 ∷ rest)

-- The number in front of a comma ends, whatever is skipped.
number_ends-digit :
    (d : ℕ) (more : Bytes)
    → d < 10
    → number_ends (skip_spaces (skip_blanks ((48 + d) ∷ more))) ≡ digits_end ((48 + d) ∷ more)
unfolding skip_blanks skip_spaces number_ends digits_end
number_ends-digit d more h = ground arith

pub number_ends-decimal :
    (n : ℕ) (rest : Bytes)
    → number_ends (skip_spaces (skip_blanks (decimal n ++ rest))) ≡ digits_end (decimal n ++ rest)
number_ends-decimal n rest =
    let (d, more, small, e) = decimal_head n in rw e (number_ends-digit d (more ++ rest) small)

check_wid-fits : (id : ℕ) → id < 2 ^ 16 → check_wid (false, id) ≡ some id
unfolding check_wid
check_wid-fits id h = ground arith

parse_enabled_text :
    (enabled : Bool) (ts : ℕ) → parse_enabled (skip_blanks (enabled_text enabled ts)) ≡ some enabled
unfolding parse_enabled skip_blanks enabled_text tail_text
parse_enabled_text true ts = refl
parse_enabled_text false ts = refl

pub parse_ctl_msg_lem :
    (p pw pe : Bytes)
    → find_key wid_key p ≡ some pw
    → find_key enabled_key p ≡ some pe
    → parse_ctl_msg p ≡ parse_values (skip_blanks pw) (skip_blanks pe)
unfolding parse_ctl_msg
parse_ctl_msg_lem p pw pe ew ee =
    ap
      (λ o. elim o [
        | none ↦ CtlMsg.rejected
        | some w ↦ elim (find_key enabled_key p) [
          | none ↦ CtlMsg.rejected
          | some e ↦ parse_values (skip_blanks w) (skip_blanks e)
        ]
      ])
      ew
    ∙ ap
        (λ o. elim o [
          | none ↦ CtlMsg.rejected
          | some e ↦ parse_values (skip_blanks pw) (skip_blanks e)
        ])
        ee

pub no_wid : (p : Bytes) → find_key wid_key p ≡ none → parse_ctl_msg p ≡ CtlMsg.rejected
unfolding parse_ctl_msg
no_wid p e =
    ap
      (λ o. elim o [
        | none ↦ CtlMsg.rejected
        | some w ↦ elim (find_key enabled_key p) [
          | none ↦ CtlMsg.rejected
          | some e ↦ parse_values (skip_blanks w) (skip_blanks e)
        ]
      ])
      e

pub no_enabled :
    (p pw : Bytes)
    → find_key wid_key p ≡ some pw
    → find_key enabled_key p ≡ none
    → parse_ctl_msg p ≡ CtlMsg.rejected
unfolding parse_ctl_msg
no_enabled p pw ew e =
    ap
      (λ o. elim o [
        | none ↦ CtlMsg.rejected
        | some w ↦ elim (find_key enabled_key p) [
          | none ↦ CtlMsg.rejected
          | some e ↦ parse_values (skip_blanks w) (skip_blanks e)
        ]
      ])
      ew
    ∙ ap
        (λ o. elim o [
          | none ↦ CtlMsg.rejected
          | some e ↦ parse_values (skip_blanks pw) (skip_blanks e)
        ])
        e

values-read :
    (pw pe : Bytes) (id : ℕ) (enabled : Bool)
    → number_ends (skip_spaces pw) ≡ true
    → strtol pw ≡ some (false, id)
    → id < 2 ^ 16
    → parse_enabled pe ≡ some enabled
    → parse_values pw pe ≡ CtlMsg.command id enabled
unfolding parse_values command_of
values-read pw pe id enabled ends number small text =
    rw (ends, number, parse_values)
      (rw (check_wid-fits id small, command_of) (rw (text, command_of) refl))

-- The command that the runtime publishes for a counter, with an id of 16 bits, is read back as
-- that id and state.
pub parse-ctr_state :
    (id : ℕ) (enabled : Bool) (ts : ℕ)
    → id < 2 ^ 16
    → parse_ctl_msg (ctr_state_msg id enabled ts) ≡ CtlMsg.command id enabled
parse-ctr_state id enabled ts h =
    let more = codes "\"enabled\":" ++ enabled_text enabled ts in
    parse_ctl_msg_lem (ctr_state_msg id enabled ts) _ _ (find_wid id enabled ts)
      (find_enabled id enabled ts)
    ∙ values-read _ _ id enabled (number_ends-decimal id (44 ∷ more) ∙ digits_end-decimal id more)
        (strtol-decimal id more) h (parse_enabled_text enabled ts)

find_none : (ts : ℕ) → find_key wid_key (session_open_msg ts) ≡ none
unfolding find_key session_open_msg
find_none ts = find_key-decimal (codes "wid\":") ts (codes "}")

-- The marker that opens a session carries no command.
pub parse-session_open : (ts : ℕ) → parse_ctl_msg (session_open_msg ts) ≡ CtlMsg.rejected
parse-session_open ts = no_wid (session_open_msg ts) (find_none ts)

-- Both messages fit the buffers of 128 bytes that they are printed to, for 64-bit times.
pub length-messages :
    (id : ℕ) (enabled : Bool) (ts : ℕ)
    → id < 2 ^ 16
    → ts < 2 ^ 64
    → (length (ctr_state_msg id enabled ts) < 128) × (length (session_open_msg ts) < 128)
unfolding ctr_state_msg session_open_msg
length-messages id true ts hi ht =
    simp length-append
      (omega (arith, length-decimal 4 id (omega arith), length-decimal 19 ts (omega arith)))
length-messages id false ts hi ht =
    simp length-append
      (omega (arith, length-decimal 4 id (omega arith), length-decimal 19 ts (omega arith)))
