-- ===== src/Receive/Laws/Toggling.antt =====
-- The producer's messages on the control topic, as `ParseAndQueueCtl` of kv8scope/ConsumerThread.cpp
-- reads them.
use kv8_metrics.Prelude.{
  ℕ, ◌+◌, ◌^◌, ◌<◌, ◌≤◌, ◌≡◌, refl, sym, ap, ◌∙◌, Bool, true, false, some, ◌∷◌, ◌++◌, length,
  if◌then◌else◌, arith,
}
use kv8_metrics.Prelude.Bytes.{Bytes, codes}
use kv8_metrics.Prelude.Decimal.{decimal, ignores-decimal, decimal_head}
use kv8_metrics.Kv8log.Ctl.{
  ctr_state_msg, session_open_msg, true_text, false_text, wid_key, enabled_key, strtol, skip_blanks,
  skip_spaces, digits_end, number_ends,
}
use kv8_metrics.Kv8log.Ctl.RoundTrip.{length-messages, strtol-decimal, digits_end-decimal}
use kv8_metrics.Receive.CtlText.{
  Search, CtlResult, strstr, compare_key, skip_blank, find_enabled, check_wid, read_enabled,
  read_wid, parse_ctl,
}

strstr-digit :
    (ks : Bytes) (d : ℕ) (rest : Bytes)
    → d < 10
    → strstr (34 ∷ ks) ((48 + d) ∷ rest) ≡ strstr (34 ∷ ks) rest
unfolding strstr compare_key
strstr-digit ks d rest h = ground arith

strstr-decimal :
    (ks : Bytes) (n : ℕ) (rest : Bytes)
    → strstr (34 ∷ ks) (decimal n ++ rest) ≡ strstr (34 ∷ ks) rest
strstr-decimal ks n rest = ignores-decimal (strstr (34 ∷ ks)) (strstr-digit ks) n rest

tail_text : Bool → ℕ → Bytes
tail_text enabled ts =
    (if enabled then true_text else false_text) ++ (codes ",\"ts\":" ++ (decimal ts ++ codes "}"))

strstr_wid :
    (id : ℕ) (enabled : Bool) (ts : ℕ)
    → strstr wid_key (ctr_state_msg id enabled ts)
      ≡ Search.found (decimal id ++ (codes ",\"enabled\":" ++ tail_text enabled ts))
unfolding strstr compare_key ctr_state_msg tail_text
strstr_wid id enabled ts = refl

strstr_enabled :
    (id : ℕ) (enabled : Bool) (ts : ℕ)
    → strstr enabled_key (ctr_state_msg id enabled ts) ≡ Search.found (tail_text enabled ts)
unfolding strstr compare_key ctr_state_msg tail_text
strstr_enabled id enabled ts =
    strstr-decimal (codes "enabled\":") id (codes ",\"enabled\":" ++ tail_text enabled ts)

-- Nothing is skipped in front of a digit.
at_digit :
    (d : ℕ) (more : Bytes)
    → d < 10
    → let s = (48 + d) ∷ more in
      (skip_blank s ≡ s)
      × (skip_blanks s ≡ s)
      × (skip_spaces s ≡ s)
      × (number_ends s ≡ digits_end s)
unfolding skip_blank skip_blanks skip_spaces number_ends digits_end
at_digit d more h = ground arith

at_number :
    (n : ℕ) (rest : Bytes)
    → let s = decimal n ++ rest in
      (skip_blank s ≡ s)
      × (skip_blanks s ≡ s)
      × (skip_spaces s ≡ s)
      × (number_ends s ≡ digits_end s)
at_number n rest =
    let (d, more, small, e) = decimal_head n in rw e (at_digit d (more ++ rest) small)

check_wid-fits : (p : Bytes) (n : ℕ) → n ≤ 1023 → check_wid p (some (false, n)) ≡ find_enabled p n
unfolding check_wid
check_wid-fits p n h = ground arith

read_wid_lem :
    (p s : Bytes) → number_ends (skip_spaces s) ≡ true → read_wid p s ≡ check_wid p (strtol s)
unfolding read_wid
read_wid_lem p s e = rw e refl

-- A number in front of a comma is read, and its end is found.
read_number :
    (p : Bytes) (n : ℕ) (rest : Bytes)
    → n ≤ 1023
    → read_wid p (skip_blank (decimal n ++ 44 ∷ rest)) ≡ find_enabled p n
read_number p n rest h =
    let (blank, blanks, spaces, ends) = at_number n (44 ∷ rest) in
    ap (read_wid p) blank
    ∙ read_wid_lem p _ (ap number_ends spaces ∙ ends ∙ digits_end-decimal n rest)
    ∙ ap (check_wid p) (ap strtol (sym blanks) ∙ strtol-decimal n rest)
    ∙ check_wid-fits p n h

tail-read :
    (wid : ℕ) (enabled : Bool) (ts : ℕ)
    → read_enabled wid (skip_blank (tail_text enabled ts)) ≡ CtlResult.event wid enabled
unfolding read_enabled skip_blank tail_text
tail-read wid true ts = refl
tail-read wid false ts = refl

-- What is done with a payload of at most 512 bytes.
search_wid : Bytes → Search → CtlResult
search_wid p (Search.found pwid) = read_wid p (skip_blank pwid)
search_wid p Search.absent = CtlResult.ignored
search_wid p Search.beyond = CtlResult.past_end

parse_ctl_lem :
    (p : Bytes) (s : Search)
    → 1 ≤ length p
    → length p ≤ 512
    → strstr wid_key p ≡ s
    → parse_ctl p ≡ search_wid p s
unfolding parse_ctl search_wid
parse_ctl_lem p (Search.found pwid) h1 h2 e = ground (arith, e)
parse_ctl_lem p Search.absent h1 h2 e = ground (arith, e)
parse_ctl_lem p Search.beyond h1 h2 e = ground (arith, e)

messages-nonempty :
    (id : ℕ) (enabled : Bool) (ts : ℕ)
    → (1 ≤ length (ctr_state_msg id enabled ts)) × (1 ≤ length (session_open_msg ts))
unfolding ctr_state_msg session_open_msg
messages-nonempty id enabled ts = omega arith

-- For a counter with an id of at most 1023: the command that the runtime publishes for it is read as an
-- event with that id and state.
pub parse_ctl-ctr_state :
    (id : ℕ) (enabled : Bool) (ts : ℕ)
    → id ≤ 1023
    → ts < 2 ^ 64
    → parse_ctl (ctr_state_msg id enabled ts) ≡ CtlResult.event id enabled
unfolding search_wid find_enabled
parse_ctl-ctr_state id enabled ts h ht =
    let p = ctr_state_msg id enabled ts in
    parse_ctl_lem p _ (messages-nonempty id enabled ts).0
      (omega (arith, (length-messages id enabled ts (omega arith) ht).0)) (strstr_wid id enabled ts)
    ∙ read_number p id (codes "\"enabled\":" ++ tail_text enabled ts) h
    ∙ rw (strstr_enabled id enabled ts, find_enabled) (tail-read id enabled ts)

session_open-absent : (ts : ℕ) → strstr wid_key (session_open_msg ts) ≡ Search.beyond
unfolding strstr compare_key session_open_msg
session_open-absent ts = strstr-decimal (codes "wid\":") ts (codes "}")

-- The message with which every session begins its control topic has no `wid`: the search for it goes on
-- past the end of the message.
pub session_open_read_past_end :
    (ts : ℕ) → ts < 2 ^ 64 → parse_ctl (session_open_msg ts) ≡ CtlResult.past_end
unfolding search_wid
session_open_read_past_end ts ht =
    parse_ctl_lem (session_open_msg ts) Search.beyond (messages-nonempty 0 true ts).1
      (omega (arith, (length-messages 0 true ts (omega arith) ht).1)) (session_open-absent ts)
