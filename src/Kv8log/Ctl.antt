-- ===== src/Kv8log/Ctl.antt =====
-- The control messages on a session's `._ctl` topic, libs/kv8log/lib/kv8log_impl.cpp: `ParseCtlMsg`,
-- and the messages that `kv8log_set_counter_enabled` and `WriteSessionHeader` print.
pub mod RoundTrip
pub mod Ending
use kv8_metrics.Prelude.{
  ℕ, zero, suc, ◌+◌, ◌-◌, ◌≤◌, ◌≡◌, Bool, true, false, Option, none, some, List, [], ◌∷◌, ◌++◌,
  ◌==◌, ◌&&◌, ◌||◌, ltb, leb, not, if◌then◌else◌,
}
use kv8_metrics.Prelude.Bytes.{Bytes, codes}
use kv8_metrics.Prelude.Decimal.{decimal, is_digit, read_digits}

-- What follows `key` at the start of a text.
unfoldable pub strip : Bytes → Bytes → Option Bytes
strip [] s = some s
strip (k ∷ ks) [] = none
strip (k ∷ ks) (c ∷ cs) = if k == c then strip ks cs else none

-- What follows the first occurrence of `key`.
unfoldable pub find_key : Bytes → Bytes → Option Bytes
unfolding strip
find_key key [] = strip key []
find_key key (c ∷ cs) =
    let later = find_key key cs in
    elim (strip key (c ∷ cs)) [ some rest ↦ some rest | none ↦ later ]

-- `while (*p == ' ' || *p == '\t') ++p`
unfoldable pub skip_blanks : Bytes → Bytes
skip_blanks [] = []
skip_blanks (c ∷ cs) = if c == 32 || c == 9 then skip_blanks cs else c ∷ cs

-- `isspace` in the C locale.
abbrev is_space : ℕ → Bool
is_space c = c == 32 || (leb 9 c && leb c 13)

unfoldable pub skip_spaces : Bytes → Bytes
skip_spaces [] = []
skip_spaces (c ∷ cs) = if is_space c then skip_spaces cs else c ∷ cs

-- strtol stops at a character of the text: behind the spaces, at the first that is no digit.
unfoldable pub digits_end : Bytes → Bool
digits_end [] = false
digits_end (c ∷ cs) = if is_digit c then digits_end cs else true

unfoldable pub number_ends : Bytes → Bool
unfolding digits_end
number_ends [] = false
number_ends (c ∷ cs) = if c == b'-' || c == b'+' then digits_end cs else digits_end (c ∷ cs)

-- The digits of `strtol`, in base 10: none if there is no digit, else the sign and the value.
unfoldable pub signed_digits : Bool → Bytes → Option (Bool × ℕ)
signed_digits negative [] = none
signed_digits negative (c ∷ cs) =
    if is_digit c then some (negative, (read_digits 0 (c ∷ cs)).0) else none

unfoldable pub after_sign : Bytes → Option (Bool × ℕ)
unfolding signed_digits
after_sign [] = none
after_sign (c ∷ cs) =
    if c == b'-'
    then signed_digits true cs
    else if c == b'+'
    then signed_digits false cs
    else signed_digits false (c ∷ cs)

-- For a text in which the number ends.
unfoldable pub strtol : Bytes → Option (Bool × ℕ)
unfolding skip_spaces after_sign
strtol s = after_sign (skip_spaces s)

-- `wid < 0 || wid > 0xFFFF`
unfoldable pub check_wid : Bool × ℕ → Option ℕ
check_wid (negative, v) = if (negative && not (v == 0)) || ltb 0xFFFF v then none else some v

abbrev pub true_text : Bytes
true_text = codes "true"

abbrev pub false_text : Bytes
false_text = codes "false"

unfoldable pub parse_enabled : Bytes → Option Bool
unfolding strip
parse_enabled s = elim (strip true_text s) [
  | some _ ↦ some true
  | none ↦ elim (strip false_text s) [ some _ ↦ some false | none ↦ none ]
]

abbrev pub wid_key : Bytes
wid_key = codes "\"wid\":"

abbrev pub enabled_key : Bytes
enabled_key = codes "\"enabled\":"

-- The payload ends with no zero byte, so that `strtol` may go past its end.
pub data CtlMsg : Type 0 where
  rejected : CtlMsg
  past_end : CtlMsg
  command : (wid : ℕ) (enabled : Bool) → CtlMsg

-- From the test of the id on.
unfoldable pub command_of : Option ℕ → Bytes → CtlMsg
command_of none pe = CtlMsg.rejected
command_of (some wid) pe = elim (parse_enabled pe) [
  | none ↦ CtlMsg.rejected
  | some enabled ↦ CtlMsg.command wid enabled
]

-- From the number on.
unfoldable pub parse_values : Bytes → Bytes → CtlMsg
parse_values pw pe =
    let wid : Option ℕ = elim (strtol pw) [ none ↦ none | some number ↦ check_wid number ] in
    if number_ends (skip_spaces pw) then command_of wid pe else CtlMsg.past_end

unfoldable pub parse_ctl_msg : Bytes → CtlMsg
parse_ctl_msg p = elim (find_key wid_key p) [
  | none ↦ CtlMsg.rejected
  | some pw ↦ elim (find_key enabled_key p) [
    | none ↦ CtlMsg.rejected
    | some pe ↦ parse_values (skip_blanks pw) (skip_blanks pe)
  ]
]

-- {"v":1,"cmd":"ctr_state","wid":%u,"enabled":%s,"ts":%llu}
unfoldable pub ctr_state_msg : ℕ → Bool → ℕ → Bytes
ctr_state_msg id enabled ts =
    codes "{\"v\":1,\"cmd\":\"ctr_state\",\"wid\":"
    ++ (decimal id
        ++ (codes ",\"enabled\":"
            ++ ((if enabled then true_text else false_text)
                ++ (codes ",\"ts\":" ++ (decimal ts ++ codes "}")))))

-- {"v":1,"cmd":"session_open","ts":%llu}
unfoldable pub session_open_msg : ℕ → Bytes
session_open_msg ts = codes "{\"v\":1,\"cmd\":\"session_open\",\"ts\":" ++ (decimal ts ++ codes "}")
