-- ===== src/Receive/CtlText.antt =====
-- The text functions of `ParseAndQueueCtl`, kv8scope/ConsumerThread.cpp. They read a payload that ends
-- with no zero byte for them, so a result of the model says when they go past its end.
use kv8_metrics.Prelude.{
  ℕ, Bool, Option, none, some, [], ◌∷◌, ◌==◌, ◌&&◌, ◌||◌, not, ltb, length, if◌then◌else◌,
}
use kv8_metrics.Prelude.Bytes.{Bytes}
use kv8_metrics.Kv8log.Ctl.{skip_spaces, number_ends, strtol, wid_key, enabled_key}

pub data Search : Type 0 where
  found : (rest : Bytes) → Search
  absent : Search
  beyond : Search

-- The comparison of a key with the text, up to the first difference.
unfoldable pub compare_key : Bytes → Bytes → Search
compare_key [] s = Search.found s
compare_key (k ∷ ks) [] = Search.beyond
compare_key (k ∷ ks) (c ∷ cs) = if k == c then compare_key ks cs else Search.absent

-- strstr, and what stands behind the key.
unfoldable pub strstr : Bytes → Bytes → Search
unfolding compare_key
strstr key [] = Search.beyond
strstr key (c ∷ cs) =
    let later = strstr key cs in
    elim (compare_key key (c ∷ cs)) [
      | found rest ↦ Search.found rest
      | beyond ↦ Search.beyond
      | absent ↦ if c == 0 then Search.absent else later
    ]

-- `while (*p == ' ') ++p`
unfoldable pub skip_blank : Bytes → Bytes
skip_blank [] = []
skip_blank (c ∷ cs) = if c == 32 then skip_blank cs else c ∷ cs

pub data CtlResult : Type 0 where
  ignored : CtlResult
  past_end : CtlResult
  event : (wid : ℕ) (enabled : Bool) → CtlResult

-- From the value of `enabled` on.
unfoldable pub read_enabled : ℕ → Bytes → CtlResult
read_enabled wid [] = CtlResult.past_end
read_enabled wid (c ∷ cs) = CtlResult.event wid (c == b't' || c == b'T' || c == b'1')

unfoldable pub find_enabled : Bytes → ℕ → CtlResult
unfolding strstr read_enabled skip_blank
find_enabled p wid = elim (strstr enabled_key p) [
  | found pen ↦ read_enabled wid (skip_blank pen)
  | absent ↦ CtlResult.ignored
  | beyond ↦ CtlResult.past_end
]

-- From the value of `wid` on; `strtol` gives no number where `pEnd == pWid`.
unfoldable pub check_wid : Bytes → Option (Bool × ℕ) → CtlResult
unfolding find_enabled
check_wid p none = CtlResult.ignored
check_wid p (some (negative, wid)) =
    if (negative && not (wid == 0)) || ltb 1023 wid then CtlResult.ignored else find_enabled p wid

unfoldable pub read_wid : Bytes → Bytes → CtlResult
unfolding number_ends check_wid skip_spaces strtol
read_wid p pwid =
    if number_ends (skip_spaces pwid) then check_wid p (strtol pwid) else CtlResult.past_end

unfoldable pub parse_ctl : Bytes → CtlResult
unfolding strstr read_wid skip_blank
parse_ctl p =
    let result : CtlResult = elim (strstr wid_key p) [
      | found pwid ↦ read_wid p (skip_blank pwid)
      | absent ↦ CtlResult.ignored
      | beyond ↦ CtlResult.past_end
    ] in
    if length p == 0 || ltb 512 (length p) then CtlResult.ignored else result
