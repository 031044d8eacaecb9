-- ===== src/Registry/Laws/Prefix.antt =====
-- The derivation of the session prefix from a topic name.
use kv8_metrics.Prelude.{
  ℕ, zero, suc, ◌+◌, ◌/◌, ◌<◌, ◌≤◌, ◌≡◌, ◌≢◌, refl, sym, ap, ◌∙◌, true, false, none, some, [], ◌∷◌,
  ◌++◌, length, length-append, append_assoc, take, arith,
}
use kv8_metrics.Prelude.Bytes.{Bytes, codes, take-length, Lacks, append-Lacks}
use kv8_metrics.Prelude.Assoc.{bytes_beq_refl}
use kv8_metrics.Wire.Registry.{cid_log}
use kv8_metrics.Kv8log.Text.{hex_digit, hex_before, hex4, hex8}
use kv8_metrics.Registry.{is_prefix, before_last, or_else, session_prefix, of_channel}

-- No hexadecimal digit is a small letter.
hex_before-Lacks :
    (m w v : ℕ) (rest : Bytes) → 71 ≤ m → Lacks m rest → Lacks m (hex_before w v rest)
unfolding hex_before hex_digit
hex_before-Lacks m zero v rest low h = h
hex_before-Lacks m (suc w) v rest low h =
    hex_before-Lacks m w (v / 16) _ low ((λ e. ground arith), h)

pub hex-Lacks : (m hash id : ℕ) → 71 ≤ m → Lacks m (hex8 hash ++ (codes "." ++ hex4 id))
unfolding hex8 hex4
hex-Lacks m hash id low =
    append-Lacks m (hex_before 8 hash []) (codes "." ++ hex_before 4 id [])
      (hex_before-Lacks m 8 hash [] low tt) ((λ e. omega arith), hex_before-Lacks m 4 id [] low tt)

before_last-append : (q p s : Bytes) → before_last q s ≡ some [] → before_last q (p ++ s) ≡ some p
unfolding before_last
before_last-append q [] s e = e
before_last-append q (c ∷ p) s e = rw (before_last-append q p s e) refl

-- `m` is the middle character of the pattern.
module _ (m : ℕ) (letter : 47 ≤ m) where
  is_prefix-Lacks : (s : Bytes) → Lacks m s → is_prefix (46 ∷ m ∷ 46 ∷ []) s ≡ false
  unfolding is_prefix
  is_prefix-Lacks [] h = refl
  is_prefix-Lacks (c ∷ []) h = ground arith
  is_prefix-Lacks (c ∷ d ∷ s) h = let other : d ≢ m = h.1.0 in ground (arith, other)

  before_last-Lacks : (s : Bytes) → Lacks m s → before_last (46 ∷ m ∷ 46 ∷ []) s ≡ none
  unfolding before_last is_prefix
  before_last-Lacks [] h = refl
  before_last-Lacks (c ∷ s) h = ground (arith, before_last-Lacks s h.1, is_prefix-Lacks (c ∷ s) h)

  marker : (s : Bytes) → Lacks m s → before_last (46 ∷ m ∷ 46 ∷ []) (46 ∷ m ∷ 46 ∷ s) ≡ some []
  unfolding before_last is_prefix
  marker s h =
      ground
        (arith, before_last-Lacks s h, is_prefix-Lacks (46 ∷ s) ((λ e. omega arith), h), letter)

-- A data topic of the session whose prefix is `p`.
pub prefix-data_topic :
    (id : ℕ) (p s : Bytes)
    → id < cid_log
    → Lacks 100 s
    → session_prefix id (p ++ (codes ".d." ++ s)) ≡ some p
unfolding session_prefix or_else
prefix-data_topic id p s h low =
    ground (
      arith,
      before_last-append (codes ".d.") p (codes ".d." ++ s) (marker 100 (omega arith) s low),
    )

-- A feed's topic, where no 'd' stands in the session's prefix.
pub prefix-feed_topic :
    (id : ℕ) (p s : Bytes)
    → id < cid_log
    → Lacks 100 (p ++ (codes ".u." ++ s))
    → Lacks 117 s
    → session_prefix id (p ++ (codes ".u." ++ s)) ≡ some p
unfolding session_prefix or_else
prefix-feed_topic id p s h no_data low = ground (
  arith,
  before_last-Lacks 100 (omega arith) (p ++ (codes ".u." ++ s)) no_data,
  before_last-append (codes ".u.") p (codes ".u." ++ s) (marker 117 (omega arith) s low),
)

pub of_channel-append :
    (channel session : Bytes)
    → 0 < length session
    → of_channel channel (channel ++ (codes "." ++ session)) ≡ true
unfolding of_channel
of_channel-append channel session h =
    ground (arith, front, bytes_beq_refl (channel ++ codes "."), size)
  where
    whole : channel ++ (codes "." ++ session) ≡ (channel ++ codes ".") ++ session
    whole = sym (append_assoc channel (codes ".") session)

    front : take (length channel + 1) (channel ++ (codes "." ++ session)) ≡ channel ++ codes "."
    front =
        ap (take (length channel + 1)) whole
        ∙ take-length (length channel + 1) (channel ++ codes ".") session
            (length-append channel (codes "."))

    size : length (channel ++ (codes "." ++ session)) ≡ length channel + suc (length session)
    size = length-append channel (codes "." ++ session)

-- A prefix that is no longer than the channel is not one of its sessions.
pub of_channel_short :
    (channel prefix : Bytes)
    → length prefix ≤ length channel + 1
    → of_channel channel prefix ≡ false
unfolding of_channel
of_channel_short channel prefix h = ground arith
