-- ===== src/Kv8log/Ctl/Ending.antt =====
-- The control messages that `ParseCtlMsg` reads past their end.
use kv8_metrics.Prelude.{
  ℕ, ◌≡◌, ◌≢◌, refl, sym, ap, ◌∙◌, Bool, true, false, Option, none, some, Option-cases, Bool-cases,
  inl, inr, [], ◌++◌, append-nil, if◌then◌else◌,
}
use kv8_metrics.Prelude.Bytes.{Bytes, codes}
use kv8_metrics.Prelude.Decimal.{decimal, ignores-decimal}
use kv8_metrics.Kv8log.Ctl.{
  CtlMsg, find_key, skip_blanks, skip_spaces, parse_enabled, strtol, check_wid, command_of,
  parse_values, parse_ctl_msg, digits_end, number_ends, wid_key, enabled_key, true_text, false_text,
}
use kv8_metrics.Kv8log.Ctl.RoundTrip.{
  parse_ctl_msg_lem, no_wid, no_enabled, digits_end-digit, number_ends-decimal,
}

-- Both keys are found, and behind the blanks of the first no character ends the number.
abbrev pub ReadPastEnd : Bytes → Type 0
ReadPastEnd msg =
    (pw : Bytes) × (pe : Bytes) × (find_key wid_key msg ≡ some pw)
    × (find_key enabled_key msg ≡ some pe)
    × (number_ends (skip_spaces (skip_blanks pw)) ≡ false)

command_of-ends : (wid : Option ℕ) (pe : Bytes) → command_of wid pe ≢ CtlMsg.past_end
unfolding command_of
command_of-ends none pe e = cc e
command_of-ends (some wid) pe e = elim (Option-cases (parse_enabled pe)) [
  | inl n ↦ cc (n, e)
  | inr (b, s) ↦ cc (s, e)
]

values-ends :
    (pw pe : Bytes)
    → number_ends (skip_spaces pw) ≡ true
    → (wid : Option ℕ) × (parse_values pw pe ≡ command_of wid pe)
unfolding parse_values
values-ends pw pe t =
    (elim (strtol pw) [ none ↦ none | some number ↦ check_wid number ], rw (t, parse_values) refl)

values_past_end :
    (pw pe : Bytes)
    → (number_ends (skip_spaces pw) ≡ false → parse_values pw pe ≡ CtlMsg.past_end)
      × (parse_values pw pe ≡ CtlMsg.past_end → number_ends (skip_spaces pw) ≡ false)
unfolding parse_values
values_past_end pw pe = elim (Bool-cases (number_ends (skip_spaces pw))) [
  | inl t ↦ (
    (λ f. cc (t, f)),
    λ e. absurd (let (wid, q) = values-ends pw pe t in command_of-ends wid pe (sym q ∙ e)),
  )
  | inr f ↦ ((λ _. rw (f, parse_values) refl), λ _. f)
]

pub ReadPastEnd-past_end : (msg : Bytes) → ReadPastEnd msg → parse_ctl_msg msg ≡ CtlMsg.past_end
ReadPastEnd-past_end msg (pw, pe, ew, ee, f) =
    parse_ctl_msg_lem msg pw pe ew ee ∙ (values_past_end (skip_blanks pw) (skip_blanks pe)).0 f

pub past_end-ReadPastEnd : (msg : Bytes) → parse_ctl_msg msg ≡ CtlMsg.past_end → ReadPastEnd msg
past_end-ReadPastEnd msg e = elim (Option-cases (find_key wid_key msg)) [
  | inl n ↦ cc (no_wid msg n, e)
  | inr (pw, ew) ↦ elim (Option-cases (find_key enabled_key msg)) [
    | inl n ↦ cc (no_enabled msg pw ew n, e)
    | inr (pe, ee) ↦ (
      pw,
      pe,
      ew,
      ee,
      (values_past_end (skip_blanks pw) (skip_blanks pe)).1
          (sym (parse_ctl_msg_lem msg pw pe ew ee) ∙ e),
    )
  ]
]

-- An object whose last text is the id, without the brace that ends it.
abbrev pub ends_in_wid : Bool → ℕ → Bytes
ends_in_wid b id =
    codes "{\"enabled\":"
    ++ ((if b then true_text else false_text) ++ (codes ",\"wid\":" ++ decimal id))

digits-open : (id : ℕ) → number_ends (skip_spaces (skip_blanks (decimal id))) ≡ false
unfolding digits_end
digits-open id =
    ap (λ s. number_ends (skip_spaces (skip_blanks s))) (sym (append-nil (decimal id)))
    ∙ number_ends-decimal id []
    ∙ ignores-decimal digits_end digits_end-digit id []

pub ends_in_wid-ReadPastEnd : (b : Bool) (id : ℕ) → ReadPastEnd (ends_in_wid b id)
unfolding find_key
ends_in_wid-ReadPastEnd true id = (_, _, refl, refl, digits-open id)
ends_in_wid-ReadPastEnd false id = (_, _, refl, refl, digits-open id)
