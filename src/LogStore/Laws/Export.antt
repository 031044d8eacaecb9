-- ===== src/LogStore/Laws/Export.antt =====
-- The CSV export: which entries it holds, and how a reader takes a quoted field apart.
use kv8_metrics.Prelude.{
  ℕ, ◌≤◌, ◌≡◌, ◌≢◌, refl, ap, ◌∙◌, Bool, true, false, Bool-cases, inl, inr, Option, none, some,
  List, [], ◌∷◌, ◌++◌, ◌==◌, if◌then◌else◌, append_assoc, arith,
}
use kv8_metrics.Prelude.Bytes.{Bytes}
use kv8_metrics.LogStore.{
  Entry, LogStore, is_visible, count_matching, count_visible, quoted_body, write_quoted, csv_rows,
  export_csv,
}

prepend : ℕ → Option (Bytes × Bytes) → Option (Bytes × Bytes)
prepend c none = none
prepend c (some (t, rest)) = some (c ∷ t, rest)

-- A reader of RFC 4180, behind the opening quote of a field: the text of the field, and what follows.
-- It is told whether it has just seen a quote.
pub read_from : Bool → Bytes → Option (Bytes × Bytes)
unfolding prepend
read_from false [] = none
read_from true [] = some ([], [])
read_from false (c ∷ s) = if c == 34 then read_from true s else prepend c (read_from false s)
read_from true (c ∷ s) = if c == 34 then prepend 34 (read_from false s) else some ([], c ∷ s)

pub read_quoted : Bytes → Option (Bytes × Bytes)
unfolding read_from
read_quoted [] = none
read_quoted (c ∷ s) = if c == 34 then read_from false s else none

read-quoted_body :
    (s : Bytes) (c : ℕ) (rest : Bytes)
    → c ≢ 34
    → read_from false (quoted_body s ++ 34 ∷ c ∷ rest) ≡ some (s, c ∷ rest)
unfolding read_from quoted_body prepend
read-quoted_body [] c rest h = ground (arith, h)
read-quoted_body (x ∷ s) c rest h = elim (Bool-cases (x == 34)) [
  | inl q ↦ ground (arith, q, read-quoted_body s c rest h)
  | inr n ↦ ground (arith, n, read-quoted_body s c rest h)
]

-- A quoted field is read back as the text that was written, with whatever follows it, as long as that
-- does not start with a quote.
pub read-write_quoted :
    (s : Bytes) (c : ℕ) (rest : Bytes)
    → c ≢ 34
    → read_quoted (write_quoted s ++ c ∷ rest) ≡ some (s, c ∷ rest)
unfolding read_quoted write_quoted
read-write_quoted s c rest h =
    ap (read_from false) (append_assoc (quoted_body s) (34 ∷ []) (c ∷ rest))
    ∙ read-quoted_body s c rest h

abbrev pub InRange : ℕ → ℕ → List Entry → Type 0
InRange lo hi [] = Unit {0}
InRange lo hi (e ∷ es) = (lo ≤ e.ts_ns) × (e.ts_ns ≤ hi) × InRange lo hi es

module _ (iso : ℕ → Bytes) where
  csv_rows-count :
      (lo hi mask : ℕ) (filter : Bytes) (es : List Entry)
      → InRange lo hi es
      → (csv_rows iso lo hi mask filter es).1 ≡ count_matching mask filter es
  unfolding csv_rows count_matching
  csv_rows-count lo hi mask filter [] h = refl
  csv_rows-count lo hi mask filter (e ∷ es) h = elim (Bool-cases (is_visible mask filter e)) [
    | inl v ↦ ground (arith, v, h.0, h.1, csv_rows-count lo hi mask filter es h.2)
    | inr n ↦ ground (arith, n, h.0, h.1, csv_rows-count lo hi mask filter es h.2)
  ]

  -- An export with the panel's own mask and filter, over a range with every entry in it, writes as many
  -- rows as the panel shows.
  pub export_csv-count_visible :
      (lo hi : ℕ) (st : LogStore)
      → InRange lo hi st.entries
      → (export_csv iso lo hi st.level_mask st.filter st).1 ≡ count_visible st
  unfolding export_csv count_visible
  export_csv-count_visible lo hi st h = csv_rows-count lo hi st.level_mask st.filter st.entries h
