-- ===== src/Wire/LogSite.antt =====
-- The variable-length tail of a call-site registry record: `Kv8EncodeLogSiteTail` and
-- `Kv8DecodeLogSiteTail` of libs/libkv8/include/kv8/Kv8Types.h.
use kv8_metrics.Prelude.{
  ℕ, ◌+◌, ◌^◌, ◌<◌, ◌≤◌, ◌≡◌, refl, sym, ap, ap₂, subst, take-append-drop, length-take, ◌∙◌, Option,
  none, some, [], ◌++◌, length, length-append, append-nil, append_assoc, ◌⊎◌, inl, inr, dec_lt,
  take, drop, ltb, if◌then◌else◌, arith,
}
use kv8_metrics.Prelude.Bytes.{
  Bytes, le, field, length-le, field-le, take-length, drop-length, AllBytes, take-AllBytes,
  drop-AllBytes, le-field, field-lt,
}

-- Kv8LogSiteInfo, with its views as the bytes that they show.
pub record LogSiteInfo : Type 0 where
  pub file : Bytes
  pub func : Bytes
  pub fmt : Bytes
  pub line : ℕ

-- `cbNeed`; each length is that of its text.
unfoldable pub tail_size : LogSiteInfo → ℕ
tail_size s = 2 + length s.file + 4 + (2 + length s.func) + (2 + length s.fmt)

-- The layout, as the sequence of copies writes it.
unfoldable pub layout : LogSiteInfo → Bytes
layout s =
    le 2 (length s.file)
    ++ (s.file
        ++ (le 4 s.line ++ (le 2 (length s.func) ++ (s.func ++ (le 2 (length s.fmt) ++ s.fmt)))))

-- The bytes written to a buffer of `capacity` bytes; none stands for the result 0.
unfoldable pub encode_tail : LogSiteInfo → ℕ → Option Bytes
encode_tail s capacity = if ltb capacity (tail_size s) then none else some (layout s)

-- `if (p + n > end) return false`, then the bytes up to `p + n` and what follows.
unfoldable pub advance : ℕ → Bytes → Option (Bytes × Bytes)
advance n p = if ltb (length p) n then none else some (take n p, drop n p)

infixl 5 ◌>>=◌
abbrev ◌>>=◌ : {A B : Type 0} → Option A → (A → Option B) → Option B
none >>= f = none
some a >>= f = f a

-- A text behind its 16-bit length.
unfoldable pub counted_text : Bytes → Option (Bytes × Bytes)
unfolding advance
counted_text p = do (len, p) ← advance 2 p; advance (field 2 len) p

unfoldable pub decode_tail : Bytes → Option LogSiteInfo
unfolding counted_text
decode_tail p = do
  (file, p) ← counted_text p
  (line, p) ← advance 4 p
  (func, p) ← counted_text p
  (fmt, p) ← counted_text p
  some (record { file = file; func = func; fmt = fmt; line = field 4 line })

-- Each length fits its 16 bits, and the line its 32.
pub record Fits (s : LogSiteInfo) : Type 0 where
  pub file_fits : length s.file < 2 ^ 16
  pub func_fits : length s.func < 2 ^ 16
  pub fmt_fits : length s.fmt < 2 ^ 16
  pub line_fits : s.line < 2 ^ 32

advance-append :
    (n : ℕ) (xs rest : Bytes) → length xs ≡ n → advance n (xs ++ rest) ≡ some (xs, rest)
unfolding advance
advance-append n xs rest e =
    ground (arith, length-append xs rest, take-length n xs rest e, drop-length n xs rest e)

field_whole : (w v : ℕ) → v < 256 ^ w → field w (le w v) ≡ v
field_whole w v h = ap (field w) (sym (append-nil (le w v))) ∙ field-le w v [] h

counted_text-append :
    (s rest : Bytes)
    → length s < 2 ^ 16
    → counted_text (le 2 (length s) ++ (s ++ rest)) ≡ some (s, rest)
unfolding counted_text
counted_text-append s rest h =
    rw (advance-append 2 (le 2 (length s)) (s ++ rest) (length-le 2 (length s)))
      (rw (field_whole 2 (length s) h) (advance-append (length s) s rest refl))

module _ (s : LogSiteInfo) (f : Fits s) where
  -- A tail is decoded to the site that it encodes, whatever bytes follow it.
  decode-layout :
      (rest : Bytes)
      → decode_tail (
          le 2 (length s.file)
          ++ (s.file
              ++ (le 4 s.line
                  ++ (le 2 (length s.func)
                      ++ (s.func ++ (le 2 (length s.fmt) ++ (s.fmt ++ rest)))))))
        ≡ some s
  unfolding decode_tail
  decode-layout rest = rw (counted_text-append s.file _ f.file_fits) (
      rw (advance-append 4 (le 4 s.line) _ (length-le 4 s.line)) (
        rw (counted_text-append s.func _ f.func_fits) (
          rw (counted_text-append s.fmt _ f.fmt_fits) (
            ap (λ v. some (record { file = s.file; func = s.func; fmt = s.fmt; line = v }))
              (field_whole 4 s.line f.line_fits)))))

  decode-layout_append : (rest : Bytes) → decode_tail (layout s ++ rest) ≡ some s
  unfolding layout
  decode-layout_append rest = simp append_assoc (decode-layout rest)

  -- For a call site whose lengths and line fit their widths, what the encoder writes, the
  -- decoder reads back, whatever bytes follow.
  pub decode-encode :
      (capacity : ℕ) (t rest : Bytes)
      → encode_tail s capacity ≡ some t
      → decode_tail (t ++ rest) ≡ some s
  unfolding encode_tail
  decode-encode capacity t rest e =
      let written : layout s ≡ t = ground arith in
      ap (λ bs. decode_tail (bs ++ rest)) (sym written) ∙ decode-layout_append rest

length-layout : (s : LogSiteInfo) → length (layout s) ≡ tail_size s
unfolding layout tail_size
length-layout s = simp (length-append, length-le) (omega arith)

-- The encoder fails exactly when the buffer is too small, and otherwise writes `cbNeed` bytes.
pub length-encode :
    (s : LogSiteInfo) (capacity : ℕ)
    → ((capacity < tail_size s) × (encode_tail s capacity ≡ none))
      ⊎ ((tail_size s ≤ capacity)
          × ((t : Bytes) × (encode_tail s capacity ≡ some t) × (length t ≡ tail_size s)))
unfolding encode_tail
length-encode s capacity = elim (dec_lt capacity (tail_size s)) [
  | yes p ↦ inl (p, ground arith)
  | no p ↦ inr (omega arith, (layout s, ground arith, length-layout s))
]

some_eq : {A : Type 0} {a b : A} → some a ≡ some b → a ≡ b
some_eq e = cc

>>=-eq-some :
    {A B : Type 0} (m : Option A) (f : A → Option B) {b : B}
    → (m >>= f) ≡ some b
    → (a : A) × (m ≡ some a) × (f a ≡ some b)
>>=-eq-some none f e = cc
>>=-eq-some (some a) f e = (a, refl, e)

record Split (n : ℕ) (p a q : Bytes) : Type 0 where
  whole : p ≡ a ++ q
  size : length a ≡ n
  front : AllBytes a
  back : AllBytes q

advance-Split : (n : ℕ) (p a q : Bytes) → AllBytes p → advance n p ≡ some (a, q) → Split n p a q
unfolding advance
advance-Split n p a q h e =
    let front : take n p ≡ a = ground arith in
    let back : drop n p ≡ q = ground arith in
    let room : n ≤ length p = ground arith in
    record {
      whole = sym (take-append-drop n p) ∙ ap₂ ◌++◌ front back;
      size = ap length (sym front) ∙ length-take n p ∙ omega arith;
      front = subst AllBytes front (take-AllBytes n p h);
      back = subst AllBytes back (drop-AllBytes n p h);
    }

-- An integer that was read lies at the start of the input.
integer_prefix : (w : ℕ) {p a q : Bytes} → Split w p a q → p ≡ le w (field w a) ++ q
integer_prefix w {a} {q} s = s.whole ∙ ap (λ xs. xs ++ q) (sym (le-field w a s.front s.size))

field-lt_whole : (w : ℕ) {p a q : Bytes} → Split w p a q → field w a < 256 ^ w
field-lt_whole w {a} s = field-lt w a s.front

-- A text that was read lies at the start of the input, behind its length.
record Read (p s rest : Bytes) : Type 0 where
  whole : p ≡ le 2 (length s) ++ (s ++ rest)
  fits : length s < 2 ^ 16
  back : AllBytes rest

counted_text-Read :
    (p s rest : Bytes) → AllBytes p → counted_text p ≡ some (s, rest) → Read p s rest
unfolding counted_text
counted_text-Read p s rest h e =
    let ((a, q), e1, e2) =
      >>=-eq-some (advance 2 p) (λ (r : Bytes × Bytes). advance (field 2 r.0) r.1) e in
    let first = advance-Split 2 p a q h e1 in
    let second = advance-Split (field 2 a) q s rest first.back e2 in
    record {
      whole = integer_prefix 2 first ∙ ap₂ (λ n xs. le 2 n ++ xs) (sym second.size) second.whole;
      fits = omega (arith, second.size, field-lt_whole 2 first);
      back = second.back;
    }

-- The four pieces put together.
module _ {p p1 p2 p3 : Bytes} (p4 : Bytes) (s : LogSiteInfo) where
  assemble :
      p ≡ le 2 (length s.file) ++ (s.file ++ p1)
      → p1 ≡ le 4 s.line ++ p2
      → p2 ≡ le 2 (length s.func) ++ (s.func ++ p3)
      → p3 ≡ le 2 (length s.fmt) ++ (s.fmt ++ p4)
      → p ≡ layout s ++ p4
  unfolding layout
  assemble e1 e2 e3 e4 = simp append_assoc (e1 ∙ rw (e2, e3, e4))

  found :
      {line : Bytes}
      → Read p s.file p1
      → Split 4 p1 line p2
      → Read p2 s.func p3
      → Read p3 s.fmt p4
      → field 4 line ≡ s.line
      → Fits s × ((rest : Bytes) × (p ≡ layout s ++ rest))
  found r1 r2 r3 r4 e = (
    record {
      file_fits = r1.fits;
      func_fits = r3.fits;
      fmt_fits = r4.fits;
      line_fits = omega (arith, field-lt_whole 4 r2);
    },
    (p4, assemble r1.whole (integer_prefix 4 r2 ∙ ap (λ v. le 4 v ++ p2) e) r3.whole r4.whole),
  )

read_site : Bytes → Bytes → Bytes → Bytes → LogSiteInfo
read_site file line func fmt = record { file = file; func = func; fmt = fmt; line = field 4 line }

decode_steps :
    (p : Bytes) (s : LogSiteInfo)
    → decode_tail p ≡ some s
    → (file p1 line p2 func p3 fmt p4 : Bytes) × (counted_text p ≡ some (file, p1))
      × (advance 4 p1 ≡ some (line, p2))
      × (counted_text p2 ≡ some (func, p3))
      × (counted_text p3 ≡ some (fmt, p4))
      × (read_site file line func fmt ≡ s)
unfolding decode_tail read_site
decode_steps p s e =
    let ((file, p1), e1, k1) = >>=-eq-some (counted_text p) _ e in
    let ((line, p2), e2, k2) = >>=-eq-some (advance 4 p1) _ k1 in
    let ((func, p3), e3, k3) = >>=-eq-some (counted_text p2) _ k2 in
    let ((fmt, p4), e4, k4) = >>=-eq-some (counted_text p3) _ k3 in
    (file, p1, line, p2, func, p3, fmt, p4, e1, e2, e3, e4, some_eq k4)

-- For any bytes, what the decoder accepts is the encoding of the call site that it returns, up
-- to bytes that follow it, and the lengths and the line of that site fit their widths.
pub decode_tail_sound :
    (p : Bytes) (s : LogSiteInfo)
    → AllBytes p
    → decode_tail p ≡ some s
    → Fits s × ((rest : Bytes) × (p ≡ layout s ++ rest))
unfolding read_site
decode_tail_sound p s h e =
    let (file, p1, line, p2, func, p3, fmt, p4, e1, e2, e3, e4, same) = decode_steps p s e in
    let r1 = counted_text-Read p file p1 h e1 in
    let r2 = advance-Split 4 p1 line p2 r1.back e2 in
    let r3 = counted_text-Read p2 func p3 r2.back e3 in
    let r4 = counted_text-Read p3 fmt p4 r3.back e4 in
    subst (λ t. Fits t × ((rest : Bytes) × (p ≡ layout t ++ rest))) same
      (found p4 (read_site file line func fmt) r1 r2 r3 r4 refl)
