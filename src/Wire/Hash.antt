-- ===== src/Wire/Hash.antt =====
-- FNV-32: `Kv8FNV32` and `Kv8LogSiteHash` of libs/libkv8/include/kv8/Kv8Types.h, and `Fnv32` of
-- libs/kv8log/lib/kv8log_impl.cpp.
use Prim.Native.Nat.{bit_xor}
use native.Mathlib.Nat.{mod-lt}
use kv8_metrics.Prelude.{
  ℕ, ◌*◌, ◌%◌, ◌^◌, ◌<◌, ◌≡◌, ◌≢◌, refl, sym, ap, ◌∙◌, [], ◌∷◌, ◌++◌, ◌==◌, if◌then◌else◌, arith,
}
use kv8_metrics.Prelude.Bytes.{Bytes}
use kv8_metrics.Prelude.Decimal.{decimal}

-- `h ^= c; h *= 16777619u`
unfoldable pub fnv_byte : ℕ → ℕ → ℕ
fnv_byte h c = bit_xor h c * 16777619 % 2 ^ 32

unfoldable pub fnv_from : ℕ → Bytes → ℕ
unfolding fnv_byte
fnv_from h [] = h
fnv_from h (c ∷ cs) = fnv_from (fnv_byte h c) cs

abbrev pub fnv_offset : ℕ
fnv_offset = 2166136261

unfoldable pub fnv32 : Bytes → ℕ
unfolding fnv_from
fnv32 s = fnv_from fnv_offset s

-- The lengths are those of the byte lists; a null pointer hashes as the empty text.
unfoldable pub log_site_hash : Bytes → ℕ → Bytes → ℕ
unfolding fnv_from
log_site_hash file line func =
    let h1 = fnv_byte (fnv_from fnv_offset file) 0 in
    let h2 = fnv_byte (fnv_from h1 (decimal line)) 0 in
    let h = fnv_from h2 func in if h == 0 then 1 else h

pub fnv_from-append : (h : ℕ) (xs ys : Bytes) → fnv_from h (xs ++ ys) ≡ fnv_from (fnv_from h xs) ys
unfolding fnv_from
fnv_from-append h [] ys = refl
fnv_from-append h (x ∷ xs) ys = fnv_from-append (fnv_byte h x) xs ys

pub fnv_from-lt : (h : ℕ) (xs : Bytes) → h < 2 ^ 32 → fnv_from h xs < 2 ^ 32
unfolding fnv_from
fnv_from-lt h [] lt = lt
fnv_from-lt h (x ∷ xs) lt =
    fnv_from-lt (fnv_byte h x) xs (mod-lt (bit_xor h x * 16777619) {m = 2 ^ 32} (omega arith))

-- The text that identifies a call site: basename, NUL, decimal line, NUL, function.
abbrev pub site_text : Bytes → ℕ → Bytes → Bytes
site_text file line func = file ++ 0 ∷ (decimal line ++ 0 ∷ func)

-- The sum over the parts is the sum over the text.
site_text_hash :
    (file : Bytes) (line : ℕ) (func : Bytes)
    → fnv32 (site_text file line func)
      ≡ fnv_from (fnv_byte (fnv_from (fnv_byte (fnv_from fnv_offset file) 0) (decimal line)) 0) func
unfolding fnv32
site_text_hash file line func =
    fnv_from-append fnv_offset file (0 ∷ (decimal line ++ 0 ∷ func))
    ∙ fnv_from-append (fnv_byte (fnv_from fnv_offset file) 0) (decimal line) (0 ∷ func)

pub fnv32-lt : (s : Bytes) → fnv32 s < 2 ^ 32
unfolding fnv32
fnv32-lt s = fnv_from-lt fnv_offset s (omega arith)

abbrev nonzero : ℕ → ℕ
nonzero h = if h == 0 then 1 else h

nonzero_bounds : (h : ℕ) → h < 2 ^ 32 → (nonzero h ≢ 0) × (nonzero h < 2 ^ 32)
nonzero_bounds h lt = ground arith

log_site_hash-text :
    (file : Bytes) (line : ℕ) (func : Bytes)
    → log_site_hash file line func ≡ nonzero (fnv32 (site_text file line func))
unfolding log_site_hash
log_site_hash-text file line func = ap nonzero (sym (site_text_hash file line func))

-- The site hash is the FNV-32 value of the site's text, except that 0 becomes 1; so it is a nonzero
-- 32-bit number.
pub log_site_hash_lem :
    (file : Bytes) (line : ℕ) (func : Bytes)
    → (log_site_hash file line func
        ≡ (if fnv32 (site_text file line func) == 0 then 1 else fnv32 (site_text file line func)))
      × (log_site_hash file line func ≢ 0)
      × (log_site_hash file line func < 2 ^ 32)
log_site_hash_lem file line func =
    let e = log_site_hash-text file line func in
    let b =
      nonzero_bounds (fnv32 (site_text file line func)) (fnv32-lt (site_text file line func)) in
    (e, (λ z. b.0 (sym e ∙ z)), omega (arith, e, b.1))
