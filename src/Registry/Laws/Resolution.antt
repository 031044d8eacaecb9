-- ===== src/Registry/Laws/Resolution.antt =====
-- The fixed point that the passes over the schemas reach (libs/libkv8/src/Kv8Consumer.cpp).
use mathlib.Core.List.{Memᴰ}
use mathlib.Core.List.Memᴰ.{append_cases, cases_cons, append_left, append_right, not-nil}
use kv8_metrics.Prelude.{
  ltb, ℕ, zero, suc, ◌+◌, ◌<◌, ◌≤◌, ◌≡◌, ◌⊎◌, inl, inr, refl, sym, ap, subst, ◌∙◌, Bool, true,
  false, not, ◌&&◌, Option, some, List, [], ◌∷◌, ◌++◌, append_assoc, append-nil, length,
  length-append, Bool-cases, ◌==◌, if◌then◌else◌, arith,
}
use kv8_metrics.Prelude.Bytes.{Bytes}
use kv8_metrics.Prelude.Assoc.{find, find-assign, bytes_eq, nat_eq}
use kv8_metrics.Udt.Outcome.{Outcome, done, failed, out_of_fuel, is_done}
use kv8_metrics.Udt.Types.{ResolvedSchema}
use kv8_metrics.Udt.Schema.{parse_udt_schema}
use kv8_metrics.Registry.Laws.KeyOrder.{length-in_key_order, Memᴰ-in_key_order}
use kv8_metrics.Registry.Resolve.{
  Resolution, settle, none_left, resolve_pass, resolve_loop, resolve_schemas, c_str,
}

==_refl : (a b : ℕ) → a ≡ b → (a == b) ≡ true
==_refl a b e = ground arith

List-cases : {A : Type 0} (xs : List A) → (xs ≡ []) ⊎ ((y : A) × (ys : List A) × (xs ≡ y ∷ ys))
List-cases [] = inl refl
List-cases (y ∷ ys) = inr (y, ys, refl)

-- There is a schema for this hash.
abbrev pub Resolved : ℕ → Resolution → Type 0
Resolved h st = (r : ResolvedSchema) × (find h st.hash_to_resolved ≡ some r)

Resolved-settle :
    (h : ℕ) (p : ℕ × Bytes) (o : Outcome ResolvedSchema) (st : Resolution)
    → Resolved h st
    → Resolved h (settle p o st)
unfolding settle
Resolved-settle h p (failed e) st found = found
Resolved-settle h p out_of_fuel st found = found
Resolved-settle h (k, json) (done r) st (s, e) = elim (Bool-cases (k == h)) [
  | inl same ↦ (
    record r { hash = k },
    find-assign k h (record r { hash = k }) st.hash_to_resolved ∙ rw same refl,
  )
  | inr other ↦ (s, find-assign k h (record r { hash = k }) st.hash_to_resolved ∙ rw other e)
]

settle-accounts :
    (p q : ℕ × Bytes) (ps : List (ℕ × Bytes)) (o : Outcome ResolvedSchema) (st : Resolution)
    → Memᴰ p (st.remaining ++ q ∷ ps)
    → Resolved p.0 (settle q o st) ⊎ Memᴰ p ((settle q o st).remaining ++ ps)
unfolding settle
settle-accounts p q ps (failed e) st m =
    inr (subst (Memᴰ p) (sym (append_assoc st.remaining (q ∷ []) ps)) m)
settle-accounts p q ps out_of_fuel st m =
    inr (subst (Memᴰ p) (sym (append_assoc st.remaining (q ∷ []) ps)) m)
settle-accounts p (k, json) ps (done r) st m = elim (append_cases st.remaining m) [
  | inl before ↦ inr (append_left ps before)
  | inr behind ↦ elim (cases_cons behind) [
    | inl same ↦ inl (
      record r { hash = k },
      find-assign k p.0 (record r { hash = k }) st.hash_to_resolved
          ∙ rw (==_refl k p.0 (sym (ap (λ q. q.0) same))) refl,
    )
    | inr later ↦ inr (append_right st.remaining later)
  ]
]

module _ (strtod : Bytes → Option (ℕ × Bytes)) where
  -- The parse with the schemas known so far gives no schema.
  abbrev pub Stuck : List (Bytes × ResolvedSchema) → ℕ × Bytes → Type 0
  Stuck known p = is_done (parse_udt_schema strtod known (c_str p.1)) ≡ false

  pass-Resolved :
      (h : ℕ) (ps : List (ℕ × Bytes)) (st : Resolution)
      → Resolved h st
      → Resolved h (resolve_pass strtod ps st)
  unfolding resolve_pass
  pass-Resolved h [] st r = r
  pass-Resolved h (q ∷ ps) st r =
      pass-Resolved h ps _
        (Resolved-settle h q (parse_udt_schema strtod st.known_schemas (c_str q.1)) st r)

  -- A pending schema is resolved by a pass or stays pending.
  pass-accounts :
      (p : ℕ × Bytes) (ps : List (ℕ × Bytes)) (st : Resolution)
      → Memᴰ p (st.remaining ++ ps)
      → Resolved p.0 (resolve_pass strtod ps st) ⊎ Memᴰ p (resolve_pass strtod ps st).remaining
  unfolding resolve_pass
  pass-accounts p [] st m = inr (subst (Memᴰ p) (append-nil st.remaining) m)
  pass-accounts p (q ∷ ps) st m =
      let o = parse_udt_schema strtod st.known_schemas (c_str q.1) in
      elim (settle-accounts p q ps o st m) [
        | inl r ↦ inl (pass-Resolved p.0 ps (settle q o st) r)
        | inr kept ↦ pass-accounts p ps (settle q o st) kept
      ]

  -- A pass that resolves nothing leaves everything as it was, and stuck.
  record Idle (ps : List (ℕ × Bytes)) (st after : Resolution) : Type 0 where
    same_known : after.known_schemas ≡ st.known_schemas
    idle_before : st.progress ≡ false
    all_stuck : (p : ℕ × Bytes) → Memᴰ p ps → Stuck st.known_schemas p

  settle-kept :
      (q : ℕ × Bytes) (o : Outcome ResolvedSchema) (st : Resolution)
      → (settle q o st).progress ≡ false
      → ((settle q o st).known_schemas ≡ st.known_schemas)
        × (st.progress ≡ false)
        × (is_done o ≡ false)
  unfolding settle is_done
  settle-kept q (failed e) st idle = (refl, idle, refl)
  settle-kept q out_of_fuel st idle = (refl, idle, refl)
  settle-kept q (done r) st idle = cc

  pass-Idle :
      (ps : List (ℕ × Bytes)) (st : Resolution)
      → (resolve_pass strtod ps st).progress ≡ false
      → Idle ps st (resolve_pass strtod ps st)
  unfolding resolve_pass
  pass-Idle [] st idle = record {
    same_known = refl;
    idle_before = idle;
    all_stuck = λ p m. absurd (not-nil m);
  }
  pass-Idle (q ∷ ps) st idle =
      let o = parse_udt_schema strtod st.known_schemas (c_str q.1) in
      let later = pass-Idle ps (settle q o st) idle in
      let (known, before, stuck) = settle-kept q o st later.idle_before in
      record {
        same_known = later.same_known ∙ known;
        idle_before = before;
        all_stuck = λ p m. elim (cases_cons m) [
          | inl same ↦ rw same stuck
          | inr behind ↦ subst (λ k. Stuck k p) known (later.all_stuck p behind)
        ];
      }

  settle-count :
      (q : ℕ × Bytes) (o : Outcome ResolvedSchema) (st : Resolution)
      → (length (settle q o st).remaining ≤ length st.remaining + 1)
        × ((settle q o st).progress ≡ true
            → (st.progress ≡ true) ⊎ (length (settle q o st).remaining ≤ length st.remaining))
  unfolding settle
  settle-count q (failed e) st = (omega (arith, length-append st.remaining (q ∷ [])), inl)
  settle-count q out_of_fuel st = (omega (arith, length-append st.remaining (q ∷ [])), inl)
  settle-count q (done r) st = (omega arith, λ e. inr (omega arith))

  -- A pass that makes progress leaves fewer schemas pending.
  pass-count :
      (ps : List (ℕ × Bytes)) (st : Resolution)
      → (length (resolve_pass strtod ps st).remaining ≤ length st.remaining + length ps)
        × ((resolve_pass strtod ps st).progress ≡ true
            → (st.progress ≡ true)
              ⊎ (length (resolve_pass strtod ps st).remaining < length st.remaining + length ps))
  unfolding resolve_pass
  pass-count [] st = (omega arith, inl)
  pass-count (q ∷ ps) st =
      let o = parse_udt_schema strtod st.known_schemas (c_str q.1) in
      let (all, some_resolved) = pass-count ps (settle q o st) in
      let (one, settled) = settle-count q o st in
      (
        omega (arith, all, one),
        λ e. elim (some_resolved e) [
          | inl went ↦ elim (settled went) [
            | inl before ↦ inl before
            | inr fewer ↦ inr (omega (arith, all, fewer))
          ]
          | inr fewer ↦ inr (omega (arith, fewer, one))
        ],
      )

  goes_on : Resolution → Bool
  goes_on st = st.progress && not (none_left st.remaining)

  loop-stop : (fuel : ℕ) (st : Resolution) → goes_on st ≡ false → resolve_loop strtod fuel st ≡ st
  unfolding resolve_loop goes_on
  loop-stop zero st e = refl
  loop-stop (suc fuel) st e =
      ap
        (λ b.
          if b
          then resolve_loop strtod fuel
              (resolve_pass strtod st.remaining (record st { remaining = []; progress = false }))
          else st)
        e

  goes_on-idle : (st : Resolution) → st.progress ≡ false → goes_on st ≡ false
  unfolding goes_on
  goes_on-idle st e = ground arith

  goes_on-empty : (st : Resolution) → st.remaining ≡ [] → goes_on st ≡ false
  unfolding goes_on
  goes_on-empty st e = ground arith

  -- What one round starts its pass with.
  abbrev reset : Resolution → Resolution
  reset st = record st { remaining = []; progress = false }

  loop-next :
      (fuel : ℕ) (st : Resolution)
      → goes_on st ≡ true
      → resolve_loop strtod (suc fuel) st
        ≡ resolve_loop strtod fuel (resolve_pass strtod st.remaining (reset st))
  unfolding resolve_loop goes_on
  loop-next fuel st e =
      ap
        (λ b.
          if b
          then resolve_loop strtod fuel
              (resolve_pass strtod st.remaining (record st { remaining = []; progress = false }))
          else st)
        e

  -- Resolved, or still pending and stuck for good.
  abbrev pub Ended : ℕ × Bytes → Resolution → Type 0
  Ended p st = Resolved p.0 st ⊎ (Memᴰ p st.remaining × Stuck st.known_schemas p)

  pass-Ended :
      (p : ℕ × Bytes) (st : Resolution)
      → Resolved p.0 st ⊎ Memᴰ p st.remaining
      → (resolve_pass strtod st.remaining (reset st)).progress ≡ false
      → Ended p (resolve_pass strtod st.remaining (reset st))
  pass-Ended p st (inl r) idle = inl (pass-Resolved p.0 st.remaining (reset st) r)
  pass-Ended p st (inr m) idle =
      let q = pass-Idle st.remaining (reset st) idle in
      elim (pass-accounts p st.remaining (reset st) m) [
        | inl r ↦ inl r
        | inr kept ↦ inr (kept, subst (λ k. Stuck k p) (sym q.same_known) (q.all_stuck p m))
      ]

  pass-kept :
      (p : ℕ × Bytes) (st : Resolution)
      → Resolved p.0 st ⊎ Memᴰ p st.remaining
      → let after = resolve_pass strtod st.remaining (reset st) in
        Resolved p.0 after ⊎ Memᴰ p after.remaining
  pass-kept p st (inl r) = inl (pass-Resolved p.0 st.remaining (reset st) r)
  pass-kept p st (inr m) = pass-accounts p st.remaining (reset st) m

  shorter :
      {fuel : ℕ} (st : Resolution)
      → (resolve_pass strtod st.remaining (reset st)).progress ≡ true
      → length st.remaining < suc fuel
      → length (resolve_pass strtod st.remaining (reset st)).remaining < fuel
  shorter st on h = elim ((pass-count st.remaining (reset st)).1 on) [
    | inl e ↦ cc
    | inr fewer ↦ omega (arith, fewer)
  ]

  stop-Ended :
      (p : ℕ × Bytes) (st : Resolution)
      → Resolved p.0 st ⊎ Memᴰ p st.remaining
      → st.progress ≡ true
      → goes_on st ≡ false
      → Ended p st
  unfolding goes_on
  stop-Ended p st (inl r) going stop = inl r
  stop-Ended p st (inr m) going stop = absurd (
      not-nil (
        subst (Memᴰ p)
          (elim (List-cases st.remaining) [ inl e ↦ e | inr (q, qs, e) ↦ ground arith ]) m))

  -- The loop ends by its own test.
  loop-Ended :
      (p : ℕ × Bytes) (fuel : ℕ) (st : Resolution)
      → length st.remaining < fuel
      → st.progress ≡ true
      → Resolved p.0 st ⊎ Memᴰ p st.remaining
      → Ended p (resolve_loop strtod fuel st)
  loop-Ended p zero st h going pending = absurd (omega arith)
  loop-Ended p (suc fuel) st h going pending =
      let after = resolve_pass strtod st.remaining (reset st) in
      elim (Bool-cases (goes_on st)) [
        | inr stop ↦
            subst (Ended p) (sym (loop-stop (suc fuel) st stop))
              (stop-Ended p st pending going stop)
        | inl go ↦ subst (Ended p) (sym (loop-next fuel st go)) (elim (Bool-cases after.progress) [
          | inr off ↦
              subst (Ended p) (sym (loop-stop fuel after (goes_on-idle after off)))
                (pass-Ended p st pending off)
          | inl on ↦ loop-Ended p fuel after (shorter st on h) on (pass-kept p st pending)
        ])
      ]

  -- For any schemas in the cache, in any order, and any references between them: a schema of the cache
  -- ends up resolved, or it is still pending when the loop ends and the parse of its text up to a zero
  -- byte, with every schema that was resolved, fails.
  pub resolve_schemas-Ended :
      (cache : List (ℕ × Bytes)) (p : ℕ × Bytes)
      → Memᴰ p cache
      → Ended p (resolve_schemas strtod cache)
  unfolding resolve_schemas
  resolve_schemas-Ended cache p m =
      loop-Ended p (suc (length cache)) _ (omega (arith, length-in_key_order ltb cache)) refl
        (inr (Memᴰ-in_key_order ltb p cache m))
