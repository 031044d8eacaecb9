-- ===== src/Zoom/Sparse.antt =====
-- How many frames a drain of kv8zoom/ZoomBridge.cpp passes on.
use kv8_metrics.Prelude.{
  ℕ, ◌+◌, ◌≤◌, ◌≡◌, refl, sym, ap, subst, ◌∙◌, Bool, true, false, List, [], ◌∷◌, ◌++◌, append_assoc,
  append-nil, ltb, if◌then◌else◌, arith,
}
use kv8_metrics.Prelude.Int.{ℤ, int_lt}
use kv8_metrics.Zoom.Decimation.{
  Controller, NavState, Floats, interval_us, too_near, should_emit_nav,
}
use kv8_metrics.Zoom.Frames.{Frame, NavPayload}
use kv8_metrics.Zoom.Bridge.{
  Broadcast, FilterOps, Bridge, broadcast, note_ts, emit, nav_frame, drain_nav,
}
use kv8_metrics.Zoom.Silence.{frames, frames-append}

-- One frame at most is due: none is within the interval after the last.
abbrev due : ℕ → Controller → ℕ
due now c = if ltb now (c.nav.last_emit + interval_us c) then 0 else 1

abbrev one_if : Bool → ℕ
one_if e = if e then 1 else 0

holds-if :
    {A : Type 0} (P : A → Type 0) (t : Bool) (x y : A)
    → (t ≡ true → P x)
    → (t ≡ false → P y)
    → P (if t then x else y)
holds-if P true x y h k = h refl
holds-if P false x y h k = k refl

nat_refl : (n : ℕ) → 0 + n ≤ n
nat_refl n = omega arith

same_either :
    {A B : Type 0} (f : A → B) (t : Bool) (x y : A) → f x ≡ f y → f (if t then x else y) ≡ f y
same_either f true x y e = e
same_either f false x y e = refl

interval_us-nav :
    (n : NavState) (c : Controller) → interval_us (record c { nav = n }) ≡ interval_us c
unfolding interval_us
interval_us-nav n c = refl

-- An answer of the controller: the interval stays, and what is passed on was due and is not any more.
abbrev Answered : ℕ → Controller → Controller × Bool → Type 0
Answered now c a = (interval_us a.0 ≡ interval_us c) × (one_if a.1 + due now a.0 ≤ due now c)

not_due : (now : ℕ) (c : Controller) → c.nav.last_emit ≡ now → 1 ≤ interval_us c → due now c ≡ 0
not_due now c e h = rw e (ground (arith, h))

due_now :
    (now : ℕ) (c : Controller) → ltb now (c.nav.last_emit + interval_us c) ≡ false → due now c ≡ 1
due_now now c e = rw e refl

closed :
    (now : ℕ) (n : NavState) (c : Controller)
    → n.last_emit ≡ now
    → 1 ≤ interval_us c
    → due now (record c { nav = n }) ≡ 0
closed now n c e h =
    not_due now (record c { nav = n }) e (subst (λ i. 1 ≤ i) (sym (interval_us-nav n c)) h)

due-should_emit_nav :
    (fl : Floats) (lat lon now : ℕ) (c : Controller)
    → 1 ≤ interval_us c
    → Answered now c (should_emit_nav fl lat lon now c)
unfolding should_emit_nav
due-should_emit_nav fl lat lon now c h =
    let near = record c.nav { last_emit = now } in
    let sent : NavState = record {
      last_emit = now;
      last_lat = lat;
      last_lon = lon;
      has_ref = true;
    } in
    holds-if (Answered now c) (ltb now (c.nav.last_emit + interval_us c)) (c, false) _
      (λ e. (refl, nat_refl _))
      (λ e.
        holds-if (Answered now c) (too_near fl lat lon c) (record c { nav = near }, false) _
          (λ k. (interval_us-nav near c, omega (arith, closed now near c refl h)))
          (λ k. (interval_us-nav sent c, omega (arith, closed now sent c refl h, due_now now c e))))

-- The frames that are passed on, with what is due before and after.
record Passes {F : Type 0} (now : ℕ) (b b' : Bridge F) : Type 0 where
  pushed : List Broadcast
  queued : b'.sent ≡ b.sent ++ pushed
  few : frames pushed + due now b'.decim ≤ due now b.decim
  same_interval : interval_us b'.decim ≡ interval_us b.decim

module _ {F : Type 0} (fl : Floats) (ops : FilterOps F) (now : ℕ) where
  Passes-none :
      {b b' : Bridge F}
      → b'.sent ≡ b.sent
      → due now b'.decim ≤ due now b.decim
      → interval_us b'.decim ≡ interval_us b.decim
      → Passes now b b'
  Passes-none {b} s d i = record {
    pushed = [];
    queued = s ∙ sym (append-nil b.sent);
    few = omega (arith, d);
    same_interval = i;
  }

  Passes-trans : {a b c : Bridge F} → Passes now a b → Passes now b c → Passes now a c
  Passes-trans {a} q r = record {
    pushed = q.pushed ++ r.pushed;
    queued = r.queued ∙ ap (λ s. s ++ r.pushed) q.queued ∙ append_assoc a.sent q.pushed r.pushed;
    few = omega (arith, frames-append q.pushed r.pushed, q.few, r.few);
    same_interval = r.same_interval ∙ q.same_interval;
  }

  -- A frame that the controller has answered for; `seen` is the bridge in which it has been noted.
  answered-Passes :
      (ts : ℤ) (c : Controller) (e : Bool) (b seen : Bridge F)
      → seen.sent ≡ b.sent
      → interval_us c ≡ interval_us b.decim
      → one_if e + due now c ≤ due now b.decim
      → let decided = record seen { decim = c } in
        Passes now b (
          if e
          then broadcast fl ops (Broadcast.nav seen.assembler) (record decided { ts_emit = ts })
          else decided)
  unfolding broadcast
  answered-Passes ts c true b seen s i d = record {
    pushed = Broadcast.nav seen.assembler ∷ [];
    queued = ap (λ l. l ++ Broadcast.nav seen.assembler ∷ []) s;
    few = d;
    same_interval = i;
  }
  answered-Passes ts c false b seen s i d = Passes-none s (omega (arith, d)) i

  emitted-Passes :
      (ts : ℤ) (a : Controller × Bool) (b seen : Bridge F)
      → seen.sent ≡ b.sent
      → seen.decim ≡ b.decim
      → interval_us a.0 ≡ interval_us b.decim
      → one_if a.1 + due now a.0 ≤ due now b.decim
      → Passes now b (
          emit fl ops a
            (λ d. broadcast fl ops (Broadcast.nav d.assembler) (record d { ts_emit = ts }))
            seen)
  unfolding emit
  emitted-Passes ts a b seen s d i few =
      holds-if (Passes now b) seen.paused seen _
        (λ e. Passes-none s (omega (arith, ap (due now) d)) (ap interval_us d))
        (λ e. answered-Passes ts a.0 a.1 b seen s i few)

  note_ts-sent : (ts : ℤ) (b : Bridge F) → (note_ts fl ops ts b).sent ≡ b.sent
  unfolding note_ts
  note_ts-sent ts b = same_either (λ x. x.sent) (int_lt (ℤ.pos 0) ts) _ b refl

  note_ts-decim : (ts : ℤ) (b : Bridge F) → (note_ts fl ops ts b).decim ≡ b.decim
  unfolding note_ts
  note_ts-decim ts b = same_either (λ x. x.decim) (int_lt (ℤ.pos 0) ts) _ b refl

  nav_frame-Passes :
      (pop : Frame NavPayload × ℕ) (b : Bridge F)
      → 1 ≤ interval_us b.decim
      → Passes now b (nav_frame fl ops now pop b)
  unfolding nav_frame
  nav_frame-Passes (f, clock) b h =
      let facts = due-should_emit_nav fl f.payload.lat_deg f.payload.lon_deg now b.decim h in
      emitted-Passes f.ts_us (should_emit_nav fl f.payload.lat_deg f.payload.lon_deg now b.decim) b
        _ (note_ts-sent f.ts_us _) (note_ts-decim f.ts_us _) facts.0 facts.1

  drain_nav-Passes :
      (pops : List (Frame NavPayload × ℕ)) (b : Bridge F)
      → 1 ≤ interval_us b.decim
      → Passes now b (drain_nav fl ops now pops b)
  unfolding drain_nav
  drain_nav-Passes [] b h = Passes-none refl (omega arith) refl
  drain_nav-Passes (pop ∷ pops) b h =
      let q = nav_frame-Passes pop b h in
      Passes-trans q (drain_nav-Passes pops _ (subst (λ i. 1 ≤ i) (sym q.same_interval) h))

  -- However many frames of the navigation wait in the ring, a drain passes one on at most, where the
  -- interval of the zoom is not 0.
  pub length-drain_nav :
      (pops : List (Frame NavPayload × ℕ)) (b : Bridge F)
      → 1 ≤ interval_us b.decim
      → (pushed : List Broadcast) × ((drain_nav fl ops now pops b).sent ≡ b.sent ++ pushed)
        × (frames pushed ≤ 1)
  length-drain_nav pops b h =
      let q = drain_nav-Passes pops b h in (q.pushed, q.queued, ground (arith, q.few))
