-- ===== src/Zoom/Silence.antt =====
-- Steps of kv8zoom/ZoomBridge.cpp that pass no frame on.
use kv8_metrics.Prelude.{
  ℕ, suc, ◌+◌, ◌≡◌, refl, sym, ap, subst, ◌∙◌, Bool, true, false, Option, none, some, List, [], ◌∷◌,
  ◌++◌, append_assoc, append-nil, if◌then◌else◌, arith,
}
use kv8_metrics.Zoom.Decimation.{Controller, Floats}
use kv8_metrics.Zoom.Bridge.{Broadcast, FilterOps, Bridge, emit}

-- Frames of a feed that are passed on.
abbrev pub frames : List Broadcast → ℕ
frames [] = 0
frames (Broadcast.nav f ∷ bs) = suc (frames bs)
frames (Broadcast.att f ∷ bs) = suc (frames bs)
frames (Broadcast.mot f ∷ bs) = suc (frames bs)
frames (Broadcast.wx f ∷ bs) = suc (frames bs)
frames (Broadcast.snapshot f ∷ bs) = frames bs
frames (Broadcast.trail pts ∷ bs) = frames bs
frames (Broadcast.timeline ti ∷ bs) = frames bs
frames (Broadcast.session_list infos active ∷ bs) = frames bs
frames (Broadcast.session_selected id name ∷ bs) = frames bs
frames (Broadcast.meta feeds zoom ∷ bs) = frames bs
frames (Broadcast.unknown_session id ∷ bs) = frames bs

pub frames-append : (xs ys : List Broadcast) → frames (xs ++ ys) ≡ frames xs + frames ys
frames-append [] ys = omega arith
frames-append (Broadcast.nav f ∷ bs) ys = omega (arith, frames-append bs ys)
frames-append (Broadcast.att f ∷ bs) ys = omega (arith, frames-append bs ys)
frames-append (Broadcast.mot f ∷ bs) ys = omega (arith, frames-append bs ys)
frames-append (Broadcast.wx f ∷ bs) ys = omega (arith, frames-append bs ys)
frames-append (Broadcast.snapshot f ∷ bs) ys = frames-append bs ys
frames-append (Broadcast.trail pts ∷ bs) ys = frames-append bs ys
frames-append (Broadcast.timeline ti ∷ bs) ys = frames-append bs ys
frames-append (Broadcast.session_list infos active ∷ bs) ys = frames-append bs ys
frames-append (Broadcast.session_selected id name ∷ bs) ys = frames-append bs ys
frames-append (Broadcast.meta feeds zoom ∷ bs) ys = frames-append bs ys
frames-append (Broadcast.unknown_session id ∷ bs) ys = frames-append bs ys

-- No request of a client waits, and the playback is paused.
pub record Paused {F : Type 0} (b : Bridge F) : Type 0 where
  pub is_paused : b.paused ≡ true
  pub no_switch : b.pending_session_id ≡ []
  pub no_seek : b.pending_seek_ts ≡ none
  pub no_toggle : b.pending_pause ≡ none

-- A step that passes no frame on, leaves the controller and the subscriptions alone, and the playback paused.
pub record Silent {F : Type 0} (b b' : Bridge F) : Type 0 where
  pub pushed : List Broadcast
  pub queued : b'.sent ≡ b.sent ++ pushed
  pub no_frames : frames pushed ≡ 0
  pub same_decim : b'.decim ≡ b.decim
  pub same_subscriptions : b'.subscriptions ≡ b.subscriptions
  pub paused : Paused b'

module _ {F : Type 0} where
  pub Silent-refl : {b : Bridge F} → Paused b → Silent b b
  Silent-refl {b} p = record {
    pushed = [];
    queued = sym (append-nil b.sent);
    no_frames = refl;
    same_decim = refl;
    same_subscriptions = refl;
    paused = p;
  }

  pub Silent-trans : {a b c : Bridge F} → Silent a b → (Paused b → Silent b c) → Silent a c
  Silent-trans {a} q f =
      let r = f q.paused in
      record {
        pushed = q.pushed ++ r.pushed;
        queued =
            r.queued ∙ ap (λ s. s ++ r.pushed) q.queued ∙ append_assoc a.sent q.pushed r.pushed;
        no_frames = omega (arith, frames-append q.pushed r.pushed, q.no_frames, r.no_frames);
        same_decim = r.same_decim ∙ q.same_decim;
        same_subscriptions = r.same_subscriptions ∙ q.same_subscriptions;
        paused = r.paused;
      }

  pub Silent-if :
      {a : Bridge F} (b c : Bridge F) (t : Bool)
      → Silent a b
      → Silent a c
      → Silent a (if t then b else c)
  Silent-if b c true x y = x
  Silent-if b c false x y = y

  -- A step that changes neither what was sent, nor the controller, nor what the clients asked for.
  pub Silent-keep :
      {b b' : Bridge F}
      → Paused b
      → b'.sent ≡ b.sent
      → b'.decim ≡ b.decim
      → b'.subscriptions ≡ b.subscriptions
      → b'.paused ≡ b.paused
      → b'.pending_session_id ≡ b.pending_session_id
      → b'.pending_seek_ts ≡ b.pending_seek_ts
      → b'.pending_pause ≡ b.pending_pause
      → Silent b b'
  Silent-keep {b} p s d u f i k t = record {
    pushed = [];
    queued = s ∙ sym (append-nil b.sent);
    no_frames = refl;
    same_decim = d;
    same_subscriptions = u;
    paused = record {
      is_paused = f ∙ p.is_paused;
      no_switch = i ∙ p.no_switch;
      no_seek = k ∙ p.no_seek;
      no_toggle = t ∙ p.no_toggle;
    };
  }

  pub Silent-then :
      {a b : Bridge F} (c : Bridge F)
      → (t : Bool) → t ≡ true
      → Silent a b
      → Silent a (if t then b else c)
  Silent-then {a} {b} c t e q = subst (λ s. Silent a (if s then b else c)) (sym e) q

  pub Silent-else :
      {a b : Bridge F} (c : Bridge F)
      → (t : Bool) → t ≡ false
      → Silent a b
      → Silent a (if t then c else b)
  Silent-else {a} {b} c t e q = subst (λ s. Silent a (if s then c else b)) (sym e) q

  pub Silent-none :
      {A : Type 0} {a b : Bridge F} (f : A → Bridge F) (o : Option A)
      → o ≡ none
      → Silent a b
      → Silent a (elim o [ some x ↦ f x | none ↦ b ])
  Silent-none {a = a} {b} f o e q =
      subst (λ s. Silent a (elim s [ some x ↦ f x | none ↦ b ])) (sym e) q

  pub emit-paused :
      (fl : Floats) (ops : FilterOps F) (answer : Controller × Bool) (send : Bridge F → Bridge F)
      {a b : Bridge F}
      → Silent a b
      → Silent a (emit fl ops answer send b)
  unfolding emit
  emit-paused fl ops answer send {a} {b} q = Silent-then _ b.paused q.paused.is_paused q
