-- ===== src/Scope/Laws/Pending.antt =====
-- The MetaUpdated events that kv8scope/SessionManager.cpp holds back.
use kv8_metrics.Prelude.{
  ℕ, ◌≡◌, refl, sym, ap, subst, ◌∙◌, Bool, true, false, ◌||◌, Option, none, some, List, [], ◌∷◌,
  ◌++◌, Bool-cases, Option-cases, inl, inr, ltb, leb, if◌then◌else◌, arith,
}
use kv8_metrics.Prelude.Bytes.{Bytes}
use kv8_metrics.Prelude.Assoc.{find, assign, find-assign, bytes_beq, bytes_beq_iff, bytes_eq}
use kv8_metrics.Registry.{SessionMeta}
use kv8_metrics.Registry.Ordered.{in_key_order, bytes_less}
use kv8_metrics.Scope.Sessions.{
  SessionManager, Cycle, Listing, appearances, disappearances, erase, more_fields, fire_expired,
  same_fields, at_least_zero, virtual_fields, update_meta, update_metas, erase_metas, forget_gone,
  apply_current, current_sessions, note_connected, fail_cycle, with_channels, run_one_poll_cycle,
  thread_round, thread_func,
}
use kv8_metrics.Scope.Laws.Maps.{has, has-cons, find-still_there}
use kv8_metrics.Scope.Laws.Mirror.{update_livenesses_lem}

has-assign :
    {V : Type 0} (p k : Bytes) (v : V) (m : List (Bytes × V))
    → has p (assign k v m) ≡ (bytes_beq k p || has p m)
has-assign p k v m = ground (arith, find-assign k p v m)

same_key : (j k p : Bytes) → bytes_beq k p ≡ true → bytes_beq j k ≡ bytes_beq j p
same_key j k p e = ap (bytes_beq j) ((bytes_beq_iff k p).0 e)

has-erase :
    {V : Type 0} (p k : Bytes) (m : List (Bytes × V))
    → has p (erase k m) ≡ (if bytes_beq k p then false else has p m)
unfolding erase find
has-erase p k [] = ground arith
has-erase p k ((j, v) ∷ m) = elim (Bool-cases (bytes_beq j k)) [
  | inl same ↦
      ground (arith, has-erase p k m, same, ap (λ q. bytes_beq q p) ((bytes_beq_iff j k).0 same))
  | inr other ↦ elim (Bool-cases (bytes_beq j p)) [
    | inl here ↦
        ground (arith, has-cons p j v (erase k m), has-cons p j v m, other, here, same_key j k p)
    | inr there ↦ ground (arith, has-erase p k m, other, there)
  ]
]

has-erase_metas :
    (p : Bytes) (current : List (Bytes × SessionMeta)) (deadlines : List (Bytes × ℕ))
    (metas : List (Bytes × SessionMeta))
    → has p current ≡ true
    → has p (erase_metas current deadlines metas) ≡ has p metas
unfolding erase_metas
has-erase_metas p current [] metas here = refl
has-erase_metas p current ((k, d) ∷ deadlines) metas here = elim (Option-cases (find k current)) [
  | inl gone ↦ rw gone (
      has-erase_metas p current deadlines (erase k metas) here
      ∙ has-erase p k metas
      ∙ elim (Bool-cases (bytes_beq k p)) [
        | inl same ↦
            ground (arith, gone, here, ap (λ q. find q current) ((bytes_beq_iff k p).0 same))
        | inr other ↦ rw other refl
      ])
  | inr (sm, e) ↦ rw e (has-erase_metas p current deadlines metas here)
]

-- Each deadline has the meta that is sent when it expires.
abbrev pub Paired : SessionManager → Type 0
Paired m = (p : Bytes) → has p m.stabilize_deadline ≡ true → has p m.stabilize_meta ≡ true

Paired-if : (a b : SessionManager) (t : Bool) → Paired a → Paired b → Paired (if t then a else b)
Paired-if a b true x y = x
Paired-if a b false x y = y

fire_expired-Paired :
    (now : ℕ) (prefix : Bytes) (deadline : Option ℕ) (m : SessionManager)
    → Paired m
    → Paired (fire_expired now prefix deadline m)
unfolding fire_expired
fire_expired-Paired now prefix none m ok = ok
fire_expired-Paired now prefix (some deadline) m ok =
    Paired-if _ _ (leb deadline now)
      (λ p here. ground (
        arith,
        here,
        ok p,
        has-erase p prefix m.stabilize_deadline,
        has-erase p prefix m.stabilize_meta,
      ))
      ok

more_fields-Paired :
    (n deadline : ℕ) (prefix : Bytes) (sm : SessionMeta) (m : SessionManager)
    → Paired m
    → Paired (more_fields n deadline prefix sm m)
unfolding more_fields
more_fields-Paired n deadline prefix sm m ok = λ p here. ground (
  arith,
  here,
  ok p,
  has-assign p prefix deadline m.stabilize_deadline,
  has-assign p prefix sm m.stabilize_meta,
)

update_meta-Paired :
    (c : Cycle) (s : Bytes × SessionMeta) (m : SessionManager)
    → Paired m
    → Paired (update_meta c s m)
unfolding update_meta same_fields
update_meta-Paired c (prefix, sm) m ok = elim (Option-cases (find prefix m.known_sessions)) [
  | inl e ↦ rw (e, update_meta) ok
  | inr (old, e) ↦
      let n = virtual_fields sm.hash_to_counters in
      rw (e, update_meta)
        (Paired-if _ _ (ltb (at_least_zero (find prefix m.prev_field_count)) n)
          (more_fields-Paired n _ prefix sm m ok)
          (fire_expired-Paired (c.steady_now prefix) prefix (find prefix m.stabilize_deadline) _
            ok))
]

update_metas-Paired :
    (c : Cycle) (current : List (Bytes × SessionMeta)) (m : SessionManager)
    → Paired m
    → Paired (update_metas c current m)
unfolding update_metas
update_metas-Paired c [] m ok = ok
update_metas-Paired c (s ∷ current) m ok =
    update_metas-Paired c current (update_meta c s m) (update_meta-Paired c s m ok)

forget_gone-Paired :
    (current : List (Bytes × SessionMeta)) (m : SessionManager)
    → Paired m
    → Paired (forget_gone current m)
unfolding forget_gone
forget_gone-Paired current m ok = λ p here. elim (Bool-cases (has p current)) [
  | inl there ↦ ground (
    arith,
    here,
    there,
    ok p,
    find-still_there p current m.stabilize_deadline,
    has-erase_metas p current m.stabilize_deadline m.stabilize_meta there,
  )
  | inr gone ↦ ground (arith, here, gone, find-still_there p current m.stabilize_deadline)
]

apply_current-Paired :
    (c : Cycle) (current : List (Bytes × SessionMeta)) (m : SessionManager)
    → Paired m
    → Paired (apply_current c current m)
unfolding apply_current
apply_current-Paired c current m ok =
    let diffed = record m {
      events =
          m.events
          ++ appearances m.known_sessions current
          ++ disappearances current (in_key_order bytes_less m.known_sessions);
    } in
    let updated = update_metas c current diffed in
    subst Paired (sym (update_livenesses_lem c current (forget_gone current updated)))
      (forget_gone-Paired current updated (update_metas-Paired c current diffed ok))

note_connected-Paired : (m : SessionManager) → Paired m → Paired (note_connected m)
unfolding note_connected
note_connected-Paired m ok = Paired-if _ _ m.ever_connected ok ok

with_channels-Paired :
    (c : Cycle) (l : Listing) (m : SessionManager) → Paired m → Paired (with_channels c l m).0
unfolding with_channels fail_cycle
with_channels-Paired c (Listing.thrown what) m ok = ok
with_channels-Paired c Listing.thrown_unknown m ok = ok
with_channels-Paired c (Listing.listed channels) m ok =
    apply_current-Paired c (in_key_order bytes_less (current_sessions c.discover channels []))
      (note_connected m) (note_connected-Paired m ok)

Paired-pair_if :
    (t : Bool) (a b : SessionManager × Bool)
    → Paired a.0
    → Paired b.0
    → Paired (if t then a else b).0
Paired-pair_if true a b x y = x
Paired-pair_if false a b x y = y

cycle-Paired : (c : Cycle) (m : SessionManager) → Paired m → Paired (run_one_poll_cycle c m).0
unfolding run_one_poll_cycle fail_cycle
cycle-Paired c m ok =
    Paired-pair_if m.has_consumer _ _ (with_channels-Paired c c.list_channels m ok) (
      Paired-pair_if c.can_create _ _
        (with_channels-Paired c c.list_channels (record m { has_consumer = true }) ok) ok)

round-Paired : (c : Cycle) (m : SessionManager) → Paired m → Paired (thread_round c m)
unfolding thread_round
round-Paired c m ok =
    Paired-if _ _ (run_one_poll_cycle c m).1 (cycle-Paired c m ok) (cycle-Paired c m ok)

-- Through any rounds of the worker, whatever the consumer answers in them, from a state in which each
-- session with a deadline has a meta kept for its MetaUpdated event: that still holds.
pub thread_func-Paired :
    (cycles : List Cycle) (m : SessionManager) → Paired m → Paired (thread_func cycles m)
unfolding thread_func
thread_func-Paired [] m ok = ok
thread_func-Paired (c ∷ cycles) m ok =
    thread_func-Paired cycles (thread_round c m) (round-Paired c m ok)
