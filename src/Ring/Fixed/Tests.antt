-- ===== src/Ring/Fixed/Tests.antt =====
-- Runs of the ring of fixed capacity, with four slots.
use kv8_metrics.Prelude.{
  ℕ, ◌<◌, ◌≤◌, ◌≡◌, ◌≢◌, refl, Bool, true, false, List, [], ◌∷◌, ◌++◌, length, arith,
}
use kv8_metrics.Ring.Fixed.{Ring, mask, next_index, fresh, push, capacity}
use kv8_metrics.Ring.Fixed.Invariant.{IsSize, IsValid}
use kv8_metrics.Ring.Fixed.Refine.{contents}
use kv8_metrics.Ring.Fixed.Threads.{Producer, Consumer, System, Produces, Consumes, Reaches, start}
use kv8_metrics.Ring.Fixed.Threads.Safety.{fifo, no_race}

-- A ring of four slots whose indices have wrapped: 7 and 8 are stored.
four_slots : IsSize 4 2
four_slots = record { power = omega arith; least = omega arith; fits = omega arith }

abbrev wrapped : Ring ℕ
wrapped = record { head = 3; tail = 1; buf = 8 ∷ 0 ∷ 0 ∷ 7 ∷ [] }

wrapped-IsValid : IsValid 4 wrapped
wrapped-IsValid = record { head_in = omega arith; tail_in = omega arith; slots = refl }

pushed_and_popped :
    push 0 4 wrapped 9 ≡ (record { head = 3; tail = 2; buf = 8 ∷ 9 ∷ 0 ∷ 7 ∷ [] }, true)
unfolding push next_index mask
pushed_and_popped = refl

-- The producer has pushed 5 and stands before its second write, the consumer before its read.
abbrev state : (head tail : ℕ) → List ℕ → Producer ℕ → Consumer ℕ → List ℕ → System ℕ
state head tail buf producer consumer pushed = record {
  ring = record { head = head; tail = tail; buf = buf };
  producer = producer;
  consumer = consumer;
  pushed = pushed;
  popped = [];
}

one_pushed : Reaches 0 4 (state 0 1 (5 ∷ 0 ∷ 0 ∷ 0 ∷ []) Producer.idle Consumer.idle (5 ∷ []))
unfolding start fresh next_index mask
one_pushed =
    Reaches.produces
      (Reaches.produces
        (Reaches.produces (Reaches.produces Reaches.here (Produces.call 5 refl))
          (Produces.fits refl (λ e. omega arith)))
        (Produces.write refl))
      (Produces.publish refl)

both_ready :
    Reaches 0 4 (state 0 1 (5 ∷ 0 ∷ 0 ∷ 0 ∷ []) (Producer.room 6 1) (Consumer.ready 0) (5 ∷ []))
unfolding next_index mask
both_ready =
    Reaches.consumes
      (Reaches.consumes
        (Reaches.produces (Reaches.produces one_pushed (Produces.call 6 refl))
          (Produces.fits refl (λ e. omega arith)))
        (Consumes.call refl))
      (Consumes.some_stored refl (λ e. omega arith))

abbrev one_stored : System ℕ
one_stored = state 0 1 (5 ∷ 0 ∷ 0 ∷ 0 ∷ []) Producer.idle Consumer.idle (5 ∷ [])

abbrev at_both : System ℕ
at_both = state 0 1 (5 ∷ 0 ∷ 0 ∷ 0 ∷ []) (Producer.room 6 1) (Consumer.ready 0) (5 ∷ [])

fifo_example :
    (one_stored.pushed ≡ one_stored.popped ++ contents 0 4 one_stored.ring)
    × (length (contents 0 4 one_stored.ring) ≤ capacity 4)
fifo_example = fifo 0 four_slots {s = one_stored} one_pushed

abbrev slot_of : Bool → ℕ
slot_of true = 1
slot_of false = 0

no_race_example :
    (slot_of true ≢ slot_of false)
    × (slot_of true < length at_both.ring.buf)
    × (slot_of false < length at_both.ring.buf)
no_race_example = no_race 0 four_slots {s = at_both} {x = 6} {t = 1} {h = 0} both_ready refl refl
