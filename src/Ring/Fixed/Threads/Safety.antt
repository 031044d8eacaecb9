-- ===== src/Ring/Fixed/Threads/Safety.antt =====
-- Whatever the interleaving of kv8zoom/SpscFixedRing.h's two threads, items come out in the order
-- in which they went in, and the threads never touch one slot at the same time.
use native.Mathlib.Nat.{mod-lt}
use kv8_metrics.Prelude.{
  ℕ, ◌+◌, ◌-◌, ◌%◌, ◌≤◌, ◌<◌, ◌≡◌, ◌≢◌, refl, sym, ap, subst, ◌∙◌, [], ◌∷◌, ◌++◌, length, get_or,
  set, length-set, append_assoc, arith,
}
use kv8_metrics.Ring.Window.{
  window, length-window, window_last, window-set_past, get_or-set_self, get_or-set_ne, wrap_cases,
}
use kv8_metrics.Ring.Fixed.{Ring, next_index, fresh, capacity}
use kv8_metrics.Ring.Fixed.Invariant.{IsSize, IsValid, count, next_index_lem, fresh-IsValid}
use kv8_metrics.Ring.Fixed.Refine.{
  contents, contents_popped, contents_empty, slot_after, count_room, count_pushed,
}
use kv8_metrics.Ring.Fixed.Threads.{Producer, Consumer, System, start, Produces, Consumes, Reaches}

-- The slot after a slot, round the ring, is another one for another slot.
next_ne : (n a b : ℕ) → a < n → b < n → a ≢ b → (a + 1) % n ≢ (b + 1) % n
next_ne n a b ha hb ne e =
    ne (omega (arith, wrap_cases (a + 1) n (omega arith), wrap_cases (b + 1) n (omega arith)))

module _ {A : Type 0} (d : A) (n : ℕ) where
  -- What the locals of each thread say about the shared members.
  abbrev ProducerKnows : Ring A → Producer A → Type 0
  ProducerKnows r Producer.idle = Unit {0}
  ProducerKnows r (Producer.loaded x t) = t ≡ r.tail
  ProducerKnows r (Producer.room x t) = (t ≡ r.tail) × ((r.tail + 1) % n ≢ r.head)
  ProducerKnows r (Producer.written x t) =
      (t ≡ r.tail) × ((r.tail + 1) % n ≢ r.head) × (get_or r.buf r.tail d ≡ x)

  abbrev ConsumerKnows : Ring A → Consumer A → Type 0
  ConsumerKnows r Consumer.idle = Unit {0}
  ConsumerKnows r (Consumer.loaded h) = h ≡ r.head
  ConsumerKnows r (Consumer.ready h) = (h ≡ r.head) × (r.head ≢ r.tail)
  ConsumerKnows r (Consumer.copied x h) =
      (h ≡ r.head) × (r.head ≢ r.tail) × (get_or r.buf r.head d ≡ x)

  record Safe (s : System A) : Type 0 where
    valid : IsValid n s.ring
    producer : ProducerKnows s.ring s.producer
    consumer : ConsumerKnows s.ring s.consumer
    order : s.pushed ≡ s.popped ++ contents d n s.ring

  published :
      {r : Ring A}
      → IsValid n r
      → (r.tail + 1) % n ≢ r.head
      → contents d n (record r { tail = (r.tail + 1) % n })
        ≡ contents d n r ++ get_or r.buf r.tail d ∷ []
  published {r} v room =
      ap (window d r.buf n r.head) (count_pushed n r.head r.tail v.head_in v.tail_in room)
      ∙ window_last d r.buf n r.head (count n r)
      ∙ ap (λ i. contents d n r ++ get_or r.buf i d ∷ [])
          (slot_after n r.head r.tail v.head_in v.tail_in)

  unpublished :
      {r : Ring A} (x : A)
      → IsValid n r
      → (r.tail + 1) % n ≢ r.head
      → contents d n (record r { buf = set r.buf r.tail x }) ≡ contents d n r
  unpublished {r} x v room =
      ap (λ t. window d (set r.buf t x) n r.head (count n r))
        (sym (slot_after n r.head r.tail v.head_in v.tail_in))
      ∙ window-set_past d r.buf n r.head (count n r) x
          (omega (arith, count_room n r.head r.tail v.head_in v.tail_in room))

  -- A write to the free slot changes nothing that the consumer knows.
  consumer_write :
      (r : Ring A) (x : A) (c : Consumer A)
      → ConsumerKnows r c
      → ConsumerKnows (record r { buf = set r.buf r.tail x }) c
  consumer_write r x Consumer.idle k = k
  consumer_write r x (Consumer.loaded h) k = k
  consumer_write r x (Consumer.ready h) k = k
  consumer_write r x (Consumer.copied y h) k =
      (k.0, k.1, get_or-set_ne d r.buf r.tail r.head x (λ e. k.1 (sym e)) ∙ k.2)

  consumer_publish :
      (r : Ring A) (c : Consumer A)
      → (r.tail + 1) % n ≢ r.head
      → ConsumerKnows r c
      → ConsumerKnows (record r { tail = (r.tail + 1) % n }) c
  consumer_publish r Consumer.idle room k = k
  consumer_publish r (Consumer.loaded h) room k = k
  consumer_publish r (Consumer.ready h) room k = (k.0, λ e. room (sym e))
  consumer_publish r (Consumer.copied y h) room k = (k.0, (λ e. room (sym e)), k.2)

  -- A freed slot leaves the producer its room.
  producer_release :
      {r : Ring A} (p : Producer A)
      → IsValid n r
      → r.head ≢ r.tail
      → ProducerKnows r p
      → ProducerKnows (record r { head = (r.head + 1) % n }) p
  producer_release Producer.idle v ne k = k
  producer_release (Producer.loaded x t) v ne k = k
  producer_release {r} (Producer.room x t) v ne k =
      (k.0, next_ne n r.tail r.head v.tail_in v.head_in (λ e. ne (sym e)))
  producer_release {r} (Producer.written x t) v ne k =
      (k.0, next_ne n r.tail r.head v.tail_in v.head_in (λ e. ne (sym e)), k.2)

module _ {A : Type 0} (d : A) {n k : ℕ} (size : IsSize n k) where
  start-Safe : Safe d n (start d n)
  unfolding start fresh
  start-Safe = record {
    valid = fresh-IsValid d size;
    producer = tt;
    consumer = tt;
    order = sym (contents_empty d {r = fresh d n} (fresh-IsValid d size) refl);
  }

  Produces-Safe : {s t : System A} → Produces d n s t → Safe d n s → Safe d n t
  Produces-Safe (Produces.call x e) v = record {
    valid = v.valid;
    producer = refl;
    consumer = v.consumer;
    order = v.order;
  }
  Produces-Safe (Produces.full e f) v = record {
    valid = v.valid;
    producer = tt;
    consumer = v.consumer;
    order = v.order;
  }
  Produces-Safe {s} (Produces.fits e f) v =
      let known = subst (ProducerKnows d n s.ring) e v.producer in
      record {
        valid = v.valid;
        producer = (
          known,
          λ free. f (ap (next_index n) known ∙ next_index_lem n k _ size v.valid.tail_in ∙ free),
        );
        consumer = v.consumer;
        order = v.order;
      }
  Produces-Safe {s} (Produces.write {x} {t} e) v =
      let known = subst (ProducerKnows d n s.ring) e v.producer in
      subst
        (λ j. Safe d n (record s {
          ring = record s.ring { buf = set s.ring.buf j x };
          producer = Producer.written x t;
        }))
        (sym known.0)
        (record {
          valid = record {
            head_in = v.valid.head_in;
            tail_in = v.valid.tail_in;
            slots = length-set s.ring.buf s.ring.tail x ∙ v.valid.slots;
          };
          producer = (
            known.0,
            known.1,
            get_or-set_self d s.ring.buf s.ring.tail x (omega (arith, v.valid.slots)),
          );
          consumer = consumer_write d n s.ring x s.consumer v.consumer;
          order =
              v.order
              ∙ ap (λ q. s.popped ++ q) (sym (unpublished d n {r = s.ring} x v.valid known.1));
        })
  Produces-Safe {s} (Produces.publish {x} {t} e) v =
      let known = subst (ProducerKnows d n s.ring) e v.producer in
      subst
        (λ j. Safe d n (record s {
          ring = record s.ring { tail = j };
          producer = Producer.idle;
          pushed = s.pushed ++ x ∷ [];
        }))
        (sym (ap (next_index n) known.0 ∙ next_index_lem n k _ size v.valid.tail_in))
        (record {
          valid = record {
            head_in = v.valid.head_in;
            tail_in = mod-lt (s.ring.tail + 1) {m = n} (omega (arith, size.least));
            slots = v.valid.slots;
          };
          producer = tt;
          consumer = consumer_publish d n s.ring s.consumer known.1 v.consumer;
          order =
              ap (λ q. q ++ x ∷ []) v.order
              ∙ append_assoc s.popped (contents d n s.ring) (x ∷ [])
              ∙ ap (λ y. s.popped ++ (contents d n s.ring ++ y ∷ [])) (sym known.2)
              ∙ ap (λ q. s.popped ++ q) (sym (published d n {r = s.ring} v.valid known.1));
        })

  Consumes-Safe : {s t : System A} → Consumes d n s t → Safe d n s → Safe d n t
  Consumes-Safe (Consumes.call e) v = record {
    valid = v.valid;
    producer = v.producer;
    consumer = refl;
    order = v.order;
  }
  Consumes-Safe (Consumes.empty e f) v = record {
    valid = v.valid;
    producer = v.producer;
    consumer = tt;
    order = v.order;
  }
  Consumes-Safe {s} (Consumes.some_stored e f) v =
      let known = subst (ConsumerKnows d n s.ring) e v.consumer in
      record {
        valid = v.valid;
        producer = v.producer;
        consumer = (known, λ same. f (known ∙ same));
        order = v.order;
      }
  Consumes-Safe {s} (Consumes.copy e) v =
      let known = subst (ConsumerKnows d n s.ring) e v.consumer in
      record {
        valid = v.valid;
        producer = v.producer;
        consumer = (known.0, known.1, ap (λ i. get_or s.ring.buf i d) (sym known.0));
        order = v.order;
      }
  Consumes-Safe {s} (Consumes.release {x} {h} e) v =
      let known = subst (ConsumerKnows d n s.ring) e v.consumer in
      let rest = contents d n (record s.ring { head = (s.ring.head + 1) % n }) in
      subst
        (λ j. Safe d n (record s {
          ring = record s.ring { head = j };
          consumer = Consumer.idle;
          popped = s.popped ++ x ∷ [];
        }))
        (sym (ap (next_index n) known.0 ∙ next_index_lem n k _ size v.valid.head_in))
        (record {
          valid = record {
            head_in = mod-lt (s.ring.head + 1) {m = n} (omega (arith, size.least));
            tail_in = v.valid.tail_in;
            slots = v.valid.slots;
          };
          producer = producer_release d n s.producer v.valid known.1 v.producer;
          consumer = tt;
          order =
              v.order
              ∙ ap (λ q. s.popped ++ q) (contents_popped d {r = s.ring} v.valid known.1)
              ∙ ap (λ y. s.popped ++ y ∷ rest) known.2
              ∙ sym (append_assoc s.popped (x ∷ []) rest);
        })

  Reaches-Safe : {s : System A} → Reaches d n s → Safe d n s
  Reaches-Safe Reaches.here = start-Safe
  Reaches-Safe (Reaches.produces r p) = Produces-Safe p (Reaches-Safe r)
  Reaches-Safe (Reaches.consumes r c) = Consumes-Safe c (Reaches-Safe r)

  -- For a capacity that is a power of two, at least 2: in every state that one producer and one
  -- consumer reach by any interleaving of their accesses, the items pushed are the items popped,
  -- in order, followed by the at most N - 1 items in the ring.
  pub fifo :
      {s : System A}
      → Reaches d n s
      → (s.pushed ≡ s.popped ++ contents d n s.ring) × (length (contents d n s.ring) ≤ capacity n)
  unfolding capacity
  fifo {s} r =
      let v = Reaches-Safe r in
      (
        v.order,
        omega (
          arith,
          length-window d s.ring.buf n s.ring.head (count n s.ring),
          mod-lt (s.ring.tail + n - s.ring.head) {m = n} (omega (arith, size.least)),
        ),
      )

  -- For a capacity that is a power of two, at least 2: when in a reachable state the producer is
  -- about to write a slot and the consumer is about to read one, the slots are different, and
  -- both lie in the buffer.
  pub no_race :
      {s : System A} {x : A} {t h : ℕ}
      → Reaches d n s
      → s.producer ≡ Producer.room x t
      → s.consumer ≡ Consumer.ready h
      → (t ≢ h) × (t < length s.ring.buf) × (h < length s.ring.buf)
  no_race {s} r p c =
      let v = Reaches-Safe r in
      let writer = subst (ProducerKnows d n s.ring) p v.producer in
      let reader = subst (ConsumerKnows d n s.ring) c v.consumer in
      (
        (λ e. reader.1 (sym reader.0 ∙ sym e ∙ writer.0)),
        omega (arith, writer.0, v.valid.tail_in, v.valid.slots),
        omega (arith, reader.0, v.valid.head_in, v.valid.slots),
      )
