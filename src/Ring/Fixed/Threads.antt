-- ===== src/Ring/Fixed/Threads.antt =====
-- The producer and the consumer of kv8zoom/SpscFixedRing.h as two threads. Each load and store of
-- an atomic, and each access to `m_buf`, is one step, and the steps of the two threads interleave
-- in any order. (The release and acquire pairs are what makes the steps of one thread visible to
-- the other in this order.) `pushed` and `popped` record the calls that returned true.
pub mod Safety
use kv8_metrics.Prelude.{ℕ, ◌≡◌, ◌≢◌, List, [], ◌∷◌, ◌++◌, get_or, set}
use kv8_metrics.Ring.Fixed.{Ring, next_index, fresh}

module _ (A : Type 0) where
  -- Where the producer stands in `push(item)`, with the locals `tail` and `next`.
  pub data Producer : Type 0 where
    -- outside push
    idle : Producer
    -- `tail` and `next` are computed
    loaded : A → ℕ → Producer
    -- m_head was compared, and the ring was not full
    room : A → ℕ → Producer
    -- m_buf[tail] is written
    written : A → ℕ → Producer

  -- Where the consumer stands in `pop(out)`, with the local `head`.
  pub data Consumer : Type 0 where
    idle : Consumer
    loaded : ℕ → Consumer
    -- m_tail was compared, and the ring was not empty
    ready : ℕ → Consumer
    -- m_buf[head] is copied out
    copied : A → ℕ → Consumer

  pub record System : Type 0 where
    pub ring : Ring A
    pub producer : Producer
    pub consumer : Consumer
    pub pushed : List A
    pub popped : List A

module _ {A : Type 0} (d : A) (n : ℕ) where
  unfoldable pub start : System A
  start = record {
    ring = fresh d n;
    producer = Producer.idle;
    consumer = Consumer.idle;
    pushed = [];
    popped = [];
  }

  -- The statements of `push`.
  pub data Produces (s : System A) : System A → Type 0 where
    call :
        (x : A)
        → s.producer ≡ Producer.idle
        → Produces s (record s { producer = Producer.loaded x s.ring.tail })
    full :
        {x : A} {t : ℕ}
        → s.producer ≡ Producer.loaded x t
        → next_index n t ≡ s.ring.head
        → Produces s (record s { producer = Producer.idle })
    fits :
        {x : A} {t : ℕ}
        → s.producer ≡ Producer.loaded x t
        → next_index n t ≢ s.ring.head
        → Produces s (record s { producer = Producer.room x t })
    write :
        {x : A} {t : ℕ}
        → s.producer ≡ Producer.room x t
        → Produces s (record s {
          ring = record s.ring { buf = set s.ring.buf t x };
          producer = Producer.written x t;
        })
    publish :
        {x : A} {t : ℕ}
        → s.producer ≡ Producer.written x t
        → Produces s (record s {
          ring = record s.ring { tail = next_index n t };
          producer = Producer.idle;
          pushed = s.pushed ++ x ∷ [];
        })

  -- The statements of `pop`.
  pub data Consumes (s : System A) : System A → Type 0 where
    call :
        s.consumer ≡ Consumer.idle
        → Consumes s (record s { consumer = Consumer.loaded s.ring.head })
    empty :
        {h : ℕ}
        → s.consumer ≡ Consumer.loaded h
        → h ≡ s.ring.tail
        → Consumes s (record s { consumer = Consumer.idle })
    some_stored :
        {h : ℕ}
        → s.consumer ≡ Consumer.loaded h
        → h ≢ s.ring.tail
        → Consumes s (record s { consumer = Consumer.ready h })
    copy :
        {h : ℕ}
        → s.consumer ≡ Consumer.ready h
        → Consumes s (record s { consumer = Consumer.copied (get_or s.ring.buf h d) h })
    release :
        {x : A} {h : ℕ}
        → s.consumer ≡ Consumer.copied x h
        → Consumes s (record s {
          ring = record s.ring { head = next_index n h };
          consumer = Consumer.idle;
          popped = s.popped ++ x ∷ [];
        })

  pub data Reaches : System A → Type 0 where
    here : Reaches start
    produces : {s t : System A} → Reaches s → Produces s t → Reaches t
    consumes : {s t : System A} → Reaches s → Consumes s t → Reaches t
