-- ===== src/Ring/Threads.antt =====
-- `try_push` in one thread and `try_pop` in another, a shared access at a time. The acquire loads and
-- release stores make these interleavings all that the two threads can see of one another.
pub mod Invariant
pub mod Safety
use neuro_kinetic.Base.{ℕ, ◌≡◌, ◌≢◌, List, [], ◌∷◌, ◌++◌, update}
use neuro_kinetic.Base.Word.{add64}
use neuro_kinetic.Ring.{SpscRingBuffer, increment, fresh}

-- Where the thread that calls `try_push` stands, with its live local variables.
pub data Producer (T : Type 0) : Type 0 where
  idle : Producer T
  loaded : (head : ℕ) → (value : T) → Producer T  -- `head_` is read
  storing : (head : ℕ) → (value : T) → Producer T  -- before the write of the slot
  publishing : (head : ℕ) → (value : T) → Producer T  -- before the store of `head_`
  refused : Producer T  -- before the update of `dropped_`

pub data Consumer (T : Type 0) : Type 0 where
  idle : Consumer T
  loaded : (tail : ℕ) → Consumer T  -- `tail_` is read
  reading : (tail : ℕ) → Consumer T  -- before the read of the slot
  advancing : (tail : ℕ) → (value : T) → Consumer T  -- before the store of `tail_`

-- `sent` and `received` record the values of the calls that returned `true`.
pub record System (T : Type 0) : Type 0 where
  pub ring : SpscRingBuffer T
  pub producer : Producer T
  pub consumer : Consumer T
  pub sent : List T
  pub received : List T

abbrev pub start : {T : Type 0} → T → System T
start zero_value = record {
  ring = fresh zero_value;
  producer = Producer.idle;
  consumer = Consumer.idle;
  sent = [];
  received = [];
}

-- One access of one thread. The producer pushes whatever values it likes, and either thread may rest.
pub data Step {T : Type 0} (capacity : ℕ) (s : System T) : System T → Type 0 where
  load_head :
      (x : T)
      → s.producer ≡ Producer.idle
      → Step capacity s (record s { producer = Producer.loaded s.ring.head x })
  see_full :
      (h : ℕ) (x : T)
      → s.producer ≡ Producer.loaded h x
      → increment capacity h ≡ s.ring.tail
      → Step capacity s (record s { producer = Producer.refused })
  count_drop :
      s.producer ≡ Producer.refused
      → Step capacity s (record s {
        ring = record s.ring { drops = add64 s.ring.drops 1 };
        producer = Producer.idle;
      })
  see_space :
      (h : ℕ) (x : T)
      → s.producer ≡ Producer.loaded h x
      → increment capacity h ≢ s.ring.tail
      → Step capacity s (record s { producer = Producer.storing h x })
  write_slot :
      (h : ℕ) (x : T)
      → s.producer ≡ Producer.storing h x
      → Step capacity s (record s {
        ring = record s.ring { slots = update s.ring.slots h x };
        producer = Producer.publishing h x;
      })
  store_head :
      (h : ℕ) (x : T)
      → s.producer ≡ Producer.publishing h x
      → Step capacity s (record s {
        ring = record s.ring { head = increment capacity h };
        producer = Producer.idle;
        sent = s.sent ++ (x ∷ []);
      })
  load_tail :
      s.consumer ≡ Consumer.idle
      → Step capacity s (record s { consumer = Consumer.loaded s.ring.tail })
  see_empty :
      (t : ℕ)
      → s.consumer ≡ Consumer.loaded t
      → t ≡ s.ring.head
      → Step capacity s (record s { consumer = Consumer.idle })
  see_value :
      (t : ℕ)
      → s.consumer ≡ Consumer.loaded t
      → t ≢ s.ring.head
      → Step capacity s (record s { consumer = Consumer.reading t })
  read_slot :
      (t : ℕ)
      → s.consumer ≡ Consumer.reading t
      → Step capacity s (record s { consumer = Consumer.advancing t (s.ring.slots t) })
  store_tail :
      (t : ℕ) (x : T)
      → s.consumer ≡ Consumer.advancing t x
      → Step capacity s (record s {
        ring = record s.ring { tail = increment capacity t };
        consumer = Consumer.idle;
        received = s.received ++ (x ∷ []);
      })

pub data Reach {T : Type 0} (capacity : ℕ) (s : System T) : System T → Type 0 where
  here : Reach capacity s s
  next : {t u : System T} → Reach capacity s t → Step capacity t u → Reach capacity s u
