-- ===== src/Ring/Threads/Safety.antt =====
-- What the two threads of the ring can rely on, whatever their interleaving.
use neuro_kinetic.Base.{ℕ, refl, All, List, [], ◌∷◌, ◌<◌, ◌≡◌, ◌≢◌, ◌++◌, append-nil, arith}
use neuro_kinetic.Ring.Bounds.{contents}
use neuro_kinetic.Ring.Threads.{Producer, Consumer, System, Reach, start}
use neuro_kinetic.Ring.Threads.Invariant.{Inv, Inv-start, Reach-Inv}

-- the slot that a thread accesses with its next step, if it does
unfoldable pub write_of : {T : Type 0} → Producer T → List ℕ
write_of Producer.idle = []
write_of (Producer.loaded h v) = []
write_of (Producer.storing h v) = h ∷ []
write_of (Producer.publishing h v) = []
write_of Producer.refused = []

unfoldable pub read_of : {T : Type 0} → Consumer T → List ℕ
read_of Consumer.idle = []
read_of (Consumer.loaded t) = []
read_of (Consumer.reading t) = t ∷ []
read_of (Consumer.advancing t v) = []

abbrev pub accessed : {T : Type 0} → System T → List ℕ
accessed s = write_of s.producer ++ read_of s.consumer

-- no value stands twice
abbrev pub IsDistinct : List ℕ → Type 0
IsDistinct [] = Unit
IsDistinct (k ∷ ks) = All (λ j. k ≢ j) ks × IsDistinct ks

All-both :
    (capacity : ℕ) (ks js : List ℕ)
    → All (λ slot. slot < capacity) ks
    → All (λ slot. slot < capacity) js
    → All (λ slot. slot < capacity) (ks ++ js)
All-both capacity [] js h g = g
All-both capacity (k ∷ ks) js (here, h) g = (here, All-both capacity ks js h g)

module _ {T : Type 0} {capacity : ℕ} {x : T} {s : System T} (room : 1 < capacity)
    (r : Reach capacity (start x) s) where
  reached : Inv capacity s
  reached = Reach-Inv (Inv-start capacity x room) r

  -- From an empty ring of capacity above 1, after any interleaving of the steps of one thread that
  -- pushes and one that pops: the values received, followed by those still in the ring, are the values
  -- sent, in order; none is lost, repeated or changed.
  pub fifo_between_threads : s.received ++ contents capacity s.ring ≡ s.sent
  fifo_between_threads = reached.flow

  -- Under the same conditions, once the indices are equal, all that was sent has been received.
  pub drained_received_all : s.ring.head ≡ s.ring.tail → s.received ≡ s.sent
  drained_received_all e = ground (arith, reached.flow, append-nil s.received)

  write_in : (p : Producer T) → s.producer ≡ p → All (λ slot. slot < capacity) (write_of p)
  unfolding write_of
  write_in Producer.idle e = tt
  write_in (Producer.loaded h v) e = tt
  write_in (Producer.storing h v) e = (ground (arith, reached), tt)
  write_in (Producer.publishing h v) e = tt
  write_in Producer.refused e = tt

  read_in : (c : Consumer T) → s.consumer ≡ c → All (λ slot. slot < capacity) (read_of c)
  unfolding read_of
  read_in Consumer.idle e = tt
  read_in (Consumer.loaded t) e = tt
  read_in (Consumer.reading t) e = (ground (arith, reached), tt)
  read_in (Consumer.advancing t v) e = tt

  read-IsDistinct : (c : Consumer T) → IsDistinct (read_of c)
  unfolding read_of
  read-IsDistinct Consumer.idle = tt
  read-IsDistinct (Consumer.loaded t) = tt
  read-IsDistinct (Consumer.reading t) = (tt, tt)
  read-IsDistinct (Consumer.advancing t v) = tt

  -- a slot that is written is not read
  write_apart :
      (h : ℕ) (v : T) (c : Consumer T)
      → s.producer ≡ Producer.storing h v
      → s.consumer ≡ c
      → All (λ slot. h ≢ slot) (read_of c)
  unfolding read_of
  write_apart h v Consumer.idle p e = tt
  write_apart h v (Consumer.loaded t) p e = tt
  write_apart h v (Consumer.reading t) p e = (ground (arith, reached), tt)
  write_apart h v (Consumer.advancing t x) p e = tt

  distinct :
      (p : Producer T) (c : Consumer T)
      → s.producer ≡ p
      → s.consumer ≡ c
      → IsDistinct (write_of p ++ read_of c)
  unfolding write_of
  distinct Producer.idle c p e = read-IsDistinct c
  distinct (Producer.loaded h v) c p e = read-IsDistinct c
  distinct (Producer.storing h v) c p e = (write_apart h v c p e, read-IsDistinct c)
  distinct (Producer.publishing h v) c p e = read-IsDistinct c
  distinct Producer.refused c p e = read-IsDistinct c

  -- From an empty ring of capacity above 1, after any interleaving of the steps of one thread that
  -- pushes and one that pops: the slots that the two are about to access, the producer's write and the
  -- consumer's read, are slots of the array, each on its own and both at once, and when both are about
  -- to access one these are two slots. So no access of `slots_` leaves the array and none races.
  pub slots_never_race : All (λ slot. slot < capacity) (accessed s) × IsDistinct (accessed s)
  slots_never_race = (
    All-both capacity (write_of s.producer) (read_of s.consumer) (write_in s.producer refl)
        (read_in s.consumer refl),
    distinct s.producer s.consumer refl refl,
  )
