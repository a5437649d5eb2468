-- ===== src/Ring/Threads/Invariant.antt =====
-- What holds between the two threads of the ring, after any number of their steps.
use neuro_kinetic.Base.{ℕ, ◌≡◌, refl, ◌≢◌, ◌<◌, ◌∷◌, [], ◌++◌, append_assoc, arith}
use neuro_kinetic.Ring.{SpscRingBuffer, increment}
use neuro_kinetic.Ring.Bounds.{IsValid, distance, window, contents, increment_cases}
use neuro_kinetic.Ring.Refine.{window-publish, window-write, window-pop}
use neuro_kinetic.Ring.Threads.{Producer, Consumer, System, Step, Reach, start}
use neuro_kinetic.Ring.Threads.Reach.{here, next}
use neuro_kinetic.Ring.Threads.Step.{
  load_head, see_full, count_drop, see_space, write_slot, store_head, load_tail, see_empty,
  see_value, read_slot, store_tail,
}

module _ {T : Type 0} (capacity : ℕ) where
  -- What the producer's local variables say about the ring.
  abbrev pub Producing : SpscRingBuffer T → Producer T → Type 0
  Producing r Producer.idle = Unit
  Producing r Producer.refused = Unit
  Producing r (Producer.loaded h x) = h ≡ r.head
  Producing r (Producer.storing h x) = (h ≡ r.head) × (increment capacity r.head ≢ r.tail)
  Producing r (Producer.publishing h x) =
      (h ≡ r.head) × (increment capacity r.head ≢ r.tail) × (r.slots r.head ≡ x)

  abbrev pub Consuming : SpscRingBuffer T → Consumer T → Type 0
  Consuming r Consumer.idle = Unit
  Consuming r (Consumer.loaded t) = t ≡ r.tail
  Consuming r (Consumer.reading t) = (t ≡ r.tail) × (r.tail ≢ r.head)
  Consuming r (Consumer.advancing t x) = (t ≡ r.tail) × (r.tail ≢ r.head) × (r.slots r.tail ≡ x)

  pub record Inv (s : System T) : Type 0 where
    pub valid : IsValid capacity s.ring
    pub flow : s.received ++ contents capacity s.ring ≡ s.sent
    pub producing : Producing s.ring s.producer
    pub consuming : Consuming s.ring s.consumer

pub Inv-start : {T : Type 0} (capacity : ℕ) (x : T) → 1 < capacity → Inv capacity (start x)
Inv-start capacity x h = record { valid = omega arith; flow = refl; producing = tt; consuming = tt }

increment_injective :
    (capacity i j : ℕ)
    → i < capacity
    → j < capacity
    → increment capacity i ≡ increment capacity j
    → i ≡ j
increment_injective capacity i j hi hj e =
    ground (arith, increment_cases capacity i hi, increment_cases capacity j hj)

module _ {T : Type 0} {capacity : ℕ} {s : System T} (inv : Inv capacity s) where
  open inv use {valid, flow, producing, consuming}

  pub Step-Inv : {t : System T} → Step capacity s t → Inv capacity t
  Step-Inv (load_head x e) = ground arith
  Step-Inv (see_full h x e full) = ground arith
  Step-Inv (count_drop e) = ground arith
  Step-Inv (see_space h x e space) = ground arith
  Step-Inv (write_slot h x e) = ground (arith, window-write valid x)
  Step-Inv (store_head h x e) = ground (
    arith,
    window-publish valid,
    increment_cases capacity s.ring.head valid.head_in,
    append_assoc s.received (contents capacity s.ring) (x ∷ []),
  )
  Step-Inv (load_tail e) = ground arith
  Step-Inv (see_empty t e empty) = ground arith
  Step-Inv (see_value t e some) = ground arith
  Step-Inv (read_slot t e) = ground arith
  Step-Inv (store_tail t x e) = ground (
    arith,
    window-pop valid,
    increment_cases capacity s.ring.tail valid.tail_in,
    increment_injective capacity s.ring.head s.ring.tail valid.head_in valid.tail_in,
    append_assoc s.received (x ∷ []) (
        window s.ring.slots capacity (increment capacity s.ring.tail)
          (distance capacity s.ring.head (increment capacity s.ring.tail))),
  )

-- Whatever the two threads do, the invariant holds.
pub Reach-Inv :
    {T : Type 0} {capacity : ℕ} {s t : System T}
    → Inv capacity s
    → Reach capacity s t
    → Inv capacity t
Reach-Inv inv here = inv
Reach-Inv inv (next r st) = Step-Inv (Reach-Inv inv r) st
