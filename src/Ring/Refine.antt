-- ===== src/Ring/Refine.antt =====
-- The ring behaves as the bounded queue of its contents.
use neuro_kinetic.Base.{
  ℕ, ◌-◌, ◌≡◌, refl, ◌≢◌, List, [], ◌∷◌, ◌++◌, arith, length, update, update_self, ap, ap₂, ◌∙◌,
}
use neuro_kinetic.Ring.{SpscRingBuffer, Op, push, pop, increment, try_push, try_pop, run}
use neuro_kinetic.Ring.Queue.{enqueue, dequeue, serve}
use neuro_kinetic.Ring.Bounds.{
  IsValid, distance, window, contents, length-window, distance-push, distance-pop, distance_full,
  increment_cases, distance_lt, window-update, window-snoc, try_push-IsValid, try_pop-IsValid,
}

module _ {T : Type 0} {capacity : ℕ} {r : SpscRingBuffer T} (v : IsValid capacity r) where
  open v use {head_in, tail_in}

  pub length-contents : length (contents capacity r) ≡ distance capacity r.head r.tail
  length-contents = length-window r.slots capacity r.tail (distance capacity r.head r.tail)

  -- Moving `head` on appends the value of the slot that it leaves.
  pub window-publish :
      increment capacity r.head ≢ r.tail
      → window r.slots capacity r.tail (distance capacity (increment capacity r.head) r.tail)
        ≡ contents capacity r ++ (r.slots r.head ∷ [])
  window-publish ne =
      ap (window r.slots capacity r.tail) (distance-push capacity r.head r.tail head_in tail_in ne)
      ∙ window-snoc r.slots capacity r.head head_in _ r.tail tail_in refl

  -- A write at `head` leaves the contents alone.
  pub window-write :
      (x : T)
      → window (update r.slots r.head x) capacity r.tail (distance capacity r.head r.tail)
        ≡ contents capacity r
  window-write x = window-update r.slots capacity r.head head_in x _ r.tail tail_in refl

  pub window-pop :
      r.tail ≢ r.head
      → contents capacity r
        ≡ r.slots r.tail
          ∷ window r.slots capacity
              (increment capacity r.tail)
              (distance capacity r.head (increment capacity r.tail))
  window-pop ne =
      ap (window r.slots capacity r.tail) (distance-pop capacity r.head r.tail head_in tail_in ne)

module _ {T : Type 0} {capacity : ℕ} {r : SpscRingBuffer T} (v : IsValid capacity r) where
  open v use {head_in, tail_in}

  window-push :
      (x : T)
      → increment capacity r.head ≢ r.tail
      → window
          (update r.slots r.head x)
          capacity
          r.tail
          (distance capacity (increment capacity r.head) r.tail)
        ≡ contents capacity r ++ (x ∷ [])
  window-push x ne =
      let stored : SpscRingBuffer T = record r { slots = update r.slots r.head x } in
      let w : IsValid capacity stored = omega arith in
      window-publish w ne
      ∙ ap₂ (λ q y. q ++ (y ∷ [])) (window-write v x) (update_self r.slots r.head x)

  -- In a valid ring `try_push` answers as the queue of `capacity - 1` values does, and leaves the ring
  -- holding that queue.
  pub try_push_refines :
      (x : T)
      → let (done, r') = try_push capacity r x in
        (done, contents capacity r') ≡ enqueue (capacity - 1) (contents capacity r) x
  unfolding try_push enqueue
  try_push_refines x = ground (
    arith,
    length-contents v,
    distance_full capacity r.head r.tail head_in tail_in,
    distance-push capacity r.head r.tail head_in tail_in,
    distance_lt capacity (increment capacity r.head) r.tail,
    increment_cases capacity r.head head_in,
    window-push x,
  )

  -- In a valid ring `try_pop` gives the oldest value of the queue, or none of an empty one, and leaves
  -- the ring holding the rest.
  pub try_pop_refines :
      let (out, r') = try_pop capacity r in
      (out, contents capacity r') ≡ dequeue (contents capacity r)
  unfolding try_pop dequeue
  try_pop_refines =
      ground (
        arith,
        window-pop v,
        length-contents v,
        distance-pop capacity r.head r.tail head_in tail_in,
      )

-- No sequence of calls tells a valid ring from the queue of `capacity - 1` values: every reply is the
-- queue's, so values come out in the order in which they went in, and a push fails just when the queue
-- is full.
pub run_refines :
    {T : Type 0} {capacity : ℕ} (ops : List (Op T)) {r : SpscRingBuffer T}
    → IsValid capacity r
    → run capacity r ops ≡ serve (capacity - 1) (contents capacity r) ops
unfolding run serve
run_refines [] v = refl
run_refines (push x ∷ ops) v = rw (run_refines ops (try_push-IsValid v x), ← try_push_refines v x)
run_refines (pop ∷ ops) v = rw (run_refines ops (try_pop-IsValid v), ← try_pop_refines v)
