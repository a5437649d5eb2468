-- ===== src/Ring.antt =====
-- include/neurokinetic/telemetry/spsc_ring_buffer.hpp: the single-producer single-consumer ring.
-- The array is a function of the index, so `Ring.Bounds` shows which indices are used. A method that
-- changes the object returns the new object beside its result.
pub mod Queue
pub mod Bounds
pub mod Refine
pub mod Drops
pub mod Threads
mod Tests
use neuro_kinetic.Base.{
  ℕ, ◌+◌, ◌%◌, Bool, true, false, Option, none, some, List, [], ◌∷◌, ◌==◌, if◌then◌else◌, update,
}
use neuro_kinetic.Base.Word.{add64}

-- `struct KinematicTelemetryFrame`, over the type of `float`
pub record KinematicTelemetryFrame (F : Type 0) : Type 0 where
  pub timestamp_ns : ℕ
  pub loop_duration_us : F
  pub condition_number : F
  pub max_torque_saturation_ratio : F
  pub safety_flags : ℕ

-- `class SpscRingBuffer`; the template parameter `Capacity` is an argument of the methods.
pub record SpscRingBuffer (T : Type 0) : Type 0 where
  pub slots : ℕ → T
  pub head : ℕ
  pub tail : ℕ
  pub drops : ℕ

-- A call of a client, and what it sees of it: whether it succeeded, and the value popped.
pub data Op (T : Type 0) : Type 0 where
  push : T → Op T
  pop : Op T

pub data Reply (T : Type 0) : Type 0 where
  pushed : Bool → Reply T
  popped : Option T → Reply T

module _ {T : Type 0} where
  -- `SpscRingBuffer{}`: the slots are value-initialised, the three counters are 0.
  abbrev pub fresh : T → SpscRingBuffer T
  fresh zero_value = record { slots = λ _. zero_value; head = 0; tail = 0; drops = 0 }

  unfoldable pub dropped : SpscRingBuffer T → ℕ
  dropped r = r.drops

abbrev pub increment : ℕ → ℕ → ℕ
increment capacity index = (index + 1) % capacity

module _ {T : Type 0} (capacity : ℕ) where
  unfoldable pub try_push : SpscRingBuffer T → T → Bool × SpscRingBuffer T
  try_push r value =
      let next = increment capacity r.head in
      if next == r.tail
      then (false, record r { drops = add64 r.drops 1 })
      else (true, record r { slots = update r.slots r.head value; head = next })

  -- `none` is the result `false`, with the argument `value` left alone.
  unfoldable pub try_pop : SpscRingBuffer T → Option T × SpscRingBuffer T
  try_pop r =
      if r.tail == r.head
      then (none, r)
      else (some (r.slots r.tail), record r { tail = increment capacity r.tail })

  -- The replies to a sequence of calls.
  pub run : SpscRingBuffer T → List (Op T) → List (Reply T)
  run r [] = []
  run r (push x ∷ ops) = let (done, r') = try_push r x in pushed done ∷ run r' ops
  run r (pop ∷ ops) = let (out, r') = try_pop r in popped out ∷ run r' ops

  -- The ring after a sequence of calls.
  pub after : SpscRingBuffer T → List (Op T) → SpscRingBuffer T
  after r [] = r
  after r (push x ∷ ops) = after (try_push r x).1 ops
  after r (pop ∷ ops) = after (try_pop r).1 ops
