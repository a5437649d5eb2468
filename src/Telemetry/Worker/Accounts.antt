-- ===== src/Telemetry/Worker/Accounts.antt =====
-- No frame that is pushed leaves the accounts of the worker: it waits, is recorded, or is counted as
-- dropped.
use neuro_kinetic.Base.{
  ℕ, ◌+◌, ◌%◌, ◌^◌, ◌≡◌, ◌<◌, refl, true, false, none, some, List, [], ◌∷◌, length, arith,
  Option-cases, inl, inr, ap, ◌∙◌,
}
use neuro_kinetic.Double.{Double}
use neuro_kinetic.Ring.{SpscRingBuffer, KinematicTelemetryFrame}
use neuro_kinetic.Ring as Ring
use neuro_kinetic.Ring.Bounds.{
  IsValid, contents, distance-push, distance-pop, try_push-IsValid, try_pop-IsValid,
}
use neuro_kinetic.Ring.Refine.{length-contents}
use neuro_kinetic.Recorder.Bytes.{FloatBits}
use neuro_kinetic.Telemetry.{Numbers, TelemetryWorker}
use neuro_kinetic.Telemetry.Worker.{
  queue_capacity, try_push, record_frame, export_safety_event, drain_turn, stop,
}
use neuro_kinetic.Telemetry.Worker.Drain.{record_all, stop_drains}
use neuro_kinetic.Telemetry.Worker.Totals.{record_frame-samples, samples-record_all}

-- the frames that were recorded, those that wait, and those that were dropped
abbrev pub accounted : {F : Type 0} → TelemetryWorker F → ℕ
accounted w = w.loop_samples + length (contents queue_capacity w.queue) + w.queue.drops

-- The indices of the queue and the two counters are in range.
pub record IsSound {F : Type 0} (w : TelemetryWorker F) : Type 0 where
  pub valid : IsValid queue_capacity w.queue
  pub samples_in : w.loop_samples < 2 ^ 64
  pub drops_in : w.queue.drops < 2 ^ 64

module _ {T : Type 0} {capacity : ℕ} {r : SpscRingBuffer T} (v : IsValid capacity r) where
  open v use {head_in, tail_in}

  ring_push-accounts :
      (x : T)
      → let q = (Ring.try_push capacity r x).1 in
        (length (contents capacity q) + q.drops) % 2 ^ 64
        ≡ (length (contents capacity r) + r.drops + 1) % 2 ^ 64
  unfolding Ring.try_push
  ring_push-accounts x = ground (
    arith,
    length-contents v,
    length-contents (try_push-IsValid v x),
    distance-push capacity r.head r.tail head_in tail_in,
  )

  ring_pop-accounts :
      let q = (Ring.try_pop capacity r).1 in
      (q.drops ≡ r.drops)
      × (length (contents capacity r)
          ≡ length (contents capacity q)
            + elim (Ring.try_pop capacity r).0 [ none ↦ 0 | some x ↦ 1 ])
  unfolding Ring.try_pop
  ring_pop-accounts = ground (
    arith,
    length-contents v,
    length-contents (try_pop-IsValid v),
    distance-pop capacity r.head r.tail head_in tail_in,
  )

ring_push-drops :
    {T : Type 0} (capacity : ℕ) (r : SpscRingBuffer T) (x : T)
    → r.drops < 2 ^ 64
    → (Ring.try_push capacity r x).1.drops < 2 ^ 64
unfolding Ring.try_push
ring_push-drops capacity r x h = ground arith

module _ {F : Type 0} {w : TelemetryWorker F} (s : IsSound w) where
  open s use {valid, samples_in, drops_in}

  -- A push moves the accounts on by one frame, whether it is taken or dropped.
  pub try_push-accounts :
      (x : KinematicTelemetryFrame F)
      → let w' = (try_push w x).1 in
        IsSound w' × (accounted w' % 2 ^ 64 ≡ (accounted w + 1) % 2 ^ 64)
  unfolding try_push
  try_push-accounts x = (
    record {
      valid = try_push-IsValid valid x;
      samples_in = samples_in;
      drops_in = ring_push-drops queue_capacity w.queue x drops_in;
    },
    omega (arith, ring_push-accounts valid x),
  )

module _ {D F : Type 0} ⦃d : Double D⦄ ⦃f : Double F⦄ (numbers : Numbers D F)
    (fb : FloatBits F) where
  pub record_frame-kept :
      (w : TelemetryWorker F) (x : KinematicTelemetryFrame F)
      → let w' = (record_frame numbers fb w x).0 in (w'.queue ≡ w.queue) × (w'.running ≡ w.running)
  unfolding record_frame export_safety_event
  record_frame-kept w x = ground arith

  record_all-kept :
      (w : TelemetryWorker F) (xs : List (KinematicTelemetryFrame F))
      → let w' = (record_all numbers fb w xs).0 in (w'.queue ≡ w.queue) × (w'.running ≡ w.running)
  unfolding record_all
  record_all-kept w [] = (refl, refl)
  record_all-kept w (x ∷ xs) =
      let (queue, running) = record_frame-kept w x in
      let (queues, still) = record_all-kept (record_frame numbers fb w x).0 xs in
      (queues ∙ queue, still ∙ running)

  record_frame-accounts :
      {w : TelemetryWorker F}
      → IsSound w
      → (x : KinematicTelemetryFrame F)
      → let w' = (record_frame numbers fb w x).0 in
        IsSound w' × (accounted w' % 2 ^ 64 ≡ (accounted w + 1) % 2 ^ 64) × (w'.running ≡ w.running)
  record_frame-accounts {w} s x =
      let (queue, running) = record_frame-kept w x in
      let counted = record_frame-samples numbers fb w x in
      (
        record {
          valid = rw queue s.valid;
          samples_in = omega (arith, counted);
          drops_in = rw queue s.drops_in;
        },
        rw queue (omega (arith, counted)),
        running,
      )

  module _ {w : TelemetryWorker F} (s : IsSound w) where
    open s use {valid, samples_in, drops_in}

    -- A turn of the worker leaves the accounts as they are.
    pub drain_turn-accounts :
        let w' = (drain_turn numbers fb w).0 in
        IsSound w' × (accounted w' % 2 ^ 64 ≡ accounted w % 2 ^ 64) × (w'.running ≡ w.running)
    unfolding drain_turn
    drain_turn-accounts =
        let (kept, less) = ring_pop-accounts valid in
        elim (Option-cases (Ring.try_pop queue_capacity w.queue).0) [
          | inl e ↦ rw (drain_turn, e) (s, refl, refl)
          | inr (x, e) ↦
              let popped : IsSound (record w { queue = (Ring.try_pop queue_capacity w.queue).1 }) =
                record {
                  valid = try_pop-IsValid valid;
                  samples_in = samples_in;
                  drops_in = rw kept drops_in;
                } in
              let (sound, sum, running) = record_frame-accounts popped x in
              rw (drain_turn, e) (sound, omega (arith, sum, kept, rw e at less), running)
        ]

    -- After `stop` of a running worker nothing waits.
    pub stop-accounts :
        w.running ≡ true
        → let w' = (stop numbers fb w).0 in
          (contents queue_capacity w'.queue ≡ [])
          × (w'.running ≡ false)
          × ((w'.loop_samples + w'.queue.drops) % 2 ^ 64 ≡ accounted w % 2 ^ 64)
    stop-accounts on =
        let (q, empty, kept, same) = stop_drains numbers fb w on valid in
        let waiting = contents queue_capacity w.queue in
        let (queue, running) = record_all-kept (record w { running = false; queue = q }) waiting in
        let samples =
          samples-record_all numbers fb (record w { running = false; queue = q }) waiting
            samples_in in
        rw same (
          ap (contents queue_capacity) queue ∙ empty,
          running,
          omega (arith, samples, kept, ap (λ r. r.drops) queue),
        )
