-- ===== src/Telemetry/Worker/Drain.antt =====
-- What `drain_loop` does with the frames that wait when the worker is stopped.
use neuro_kinetic.Base.{
  ℕ, zero, suc, ◌≡◌, ◌≤◌, refl, true, false, List, [], ◌∷◌, ◌++◌, length, arith, ap, ◌∙◌,
}
use neuro_kinetic.Double.{Double}
use neuro_kinetic.Ring.{SpscRingBuffer, KinematicTelemetryFrame, try_pop}
use neuro_kinetic.Ring.Queue.{dequeue}
use neuro_kinetic.Ring.Bounds.{IsValid, contents, distance_lt, try_pop-IsValid}
use neuro_kinetic.Ring.Refine.{try_pop_refines, length-contents}
use neuro_kinetic.Recorder.Bytes.{FloatBits}
use neuro_kinetic.Telemetry.{Numbers, TelemetryWorker, Export}
use neuro_kinetic.Telemetry.Worker.{
  queue_capacity, record_frame, drain_rest, stop, export_safety_event,
}

module _ {D F : Type 0} ⦃d : Double D⦄ ⦃f : Double F⦄ (numbers : Numbers D F)
    (fb : FloatBits F) where
  -- the frames of a list, one after the other
  unfoldable pub record_all :
      TelemetryWorker F → List (KinematicTelemetryFrame F) → TelemetryWorker F × List (Export F)
  record_all w [] = (w, [])
  record_all w (frame ∷ frames) =
      let (recorded, sent) = record_frame numbers fb w frame in
      let (done, later) = record_all recorded frames in (done, sent ++ later)

  -- recording leaves the queue alone and does not look at it
  record_frame-queue :
      (w : TelemetryWorker F) (q : SpscRingBuffer (KinematicTelemetryFrame F))
      (frame : KinematicTelemetryFrame F)
      → record_frame numbers fb (record w { queue = q }) frame ≡ (
        record (record_frame numbers fb w frame).0 { queue = q },
        (record_frame numbers fb w frame).1,
      )
  unfolding record_frame export_safety_event
  record_frame-queue w q frame = ground arith

  try_pop-drops :
      (q : SpscRingBuffer (KinematicTelemetryFrame F))
      → (try_pop queue_capacity q).1.drops ≡ q.drops
  unfolding try_pop
  try_pop-drops q = ground arith

  drain-eq :
      (n : ℕ) (w : TelemetryWorker F) (frames : List (KinematicTelemetryFrame F))
      → IsValid queue_capacity w.queue
      → contents queue_capacity w.queue ≡ frames
      → length frames ≤ n
      → (q : SpscRingBuffer (KinematicTelemetryFrame F)) × (contents queue_capacity q ≡ [])
        × (q.drops ≡ w.queue.drops)
        × (drain_rest numbers fb n w ≡ record_all (record w { queue = q }) frames)
  unfolding drain_rest record_all dequeue
  drain-eq zero w [] v c h = (w.queue, c, refl, refl)
  drain-eq zero w (x ∷ frames) v c h = absurd (omega arith)
  drain-eq (suc n) w [] v c h =
      let e = try_pop_refines v ∙ ap dequeue c in
      (w.queue, c, refl, rw (drain_rest, ap (λ p. p.0) e) refl)
  drain-eq (suc n) w (x ∷ frames) v c h =
      let e = try_pop_refines v ∙ ap dequeue c in
      let popped = (try_pop queue_capacity w.queue).1 in
      let recorded : TelemetryWorker F = record (record_frame numbers fb w x).0 {
        queue = popped;
      } in
      let (q, empty, kept, same) =
        drain-eq n recorded frames (try_pop-IsValid v) (ap (λ p. p.1) e) (omega arith) in
      (
        q,
        empty,
        kept ∙ try_pop-drops w.queue,
        rw
            (
              drain_rest,
              ap (λ p. p.0) e,
              record_frame-queue w popped x,
              record_frame-queue w q x,
              same,
            )
            refl,
      )

  -- Stopping a running worker loses no frame that waits: where the ring is valid and the producer is
  -- quiet, the frames in the queue are recorded, oldest first, within 4096 turns, and the queue is
  -- empty then, with the drops that it had counted.
  pub stop_drains :
      (w : TelemetryWorker F)
      → w.running ≡ true
      → IsValid queue_capacity w.queue
      → (q : SpscRingBuffer (KinematicTelemetryFrame F)) × (contents queue_capacity q ≡ [])
        × (q.drops ≡ w.queue.drops)
        × (stop numbers fb w
            ≡ record_all
                (record w { running = false; queue = q })
                (contents queue_capacity w.queue))
  unfolding stop
  stop_drains w on v =
      let few : length (contents queue_capacity w.queue) ≤ queue_capacity =
        omega (arith, length-contents v, distance_lt queue_capacity w.queue.head w.queue.tail) in
      let (q, empty, kept, same) =
        drain-eq queue_capacity (record w { running = false }) (contents queue_capacity w.queue) v
          refl few in
      (q, empty, kept, rw on same)
