-- ===== src/Telemetry/Worker/Exports.antt =====
-- What a turn and the end of the worker export of the frames that wait.
use neuro_kinetic.Base.{
  subst, ◌==◌, ◌≡◌, refl, Bool, true, false, if◌then◌else◌, List, [], ◌∷◌, ◌++◌, append_assoc,
  append-nil, arith, ap, sym, ◌∙◌,
}
use neuro_kinetic.Double.{Double}
use neuro_kinetic.Ring.{KinematicTelemetryFrame, SpscRingBuffer, try_pop}
use neuro_kinetic.Ring.Queue.{enqueue, dequeue}
use neuro_kinetic.Ring.Bounds.{IsValid, contents, try_push-IsValid, try_pop-IsValid}
use neuro_kinetic.Ring.Refine.{try_push_refines, try_pop_refines}
use neuro_kinetic.Recorder.Bytes.{FloatBits}
use neuro_kinetic.Telemetry.{Numbers, TelemetryWorker, trace_event, json_event}
use neuro_kinetic.Telemetry.Worker.{queue_capacity, try_push, record_frame, drain_turn, stop}
use neuro_kinetic.Telemetry.Worker.Drain.{stop_drains}
use neuro_kinetic.Telemetry.Worker.Totals.{events, record_frame-sent, record_all-exports}
use neuro_kinetic.Telemetry.Worker.Accounts.{record_frame-kept}
use neuro_kinetic.Ring as Ring

-- the frames that wait
abbrev pub waiting_in : {F : Type 0} → TelemetryWorker F → List (KinematicTelemetryFrame F)
waiting_in w = contents queue_capacity w.queue

pub events-append :
    {F : Type 0} (xs ys : List (KinematicTelemetryFrame F))
    → events (xs ++ ys) ≡ events xs ++ events ys
unfolding events
events-append [] ys = refl
events-append (x ∷ xs) ys =
    ap (λ t. (if x.safety_flags == 0 then [] else trace_event x ∷ json_event x ∷ []) ++ t)
      (events-append xs ys)
    ∙ sym (
        append_assoc (if x.safety_flags == 0 then [] else trace_event x ∷ json_event x ∷ [])
          (events xs) (events ys))

put_last :
    {A : Type 0} (done : Bool) (x : A) (w : List A)
    → (if done then w ++ (x ∷ []) else w) ≡ w ++ (if done then x ∷ [] else [])
put_last true x w = refl
put_last false x w = sym (append-nil w)

module _ {D F : Type 0} ⦃d : Double D⦄ ⦃f : Double F⦄ (numbers : Numbers D F)
    (fb : FloatBits F) where
  -- a running worker with a valid ring
  pub record IsWorking (w : TelemetryWorker F) : Type 0 where
    pub valid : IsValid queue_capacity w.queue
    pub running : w.running ≡ true

  ring_push-waiting :
      (q : SpscRingBuffer (KinematicTelemetryFrame F)) (x : KinematicTelemetryFrame F)
      → IsValid queue_capacity q
      → contents queue_capacity (Ring.try_push queue_capacity q x).1 ≡ (
          if (Ring.try_push queue_capacity q x).0
          then contents queue_capacity q ++ (x ∷ [])
          else contents queue_capacity q)
  unfolding enqueue
  ring_push-waiting q x v = ground (arith, try_push_refines v x)

  pub push-waiting :
      (w : TelemetryWorker F) (x : KinematicTelemetryFrame F)
      → IsWorking w
      → IsWorking (try_push w x).1
        × (waiting_in (try_push w x).1
            ≡ (waiting_in w ++ (if (try_push w x).0 then x ∷ [] else [])))
  unfolding try_push
  push-waiting w x h = (
    record { valid = try_push-IsValid h.valid x; running = h.running },
    ring_push-waiting w.queue x h.valid
        ∙ put_last (Ring.try_push queue_capacity w.queue x).0 x (waiting_in w),
  )

  pub turn-eq :
      (w : TelemetryWorker F) (frames : List (KinematicTelemetryFrame F))
      → IsWorking w
      → waiting_in w ≡ frames
      → IsWorking (drain_turn numbers fb w).0
        × ((drain_turn numbers fb w).1 ++ events (waiting_in (drain_turn numbers fb w).0)
            ≡ events (waiting_in w))
  unfolding drain_turn dequeue events
  turn-eq w [] h c =
      let none_left = ap (λ p. p.0) (try_pop_refines h.valid ∙ ap dequeue c) in
      rw (drain_turn, none_left) (h, refl)
  turn-eq w (x ∷ frames) h c =
      let e = try_pop_refines h.valid ∙ ap dequeue c in
      let popped : TelemetryWorker F = record w { queue = (try_pop queue_capacity w.queue).1 } in
      let (queue, running) = record_frame-kept numbers fb popped x in
      rw (drain_turn, ap (λ p. p.0) e)
        (
          record {
            valid = subst (IsValid queue_capacity) (sym queue) (try_pop-IsValid h.valid);
            running = running ∙ h.running;
          },
          ap (λ q. (record_frame numbers fb popped x).1 ++ events (contents queue_capacity q)) queue
              ∙ ap (λ p. (record_frame numbers fb popped x).1 ++ events p.1) e
              ∙ ap (λ t. t ++ events frames) (record_frame-sent numbers fb popped x)
              ∙ sym (ap events c),
        )

  pub stop-sent :
      (w : TelemetryWorker F) → IsWorking w → (stop numbers fb w).1 ≡ events (waiting_in w)
  stop-sent w h =
      let (q, empty, kept, same) = stop_drains numbers fb w h.running h.valid in
      ap (λ p. p.1) same
      ∙ record_all-exports numbers fb (record w { running = false; queue = q }) (waiting_in w)
