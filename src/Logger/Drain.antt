-- ===== src/Logger/Drain.antt =====
-- What the logger prints of the events that wait when it is stopped.
use neuro_kinetic.Base.{
  ℕ, zero, suc, ◌≡◌, ◌≤◌, refl, true, false, List, [], ◌∷◌, ◌++◌, length, arith, ap, ◌∙◌,
}
use neuro_kinetic.Ring.{try_pop}
use neuro_kinetic.Ring.Queue.{dequeue}
use neuro_kinetic.Ring.Bounds.{IsValid, contents, distance_lt, try_pop-IsValid}
use neuro_kinetic.Ring.Refine.{try_pop_refines, length-contents}
use neuro_kinetic.Logger.{LogEvent, AsyncLogger, queue_capacity, line, drain_rest, stop}

-- the lines of some events, one after the other
abbrev pub lines : List LogEvent → List ℕ
lines [] = []
lines (event ∷ events) = line event ++ lines events

drain-eq :
    (n : ℕ) (l : AsyncLogger) (events : List LogEvent)
    → IsValid queue_capacity l.queue
    → contents queue_capacity l.queue ≡ events
    → length events ≤ n
    → let (done, text) = drain_rest n l in
      (contents queue_capacity done.queue ≡ []) × (text ≡ lines events) × (done.running ≡ l.running)
unfolding drain_rest dequeue
drain-eq zero l [] v c h = (c, refl, refl)
drain-eq zero l (x ∷ events) v c h = absurd (omega arith)
drain-eq (suc n) l [] v c h =
    let none_left = ap (λ p. p.0) (try_pop_refines v ∙ ap dequeue c) in
    rw (drain_rest, none_left) (c, refl, refl)
drain-eq (suc n) l (x ∷ events) v c h =
    let e = try_pop_refines v ∙ ap dequeue c in
    let popped : AsyncLogger = record l { queue = (try_pop queue_capacity l.queue).1 } in
    let (empty, same, still) =
      drain-eq n popped events (try_pop-IsValid v) (ap (λ p. p.1) e) (omega arith) in
    rw (drain_rest, ap (λ p. p.0) e) (empty, ap (λ t. line x ++ t) same, still)

-- Stopping a running logger loses no event that waits: where the ring is valid and nobody logs any
-- more, the lines of the events in the queue are printed, oldest first, within 2048 turns; the queue is
-- empty then, and the logger is stopped.
pub stop_prints :
    (l : AsyncLogger)
    → l.running ≡ true
    → IsValid queue_capacity l.queue
    → let (done, text) = stop l in
      (contents queue_capacity done.queue ≡ [])
      × (text ≡ lines (contents queue_capacity l.queue))
      × (done.running ≡ false)
unfolding stop
stop_prints l on v =
    let few : length (contents queue_capacity l.queue) ≤ queue_capacity =
      omega (arith, length-contents v, distance_lt queue_capacity l.queue.head l.queue.tail) in
    rw on (
      drain-eq queue_capacity (record l { running = false }) (contents queue_capacity l.queue) v
        refl few)
