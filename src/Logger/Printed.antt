-- ===== src/Logger/Printed.antt =====
-- What the logger prints in all, from the callers of `try_log` to the output.
use neuro_kinetic.Base.{
  ◌≡◌, refl, true, false, Bool, if◌then◌else◌, List, [], ◌∷◌, ◌++◌, append_assoc, append-nil, arith,
  ap, sym, ◌∙◌,
}
use neuro_kinetic.Ring.Queue.{enqueue, dequeue}
use neuro_kinetic.Ring.Bounds.{IsValid, contents, try_push-IsValid, try_pop-IsValid}
use neuro_kinetic.Ring.Refine.{try_push_refines, try_pop_refines}
use neuro_kinetic.Logger.{
  LogEvent, AsyncLogger, Step, log, turn, queue_capacity, line, try_log, drain_turn, run_steps,
  drain,
}
use neuro_kinetic.Logger.Drain.{lines, stop_prints}

-- the events for which `try_log` returns `true`, in their order
unfoldable pub accepted : AsyncLogger → List Step → List LogEvent
accepted l [] = []
accepted l (log event ∷ steps) =
    let rest = accepted (try_log l event).1 steps in
    if (try_log l event).0 then event ∷ rest else rest
accepted l (turn ∷ steps) = accepted (drain_turn l).0 steps

-- the events that wait
abbrev waiting_in : AsyncLogger → List LogEvent
waiting_in l = contents queue_capacity l.queue

lines-append : (xs ys : List LogEvent) → lines (xs ++ ys) ≡ lines xs ++ lines ys
lines-append [] ys = refl
lines-append (x ∷ xs) ys =
    ap (λ t. line x ++ t) (lines-append xs ys) ∙ sym (append_assoc (line x) (lines xs) (lines ys))

try_log-waiting :
    (l : AsyncLogger) (event : LogEvent)
    → IsValid queue_capacity l.queue
    → waiting_in (try_log l event).1
      ≡ (if (try_log l event).0 then waiting_in l ++ (event ∷ []) else waiting_in l)
unfolding try_log enqueue
try_log-waiting l event v = ground (arith, try_push_refines v event)

turn-eq :
    (l : AsyncLogger) (events : List LogEvent)
    → IsValid queue_capacity l.queue
    → waiting_in l ≡ events
    → let (turned, text) = drain_turn l in
      IsValid queue_capacity turned.queue
      × (turned.running ≡ l.running)
      × (text ++ lines (waiting_in turned) ≡ lines (waiting_in l))
unfolding drain_turn dequeue
turn-eq l [] v c =
    let none_left = ap (λ p. p.0) (try_pop_refines v ∙ ap dequeue c) in
    rw (drain_turn, none_left) (v, refl, refl)
turn-eq l (x ∷ events) v c =
    let e = try_pop_refines v ∙ ap dequeue c in
    rw (drain_turn, ap (λ p. p.0) e)
      (try_pop-IsValid v, refl, ap (λ p. line x ++ lines p.1) e ∙ sym (ap lines c))

put_last :
    (done : Bool) (event : LogEvent) (w rest : List LogEvent)
    → (if done then w ++ (event ∷ []) else w) ++ rest ≡ w ++ (if done then event ∷ rest else rest)
put_last true event w rest = append_assoc w (event ∷ []) rest
put_last false event w rest = refl

try_log-kept :
    (l : AsyncLogger) (event : LogEvent)
    → IsValid queue_capacity l.queue
    → IsValid queue_capacity (try_log l event).1.queue × ((try_log l event).1.running ≡ l.running)
unfolding try_log
try_log-kept l event v = (try_push-IsValid v event, refl)

-- what is printed and what waits are what waited and what was accepted
run_steps-waiting :
    (l : AsyncLogger) (steps : List Step)
    → IsValid queue_capacity l.queue
    → let (done, text) = run_steps l steps in
      IsValid queue_capacity done.queue
      × (done.running ≡ l.running)
      × (text ++ lines (waiting_in done) ≡ lines (waiting_in l ++ accepted l steps))
unfolding run_steps accepted
run_steps-waiting l [] v = (v, refl, ap lines (sym (append-nil (waiting_in l))))
run_steps-waiting l (log event ∷ steps) v =
    let (valid, running) = try_log-kept l event v in
    let rest = accepted (try_log l event).1 steps in
    let (still, same, all) = run_steps-waiting (try_log l event).1 steps valid in
    (
      still,
      same ∙ running,
      all
          ∙ ap (λ w. lines (w ++ rest)) (try_log-waiting l event v)
          ∙ ap lines (put_last (try_log l event).0 event (waiting_in l) rest),
    )
run_steps-waiting l (turn ∷ steps) v =
    let (valid, running, printed) = turn-eq l (waiting_in l) v refl in
    let (turned, text) = drain_turn l in
    let (still, same, all) = run_steps-waiting turned steps valid in
    let (done, later) = run_steps turned steps in
    (
      still,
      same ∙ running,
      append_assoc text later (lines (waiting_in done))
          ∙ ap (λ t. text ++ t) (all ∙ lines-append (waiting_in turned) (accepted turned steps))
          ∙ sym (append_assoc text (lines (waiting_in turned)) (lines (accepted turned steps)))
          ∙ ap (λ t. t ++ lines (accepted turned steps)) printed
          ∙ sym (lines-append (waiting_in l) (accepted turned steps)),
    )

-- The logger prints all that it accepts, once and in order: let a running logger with a valid ring take
-- any calls of `try_log` and turns of its thread, in any order, and then be stopped. Then it has printed
-- the lines of the events that waited at the start and of those for which `try_log` returned `true`,
-- in the order of the calls, whatever the turns were; its queue is empty, and it is stopped.
pub drain_prints_accepted :
    (l : AsyncLogger) (steps : List Step)
    → l.running ≡ true
    → IsValid queue_capacity l.queue
    → let (done, text) = drain l steps in
      (text ≡ lines (contents queue_capacity l.queue ++ accepted l steps))
      × (contents queue_capacity done.queue ≡ [])
      × (done.running ≡ false)
unfolding drain
drain_prints_accepted l steps on v =
    let (valid, same, all) = run_steps-waiting l steps v in
    let (before, text) = run_steps l steps in
    let (empty, rest, stopped) = stop_prints before (same ∙ on) valid in
    (ap (λ t. text ++ t) rest ∙ all, empty, stopped)
