-- ===== src/Logger/Tests.antt =====
-- A logger with two events.
use neuro_kinetic.Base.{List, ◌++◌, ℕ, ◌≡◌, refl, false, [], ◌∷◌, length, arith}
use neuro_kinetic.Ring as Ring
use neuro_kinetic.Ring.Bounds.{contents}
use neuro_kinetic.Recorder.Decimal.{to_decimal, digits}
use neuro_kinetic.Logger.{
  LogEvent, AsyncLogger, queue_capacity, new_logger, start, Step, log, turn, drain, drain_turn,
  try_log, stop, line, c_string, drain_rest,
}
use neuro_kinetic.Logger.Drain.{lines}
use neuro_kinetic.Logger.Printed.{accepted, drain_prints_accepted}

abbrev event : ℕ → LogEvent
event t = record { timestamp_ns = t; tag = b'A' ∷ 0 ∷ b'B' ∷ []; message = b'o' ∷ b'k' ∷ 0 ∷ [] }

abbrev waiting : AsyncLogger
waiting = (try_log (try_log (start new_logger).1 (event 5)).1 (event 12)).1

-- 44 characters for the first event and 45 for the second
two_lines : length (stop waiting).1 ≡ 89
unfolding stop drain_rest start try_log Ring.try_pop Ring.try_push line c_string to_decimal digits
two_lines = refl

-- The thread prints between the calls and after the stop.
abbrev steps : List Step
steps = log (event 7) ∷ turn ∷ log (event 9) ∷ turn ∷ turn ∷ log (event 11) ∷ []

drain_prints_accepted_example :
    let (done, text) = drain waiting steps in
    (text ≡ lines (contents queue_capacity waiting.queue ++ accepted waiting steps))
    × (contents queue_capacity done.queue ≡ [])
    × (done.running ≡ false)
unfolding start try_log Ring.try_push
drain_prints_accepted_example = drain_prints_accepted waiting steps refl (omega arith)

all_accepted : length (accepted waiting steps) ≡ 3
unfolding accepted start try_log drain_turn Ring.try_push Ring.try_pop
all_accepted = refl
