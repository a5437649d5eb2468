-- ===== src/Logger.antt =====
-- src/logger.cpp and include/neurokinetic/telemetry/logger.hpp: `class AsyncLogger`, whose thread prints
-- the events of a ring.
pub mod Drain
pub mod Printed
mod Tests
use neuro_kinetic.Base.{
  ℕ, zero, suc, ◌==◌, Bool, true, false, if◌then◌else◌, Option, none, some, List, [], ◌∷◌, ◌++◌,
  take,
}
use neuro_kinetic.Ring.{SpscRingBuffer, fresh}
use neuro_kinetic.Ring as Ring
use neuro_kinetic.Recorder.Decimal.{to_decimal}

-- `struct LogEvent`; the two arrays of characters are lists of bytes.
pub record LogEvent : Type 0 where
  pub timestamp_ns : ℕ
  pub tag : List ℕ
  pub message : List ℕ

-- `class AsyncLogger` without its thread
pub record AsyncLogger : Type 0 where
  pub queue : SpscRingBuffer LogEvent
  pub running : Bool

-- the capacity of `queue_`
abbrev pub queue_capacity : ℕ
queue_capacity = 2048

abbrev pub new_logger : AsyncLogger
new_logger = record {
  queue = fresh (record { timestamp_ns = 0; tag = []; message = [] });
  running = false;
}

-- The result is whether this call starts the thread.
unfoldable pub start : AsyncLogger → Bool × AsyncLogger
start l = if l.running then (false, l) else (true, record l { running = true })

unfoldable pub try_log : AsyncLogger → LogEvent → Bool × AsyncLogger
try_log l event =
    let (done, queue) = Ring.try_push queue_capacity l.queue event in
    (done, record l { queue = queue })

-- the characters of an array that are printed: those in front of the first NUL
unfoldable pub c_string : List ℕ → List ℕ
c_string [] = []
c_string (c ∷ rest) = if c == 0 then [] else c ∷ c_string rest

-- `{"timestamp_ns":`, `,"tag":"`, `","message":"` and `"}` with a line feed
abbrev pub opening : List ℕ
opening =
    b'{' ∷ b'"' ∷ b't' ∷ b'i' ∷ b'm' ∷ b'e' ∷ b's' ∷ b't' ∷ b'a' ∷ b'm' ∷ b'p' ∷ b'_' ∷ b'n' ∷ b's'
    ∷ b'"' ∷ b':' ∷ []

abbrev pub before_tag : List ℕ
before_tag = b',' ∷ b'"' ∷ b't' ∷ b'a' ∷ b'g' ∷ b'"' ∷ b':' ∷ b'"' ∷ []

abbrev pub before_message : List ℕ
before_message =
    b'"' ∷ b',' ∷ b'"' ∷ b'm' ∷ b'e' ∷ b's' ∷ b's' ∷ b'a' ∷ b'g' ∷ b'e' ∷ b'"' ∷ b':' ∷ b'"' ∷ []

abbrev pub closing : List ℕ
closing = b'"' ∷ b'}' ∷ 10 ∷ []

-- what is printed of an event
unfoldable pub line : LogEvent → List ℕ
line event =
    opening
    ++ (to_decimal event.timestamp_ns
        ++ (before_tag
            ++ (c_string event.tag ++ (before_message ++ (c_string event.message ++ closing)))))

-- One turn of the first loop of `drain`, with what it prints.
unfoldable pub drain_turn : AsyncLogger → AsyncLogger × List ℕ
drain_turn l =
    let (out, queue) = Ring.try_pop queue_capacity l.queue in
    elim out [ none ↦ (l, []) | some event ↦ (record l { queue = queue }, line event) ]

-- The second loop of `drain`, for as many turns as the first argument says.
unfoldable pub drain_rest : ℕ → AsyncLogger → AsyncLogger × List ℕ
drain_rest zero l = (l, [])
drain_rest (suc turns) l =
    let (out, queue) = Ring.try_pop queue_capacity l.queue in
    elim out [
      | none ↦ (l, [])
      | some event ↦
          let (done, later) = drain_rest turns (record l { queue = queue }) in
          (done, line event ++ later)
    ]

-- `stop`, where nobody logs any more: `join` waits for the second loop.
unfoldable pub stop : AsyncLogger → AsyncLogger × List ℕ
stop l = if l.running then drain_rest queue_capacity (record l { running = false }) else (l, [])

-- What happens while the logger runs: a caller logs an event, or its thread takes a turn.
pub data Step : Type 0 where
  log : LogEvent → Step
  turn : Step

-- the first loop of `drain`, with the calls of `try_log` beside it
unfoldable pub run_steps : AsyncLogger → List Step → AsyncLogger × List ℕ
run_steps l [] = (l, [])
run_steps l (log event ∷ steps) = run_steps (try_log l event).1 steps
run_steps l (turn ∷ steps) =
    let (turned, text) = drain_turn l in
    let (done, later) = run_steps turned steps in (done, text ++ later)

-- `drain`, where the logger is stopped behind the steps
unfoldable pub drain : AsyncLogger → List Step → AsyncLogger × List ℕ
drain l steps =
    let (before, text) = run_steps l steps in let (done, rest) = stop before in (done, text ++ rest)
