-- ===== src/Daemon/Sample.antt =====
-- The loop over numbers in millionths for `double` and `float`, with the recorder in memory.
use neuro_kinetic.Base.{ℕ, ◌+◌, ◌*◌, some, [], if◌then◌else◌, ◌==◌}
use neuro_kinetic.Base.Int.{pos_part}
use neuro_kinetic.Double.{nought}
use neuro_kinetic.Double.Micro.{Micro, micro_double}
use neuro_kinetic.Kernel.{LdltSolve}
use neuro_kinetic.Recorder.Bytes.{FloatBits}
use neuro_kinetic.Recorder.Store.{Memory}
use neuro_kinetic.Daemon.{Casts, Daemon, Inputs}
use neuro_kinetic.Daemon.Command.{CommandRead}
use neuro_kinetic.Daemon.Start.{boot}
use neuro_kinetic.Double.Nan.{nan_double}
open micro_double use {decimal, div}

abbrev pub same : Casts Micro Micro
same = record { to_float = λ x. x; of_float = λ x. x }

abbrev pub micro_bits : FloatBits Micro
micro_bits = record { bits = λ x. pos_part x.units; of_bits = λ w. decimal w 6 }

-- the solution of one equation
abbrev pub divide : LdltSolve Micro
divide n m rhs i = div (rhs i) (m i i)

abbrev pub blank : Memory
blank = record { interventions = []; telemetry = []; other = [] }

-- at the start, with the recorder open
abbrev pub started : Daemon Memory Micro Micro
started = boot (some blank) 1_000_000

-- a command of 30 Nm for joint 5, in a consistent read
abbrev pub command : ℕ → CommandRead Micro
command flags = record {
  cmd_seq1 = 4;
  nominal_torques = λ i. if i == 5 then decimal 300 1 else nought;
  command_flags = flags;
  obstacle_safety_margin = decimal 900 2;
  cmd_seq2 = 4;
}

-- a round that starts `ms` milliseconds after 0
abbrev pub round : ℕ → ℕ → CommandRead Micro → Inputs Micro Micro
round ms heartbeat c = record {
  tick_start_ns = ms * 1_000_000;
  heartbeat_python = heartbeat;
  command = c;
  solve_time_us = decimal 12 0;
  current_ts = ms * 1_000_000 + 7;
  loop_duration_us = decimal 40 0;
}
