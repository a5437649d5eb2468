-- ===== src/Daemon/Session/Tests.antt =====
-- A session over numbers in millionths.
mod Replay
use neuro_kinetic.Base.{ℕ, ◌+◌, ◌%◌, ◌^◌, ◌≡◌, refl, true, false, some, none, [], ◌∷◌, ◌/◌}
use neuro_kinetic.Base.Int.{pos_part}
use neuro_kinetic.Double.Micro.{Micro, micro_double}
use neuro_kinetic.Kernel.{LdltSolve}
use neuro_kinetic.Ring.Bounds.{contents}
use neuro_kinetic.Recorder.Bytes.{FloatBits}
use neuro_kinetic.Recorder.Store.{Memory, memory_db}
use neuro_kinetic.Telemetry.{Numbers}
use neuro_kinetic.Telemetry.Worker.{queue_capacity}
use neuro_kinetic.Daemon.{Casts, Inputs}
use neuro_kinetic.Daemon.Session.{
  round, worker_turn, signal, Session, Host, main, begin, truncate_shm,
}
use neuro_kinetic.Daemon.Session.Accounts.{main_accounts}
use neuro_kinetic.Telemetry.Worker.Totals.{events}
use neuro_kinetic.Daemon.Session.Exports.{pushed, flagged_rounds_exported}
open micro_double use {decimal, div}

abbrev casts : Casts Micro Micro
casts = record { to_float = λ x. x; of_float = λ x. x }

abbrev numbers : Numbers Micro Micro
numbers = record {
  to_u64 = λ x. pos_part x.units / 1_000_000;
  double_to_u64 = λ x. pos_part x.units / 1_000_000;
  of_u64 = λ n. decimal n 0;
}

abbrev micro_bits : FloatBits Micro
micro_bits = record { bits = λ x. pos_part x.units; of_bits = λ w. decimal w 6 }

abbrev divide : LdltSolve Micro
divide n m rhs i = div (rhs i) (m i i)

-- a round that starts `ms` milliseconds after 0 and reads 30 Nm for joint 5
abbrev pushing : ℕ → Inputs Micro Micro
pushing ms = record {
  tick_start_ns = ms;
  heartbeat_python = 1;
  command = record {
    cmd_seq1 = 4;
    nominal_torques = λ i. decimal 10 1;
    command_flags = 1;
    obstacle_safety_margin = decimal 8 2;
    cmd_seq2 = 4;
  };
  solve_time_us = decimal 12 0;
  current_ts = ms;
  loop_duration_us = decimal 40 0;
}

-- Two rounds, a turn of the worker, a signal, and a round that comes too late.
abbrev host : Host Memory Micro Micro
host = record {
  open_ok = true;
  truncate_ok = true;
  map_ok = true;
  opened = some (record { interventions = []; telemetry = []; other = [] });
  start_ns = 0;
  events = round (pushing 2) ∷ worker_turn ∷ round (pushing 4) ∷ signal ∷ round (pushing 6) ∷ [];
}

main_accounts_example :
    let out = main casts numbers memory_db micro_bits divide host in
    (s : Session Memory Micro Micro) × (out.code ≡ 0)
    × (out.session ≡ some s)
    × (s.daemon.tick_count ≡ 2 % 2 ^ 64)
    × (contents queue_capacity s.daemon.telemetry_worker.queue ≡ [])
    × (s.daemon.telemetry_worker.running ≡ false)
    × ((s.daemon.telemetry_worker.loop_samples + s.daemon.telemetry_worker.queue.drops) % 2 ^ 64
        ≡ s.daemon.tick_count)
main_accounts_example = main_accounts casts numbers memory_db micro_bits divide host refl

flagged_rounds_exported_example :
    (s : Session Memory Micro Micro) × ((main casts numbers memory_db micro_bits divide
        host).session
      ≡ some s)
    × (s.sent ≡ events (pushed casts numbers memory_db micro_bits divide (begin host) host.events))
flagged_rounds_exported_example =
    flagged_rounds_exported casts numbers memory_db micro_bits divide host refl
