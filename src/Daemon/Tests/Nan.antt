-- ===== src/Daemon/Tests/Nan.antt =====
-- The loop where a `double` may be NaN.
use neuro_kinetic.Base.{◌-◌, ◌^◌, ◌≡◌, refl, some, if◌then◌else◌, ◌==◌}
use neuro_kinetic.Base.Int.{pos_part}
use neuro_kinetic.Double.{nought}
use neuro_kinetic.Double.Micro.{micro_double}
use neuro_kinetic.Kernel.{LdltSolve, Obstacle}
use neuro_kinetic.Kernel.Limits.{smallest_margin}
use neuro_kinetic.Kernel.Rows.{obstacle_bound}
use neuro_kinetic.Recorder.Bytes.{FloatBits}
use neuro_kinetic.Recorder.Store.{Memory, memory_db}
use neuro_kinetic.Daemon.{Casts, Daemon, Inputs}
use neuro_kinetic.Daemon.Heartbeat.{check_heartbeat}
use neuro_kinetic.Daemon.Command.{ingest, admitted}
use neuro_kinetic.Daemon.Tick.{tick, tick_limits, integrate}
use neuro_kinetic.Daemon.Start.{boot}
use neuro_kinetic.Daemon.Failsafe.{kernel_error_applies_zero}
use neuro_kinetic.Double.Nan.{MicroOrNan, number, nan, nan_double, nan-IsNan}
use neuro_kinetic.Daemon.Margin.{nan_margin_disarms_barrier}
use neuro_kinetic.Daemon.Sample.{blank}
open micro_double use {decimal, div}

abbrev same_or_nan : Casts MicroOrNan MicroOrNan
same_or_nan = record { to_float = λ x. x; of_float = λ x. x }

abbrev bits_or_nan : FloatBits MicroOrNan
bits_or_nan = record {
  bits = elim [ number a ↦ pos_part a.units | nan ↦ 2 ^ 32 - 1 ];
  of_bits = λ w. if w == 2 ^ 32 - 1 then nan else nan_double.decimal w 6;
}

abbrev divide_or_nan : LdltSolve MicroOrNan
divide_or_nan n m rhs i = nan_double.div (rhs i) (m i i)

abbrev started_or_nan : Daemon Memory MicroOrNan MicroOrNan
started_or_nan = boot (some blank) 1_000_000

-- a round that reads NaN for every torque and for the margin
abbrev nan_round : Inputs MicroOrNan MicroOrNan
nan_round = record {
  tick_start_ns = 3_000_000;
  heartbeat_python = 1;
  command = record {
    cmd_seq1 = 4;
    nominal_torques = λ i. nan;
    command_flags = 1;
    obstacle_safety_margin = nan;
    cmd_seq2 = 4;
  };
  solve_time_us = nan_double.decimal 12 0;
  current_ts = 3_000_007;
  loop_duration_us = nan_double.decimal 40 0;
}

kernel_error_applies_zero_example :
    let done = tick same_or_nan memory_db bits_or_nan divide_or_nan started_or_nan nan_round in
    (done.telemetry.applied_torques ≡ (λ i. nought))
    × (done.telemetry.error_code ≡ 1)
    × (done.telemetry.cbf_intervention ≡ 1)
    × (done.state ≡ integrate same_or_nan started_or_nan.state (λ i. nought))
unfolding boot ingest admitted check_heartbeat
kernel_error_applies_zero_example =
    kernel_error_applies_zero same_or_nan memory_db bits_or_nan divide_or_nan started_or_nan
      nan_round refl

-- an obstacle around the end effector
abbrev touching : Obstacle MicroOrNan
touching = record {
  position = started_or_nan.state.end_effector_pos;
  radius = nan_double.decimal 10 2;
}

nan_margin_disarms_barrier_example :
    let limits =
      tick_limits same_or_nan memory_db bits_or_nan divide_or_nan started_or_nan nan_round in
    (obstacle_bound limits started_or_nan.state touching
      ≡ nan_double.neg (started_or_nan.limits.torque_max 5))
    × (smallest_margin limits started_or_nan.state.end_effector_pos
          (nan_double.decimal 1000 1)
          started_or_nan.obstacles
        ≡ nan_double.decimal 1000 1)
nan_margin_disarms_barrier_example =
    nan_margin_disarms_barrier same_or_nan memory_db bits_or_nan divide_or_nan nan nan-IsNan
      started_or_nan nan_round touching refl refl
