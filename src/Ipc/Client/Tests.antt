-- ===== src/Ipc/Client/Tests.antt =====
-- The segment of 384 bytes 0, with the values of `float` in `Sample`.
use neuro_kinetic.Base.{none, ℕ, ◌≡◌, refl, false, ◌==◌, if◌then◌else◌, arith, true}
use neuro_kinetic.Base.Text.{Bytes}
use neuro_kinetic.Double.Micro.{Micro, micro_double}
use neuro_kinetic.Recorder.Bytes.{to_bytes, of_bytes}
use neuro_kinetic.Recorder.Bytes.Sample.{
  Sample, nought, third, one, sample_bits, sample_bits-IsBitCast,
}
use neuro_kinetic.Ipc.Client.Sample.{empty, sample_double, widen, narrow, divide, python}
use neuro_kinetic.Ipc.{TelemetrySlot}
use neuro_kinetic.Ipc.Memory.{store}
use neuro_kinetic.Ipc.Layout.{write_slot, read_command, read_heartbeat}
use neuro_kinetic.Ipc.Client.{dispatching, read_telemetry, dispatch_vla_torque, send_heartbeat}
use neuro_kinetic.Ipc.Client.Dispatch.{curr_seq, dispatched_torques_admitted}
use neuro_kinetic.Ipc.Client.Refused.{refused_command_kept}
use neuro_kinetic.Ipc.Client.Torn.{torn_command_admitted}
use neuro_kinetic.Ipc.Client.Published.{report, client_reads_tick}
use neuro_kinetic.Recorder.Store.{Memory, memory_db}
use neuro_kinetic.Daemon.{Daemon, Inputs}
use neuro_kinetic.Daemon.Start.{boot}
use neuro_kinetic.Daemon.Tick.{tick}
use neuro_kinetic.Daemon.Command.{is_estop, ingest, admitted}

abbrev slot : TelemetrySlot Sample
slot = record {
  seq = 6;
  timestamp_ns = 1_000_000;
  joint_positions = λ i. if i == 3 then third else nought;
  joint_velocities = λ i. nought;
  applied_torques = λ i. if i == 5 then one else nought;
  barrier_margin = third;
  cbf_intervention = 1;
  error_code = 0;
  watchdog_tripped = 0;
}

abbrev sent : ℕ → Micro
sent i = if i == 5 then micro_double.decimal 300 1 else micro_double.decimal 0 0

first_command : curr_seq empty 41 ≡ 0
unfolding send_heartbeat to_bytes of_bytes store
first_command = refl

dispatched_torques_admitted_example :
    let (b, stored) =
      dispatch_vla_torque python sample_bits
        (micro_double.decimal 0 0)
        empty
        41
        sent
        (micro_double.decimal 90 2)
        (micro_double.decimal 0 0) in
    (stored ≡ true)
    × (read_heartbeat b ≡ 42)
    × (admitted widen false (read_command sample_bits b) 5 ≡ micro_double.decimal 1 0)
    × ((ingest widen (read_command sample_bits b)).dynamic_margin ≡ one)
dispatched_torques_admitted_example =
    dispatched_torques_admitted widen python sample_bits sample_bits-IsBitCast empty 41 sent
      (micro_double.decimal 90 2) (micro_double.decimal 0 0) false 5 refl
      (omega (arith, first_command)) (omega arith) refl (omega arith)

abbrev started : Daemon Memory Micro Sample
started = boot none 0

-- a round without a command
abbrev first_round : Inputs Micro Sample
first_round = record {
  tick_start_ns = 2_000_000;
  heartbeat_python = 42;
  command = read_command sample_bits empty;
  solve_time_us = micro_double.decimal 12 0;
  current_ts = 2_000_007;
  loop_duration_us = nought;
}

abbrev after_round : Bytes → ℕ → Bytes
after_round b k =
    write_slot sample_bits empty
      (tick narrow memory_db sample_bits divide started first_round).telemetry

client_reads_tick_example :
    (read_telemetry sample_bits nought empty 41 after_round).1
    ≡ report narrow memory_db sample_bits divide started first_round
unfolding boot
client_reads_tick_example =
    client_reads_tick narrow memory_db sample_bits sample_bits-IsBitCast divide started first_round
      nought empty empty 41 0 after_round refl (omega arith) (omega arith) (omega arith)
      (λ j l. absurd (omega arith)) refl refl

calm : is_estop (read_command sample_bits empty).command_flags ≡ false
unfolding read_command of_bytes
calm = refl

-- three of the torques are stored
torn_command_admitted_example :
    let b =
      dispatching python sample_bits
        (micro_double.decimal 0 0)
        empty
        41
        sent
        (micro_double.decimal 90 2)
        (micro_double.decimal 0 0)
        20 in
    admitted widen false (read_command sample_bits b) 5
    ≡ widen ((read_command sample_bits empty).nominal_torques 5)
torn_command_admitted_example =
    torn_command_admitted widen python sample_bits sample_bits-IsBitCast empty 41 sent
      (micro_double.decimal 90 2) (micro_double.decimal 0 0) 3 5 refl (omega (arith, first_command))
      refl calm (omega arith) (omega arith)

-- the margin is too large
refused_command_kept_example :
    let (b, stored) =
      dispatch_vla_torque python sample_bits
        (micro_double.decimal 0 0)
        empty
        41
        sent
        (micro_double.decimal 2000 0)
        (micro_double.decimal 0 0) in
    (stored ≡ false)
    × (read_heartbeat b ≡ 42)
    × (read_command sample_bits b ≡ read_command sample_bits empty)
refused_command_kept_example =
    refused_command_kept python sample_bits (micro_double.decimal 0 0) empty 41 sent
      (micro_double.decimal 2000 0) (micro_double.decimal 0 0) refl (omega arith) refl
