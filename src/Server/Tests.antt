-- ===== src/Server/Tests.antt =====
-- The segment of 384 bytes 0, a server with the margin 0.05, and the planner.
use neuro_kinetic.Base.{none, ◌≡◌, refl, true, false, List, [], ◌∷◌, arith}
use neuro_kinetic.Double.Micro.{Micro, micro_double}
use neuro_kinetic.Recorder.Bytes.{of_bytes}
use neuro_kinetic.Recorder.Bytes.Sample.{sample_bits, sample_bits-IsBitCast}
use neuro_kinetic.Ipc.Client.Sample.{empty, sample_double, widen, python}
use neuro_kinetic.Ipc.Layout.{read_command}
use neuro_kinetic.Daemon.Command.{ingest, admitted}
use neuro_kinetic.Server.{
  World, Request, update_barrier_tuning, trigger_hazard, websocket_telemetry, task_telemetry,
  execute_setpoint, hazard, handle_all,
}
use neuro_kinetic.Server.LastWriter.{HasRoom, untouched, claim_all, last_command_reaches_kernel}

abbrev started : World Micro
started = record {
  segment = empty;
  is_connected = true;
  server_counter = 0;
  planner_counter = 0;
  current_safety_margin = micro_double.decimal 5 2;
  current_gamma = micro_double.decimal 150 1;
}

-- The last but one raises: the margin 2000.0 is too large.
abbrev requests : List (Request Micro)
requests =
    update_barrier_tuning (micro_double.decimal 90 2) (micro_double.decimal 150 1)
    ∷ task_telemetry
    ∷ execute_setpoint (λ i. micro_double.decimal 0 0)
    ∷ trigger_hazard
    ∷ update_barrier_tuning (micro_double.decimal 2000 0) (micro_double.decimal 150 1)
    ∷ websocket_telemetry
    ∷ []

roomy : HasRoom 6 started
unfolding of_bytes
roomy = record { connected = refl; size = refl; seq_room = omega arith }

last_command_reaches_kernel_example :
    let c = read_command sample_bits (handle_all python sample_bits started requests).segment in
    (admitted widen false c 5 ≡ micro_double.decimal 1 0)
    × ((ingest widen c).dynamic_margin ≡ python.to_float (micro_double.decimal 90 2))
unfolding claim_all
last_command_reaches_kernel_example =
    last_command_reaches_kernel widen python sample_bits sample_bits-IsBitCast started requests
      hazard (micro_double.decimal 90 2) false 5 roomy refl (omega arith)

-- behind the command that raises, the margin 2000.0 is in force, and the hazard raises with it
hazard_raises :
    (claim_all python sample_bits (untouched started) (
      update_barrier_tuning (micro_double.decimal 2000 0) (micro_double.decimal 150 1)
      ∷ trigger_hazard
      ∷ [])).last
    ≡ none
unfolding claim_all
hazard_raises = refl
