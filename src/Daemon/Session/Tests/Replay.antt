-- ===== src/Daemon/Session/Tests/Replay.antt =====
-- A session whose rounds push the arm towards the obstacle, and what read_incidents shows of it.
use neuro_kinetic.Base.{
  false, Bool, ℕ, ◌+◌, ◌*◌, ◌≡◌, refl, true, some, if◌then◌else◌, ◌==◌, [], ◌∷◌, ◌++◌, map, take,
  arith,
}
use neuro_kinetic.Double.Micro.{Micro, micro_double}
use neuro_kinetic.Recorder.Bytes.Sample.{
  Sample, nought, third, one, sample_bits, sample_bits-IsBitCast,
}
use neuro_kinetic.Recorder.Store.{Memory, memory_db, memory-IsStore}
use neuro_kinetic.Recorder.Log.{destroy, open_recorder, log_cbf_intervention}
use neuro_kinetic.Recorder.Reader.{incidents}
use neuro_kinetic.Recorder.Reader.History.{shown_as}
use neuro_kinetic.Telemetry.{Numbers}
use neuro_kinetic.Ipc.Client.Sample.{sample_double, narrow, divide}
use neuro_kinetic.Daemon.{Inputs}
use neuro_kinetic.Daemon.Session.{happen, round, worker_turn, signal, Session, Host, begin, main}
use neuro_kinetic.Vector.{dot, norm}
use neuro_kinetic.Kernel.{update_limits}
use neuro_kinetic.Kernel.Limits.{
  compute_obstacle_barrier, max_allowed_torque, min_allowed_torque, smallest_margin,
}
use neuro_kinetic.Kernel.Rows.{constraints, joint_rows, obstacle_row}
use neuro_kinetic.Kernel.Qp.{solve_active_set_qp, active_rows, violation}
use neuro_kinetic.Kernel.Filter.{filter_torques}
use neuro_kinetic.Daemon.Heartbeat.{check_heartbeat}
use neuro_kinetic.Daemon.Command.{admitted, ingest}
use neuro_kinetic.Daemon.Start.{boot}
use neuro_kinetic.Daemon.Session.Interventions.{IsLogged, safety_of, interventions}
use neuro_kinetic.Daemon.Session.BlackBox.{black_box_complete}

abbrev numbers : Numbers Micro Sample
numbers = record {
  to_u64 = elim [ nought ↦ 0 | third ↦ 0 | one ↦ 1 ];
  double_to_u64 = λ x. 0;
  of_u64 = λ n. micro_double.decimal n 0;
}

-- 1 Nm for joint 5, where the obstacle allows 0.05
abbrev pushing : ℕ → Inputs Micro Sample
pushing ms = record {
  tick_start_ns = ms * 1_000_000;
  heartbeat_python = 1;
  command = record {
    cmd_seq1 = 4;
    nominal_torques = λ i. if i == 5 then one else nought;
    command_flags = 1;
    obstacle_safety_margin = third;
    cmd_seq2 = 4;
  };
  solve_time_us = micro_double.decimal 12 0;
  current_ts = ms * 1_000_000 + 7;
  loop_duration_us = nought;
}

abbrev blank : Memory
blank = record { interventions = []; telemetry = []; other = [] }

-- A round, a turn of the worker, a signal, and a round that comes too late.
abbrev host : Host Memory Micro Sample
host = record {
  open_ok = true;
  truncate_ok = true;
  map_ok = true;
  opened = some blank;
  start_ns = 0;
  events = round (pushing 2) ∷ worker_turn ∷ signal ∷ round (pushing 6) ∷ [];
}

either_logged :
    (triggered : Bool) (logged : Bool) → logged ≡ true → (if triggered then logged else true) ≡ true
either_logged true logged h = h
either_logged false logged h = refl

replay-IsLogged : IsLogged narrow numbers memory_db sample_bits divide (begin host) host.events
unfolding happen begin boot open_recorder log_cbf_intervention
replay-IsLogged = (
  either_logged
      (safety_of narrow memory_db sample_bits divide (begin host).daemon
        (pushing 2)).intervention_triggered
      true refl,
  (refl, (refl, (refl, tt))),
)

black_box_complete_example :
    (s : Session Memory Micro Sample) × ((main narrow numbers memory_db sample_bits divide
        host).session
      ≡ some s)
    × (left : Memory) × (destroy memory_db sample_bits s.daemon.recorder ≡ some left)
    × (incidents memory_db sample_bits left
        ≡ take 50 (
            map
              (shown_as memory_db sample_bits)
              (interventions narrow numbers memory_db sample_bits divide (begin host) host.events)
            ++ incidents memory_db sample_bits blank))
black_box_complete_example =
    black_box_complete narrow numbers memory_db sample_bits divide memory-IsStore
      sample_bits-IsBitCast host blank 0 refl refl tt
      ((omega arith, omega arith), (tt, (tt, ((omega arith, omega arith), tt)))) replay-IsLogged

-- the first round intervenes
first_report :
    (safety_of narrow memory_db sample_bits divide
      (begin host).daemon
      (pushing 2)).intervention_triggered
    ≡ true
unfolding begin boot filter_torques constraints joint_rows obstacle_row solve_active_set_qp
    active_rows violation dot norm compute_obstacle_barrier max_allowed_torque min_allowed_torque
    smallest_margin admitted ingest check_heartbeat update_limits
first_report = refl
