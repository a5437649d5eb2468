-- ===== src/Daemon/Tick.antt =====
-- realtime_daemon.cpp: one round of the loop, and several of them.
use neuro_kinetic.Base.{ℕ, zero, suc, ◌+◌, Bool, true, false, if◌then◌else◌, List, [], ◌∷◌}
use neuro_kinetic.Base.Word.{add64}
use neuro_kinetic.Double.{Double, nought}
use neuro_kinetic.Vector.{Vector, dof}
use neuro_kinetic.Ring.{KinematicTelemetryFrame}
use neuro_kinetic.Telemetry.Worker.{try_push}
use neuro_kinetic.Kernel.{
  KinematicLimits, ManipulatorState, SafetyOutput, Expected, value, unexpected, LdltSolve,
  update_limits,
}
use neuro_kinetic.Kernel.Filter.{filter_torques}
use neuro_kinetic.Recorder.Bytes.{FloatBits}
use neuro_kinetic.Recorder.Store.{RocksDb}
use neuro_kinetic.Recorder.Log.{FlightRecorder, log_cbf_intervention}
use neuro_kinetic.Ipc.{TelemetrySlot}
use neuro_kinetic.Daemon.{Casts, Daemon, Inputs}
use neuro_kinetic.Daemon.Heartbeat.{Watchdog, check_heartbeat}
use neuro_kinetic.Daemon.Command.{ingest, safe_margin, admitted, is_estop}

module _ {D F : Type 0} ⦃d : Double D⦄ ⦃f : Double F⦄ (casts : Casts D F) where
  open d use {add, mul, div, decimal}
  open casts use {to_float, of_float}

  abbrev pub has_value : Expected D → Bool
  has_value (value out) = true
  has_value (unexpected e) = false

  -- `result.value_or(...)`
  abbrev pub value_or_stop : Expected D → SafetyOutput D
  value_or_stop (value out) = out
  value_or_stop (unexpected e) = record {
    safe_torque = λ i. nought;
    intervention_triggered = true;
    solve_time_us = nought;
    barrier_margin = nought;
  }

  -- The fourth step: forward Euler with damping, joint by joint.
  abbrev pub next_velocity : Vector D → Vector D → Vector D
  next_velocity q_dot torque i =
      mul (add (q_dot i) (mul (div (torque i) (decimal 100 1)) (decimal 2 3))) (decimal 98 2)

  unfoldable pub integrate : ManipulatorState D → Vector D → ManipulatorState D
  integrate state torque = record state {
    q = λ i. add (state.q i) (mul (next_velocity state.q_dot torque i) (decimal 2 3));
    q_dot = next_velocity state.q_dot torque;
  }

  -- The largest ratio of a torque to its ceiling, in `float`.
  unfoldable pub torque_ratio : KinematicLimits D → Vector D → ℕ → F
  torque_ratio limits torque zero = f.decimal 0 1
  torque_ratio limits torque (suc i) =
      let ratio = torque_ratio limits torque i in
      let next = to_float (div (d.abs (torque i)) (limits.torque_max i)) in
      if f.lt ratio next then next else ratio

  -- bit 0: emergency stop, bit 1: the kernel failed, bit 2: it intervened
  abbrev pub safety_flags : Bool → Bool → Bool → ℕ
  safety_flags estop failed intervened =
      (if estop then 1 else 0) + (if failed then 2 else 0) + (if intervened then 4 else 0)

  abbrev pub bit : Bool → ℕ
  bit b = if b then 1 else 0

  -- The sixth step, between its two stores of the sequence number.
  unfoldable pub publish :
      TelemetrySlot F → ℕ → ManipulatorState D → SafetyOutput D → Bool → Bool → TelemetrySlot F
  publish slot current_ts state safety failed tripped = record {
    seq = add64 slot.seq 2;
    timestamp_ns = current_ts;
    joint_positions = λ i. to_float (state.q i);
    joint_velocities = λ i. to_float (state.q_dot i);
    applied_torques = λ i. to_float (safety.safe_torque i);
    barrier_margin = to_float safety.barrier_margin;
    cbf_intervention = bit safety.intervention_triggered;
    error_code = bit failed;
    watchdog_tripped = bit tripped;
  }

  module _ {S : Type 0} (rocks : RocksDb S) (fb : FloatBits F) (ldlt_solve : LdltSolve D) where
    -- The fifth step.
    unfoldable pub record_intervention :
        FlightRecorder S → ℕ → ℕ → SafetyOutput D → Vector D → Bool → FlightRecorder S
    record_intervention recorder tick_count current_ts safety nominal tripped =
        if safety.intervention_triggered
        then (log_cbf_intervention rocks fb recorder (record {
          sequence_number = tick_count;
          timestamp_ns = current_ts;
          barrier_margin = to_float safety.barrier_margin;
          commanded_joint5_torque = to_float (nominal 5);
          safe_joint5_torque = to_float (safety.safe_torque 5);
          active_mask = if tripped then 2 else 1;
        })).1
        else recorder

    -- What the tick hands to the kernel and what it gets back.
    abbrev pub tick_watchdog : Daemon S D F → Inputs D F → Watchdog
    tick_watchdog m x = check_heartbeat m.watchdog x.tick_start_ns x.heartbeat_python

    abbrev pub tick_limits : Daemon S D F → Inputs D F → KinematicLimits D
    tick_limits m x = record m.limits {
      min_obstacle_distance = safe_margin of_float (ingest of_float x.command).dynamic_margin;
    }

    abbrev pub tick_nominal : Daemon S D F → Inputs D F → Vector D
    tick_nominal m x = admitted of_float (tick_watchdog m x).watchdog_tripped x.command

    abbrev pub tick_result : Daemon S D F → Inputs D F → Expected D
    tick_result m x =
        filter_torques ldlt_solve (update_limits m.kernel (tick_limits m x)) m.state
          (tick_nominal m x) m.obstacles x.solve_time_us

    -- the frame that a tick pushes
    abbrev pub tick_frame : Daemon S D F → Inputs D F → KinematicTelemetryFrame F
    tick_frame m x =
        let result = tick_result m x in
        let safety = value_or_stop result in
        let failed = if has_value result then false else true in
        let estop = is_estop (ingest of_float x.command).flags in
        record {
          timestamp_ns = x.current_ts;
          loop_duration_us = x.loop_duration_us;
          condition_number = f.decimal 0 1;
          max_torque_saturation_ratio = torque_ratio (tick_limits m x) safety.safe_torque dof;
          safety_flags = safety_flags estop failed safety.intervention_triggered;
        }

    unfoldable pub tick : Daemon S D F → Inputs D F → Daemon S D F
    tick m x =
        let watchdog = tick_watchdog m x in
        let tripped = watchdog.watchdog_tripped in
        let limits = tick_limits m x in
        let result = tick_result m x in
        let safety = value_or_stop result in
        let failed = if has_value result then false else true in
        let state = integrate m.state safety.safe_torque in
        record {
          limits = limits;
          kernel = update_limits m.kernel limits;
          state = state;
          obstacles = m.obstacles;
          tick_count = add64 m.tick_count 1;
          watchdog = watchdog;
          recorder =
              record_intervention m.recorder m.tick_count x.current_ts safety (tick_nominal m x)
                tripped;
          heartbeat_cpp = add64 m.heartbeat_cpp 1;
          telemetry = publish m.telemetry x.current_ts state safety failed tripped;
          telemetry_worker = (try_push m.telemetry_worker (tick_frame m x)).1;
        }

    -- the loop, for as many rounds as it runs
    unfoldable pub run : Daemon S D F → List (Inputs D F) → Daemon S D F
    run m [] = m
    run m (x ∷ xs) = run (tick m x) xs
