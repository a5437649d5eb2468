-- ===== src/Daemon/Start.antt =====
-- realtime_daemon.cpp: the state in which `main` enters its loop.
use neuro_kinetic.Base.{ℕ, Option, List, [], ◌∷◌, get_or}
use neuro_kinetic.Double.{Double, nought}
use neuro_kinetic.Vector.{Vector}
use neuro_kinetic.Ring.{KinematicTelemetryFrame}
use neuro_kinetic.Telemetry.Worker.{new_worker, start}
use neuro_kinetic.Kernel.{KinematicLimits, ManipulatorState, Obstacle}
use neuro_kinetic.Recorder.Log.{open_recorder}
use neuro_kinetic.Ipc.{TelemetrySlot}
use neuro_kinetic.Daemon.{Daemon}
use neuro_kinetic.Daemon.Heartbeat.{armed_at}

module _ {D : Type 0} ⦃d : Double D⦄ where
  open d use {neg, decimal}

  -- `(... << a, b, …).finished()`
  abbrev pub finished : List D → Vector D
  finished xs i = get_or xs i nought

  abbrev pub start_limits : KinematicLimits D
  start_limits = record {
    q_min = λ i. neg (decimal 289 2);
    q_max = λ i. decimal 289 2;
    q_dot_max = λ i. decimal 217 2;
    torque_max = λ i. decimal 870 1;
    min_obstacle_distance = decimal 8 2;
  }

  abbrev pub start_state : ManipulatorState D
  start_state = record {
    q = finished (
        decimal 0 1
        ∷ decimal 2 1
        ∷ decimal 0 1
        ∷ neg (decimal 12 1)
        ∷ decimal 0 1
        ∷ decimal 280 2
        ∷ decimal 0 1
        ∷ []);
    q_dot = λ i. nought;
    end_effector_pos = finished (decimal 45 2 ∷ decimal 10 2 ∷ decimal 32 2 ∷ []);
    end_effector_vel = λ i. nought;
  }

  abbrev pub start_obstacles : List (Obstacle D)
  start_obstacles =
      record {
        position = finished (decimal 50 2 ∷ decimal 10 2 ∷ decimal 30 2 ∷ []);
        radius = decimal 5 2;
      }
      ∷ []

module _ {F : Type 0} ⦃f : Double F⦄ where
  -- `TelemetrySlot{}` and `KinematicTelemetryFrame{}`
  abbrev pub blank_slot : TelemetrySlot F
  blank_slot = record {
    seq = 0;
    timestamp_ns = 0;
    joint_positions = λ i. nought;
    joint_velocities = λ i. nought;
    applied_torques = λ i. nought;
    barrier_margin = nought;
    cbf_intervention = 0;
    error_code = 0;
    watchdog_tripped = 0;
  }

  abbrev pub blank_frame : KinematicTelemetryFrame F
  blank_frame = record {
    timestamp_ns = 0;
    loop_duration_us = nought;
    condition_number = nought;
    max_torque_saturation_ratio = nought;
    safety_flags = 0;
  }

-- `opened` is what `DB::Open` gives, and `start_ns` the time at which the watchdog is set up.
unfoldable pub boot : {S D F : Type 0} ⦃d : Double D⦄ ⦃f : Double F⦄ → Option S → ℕ → Daemon S D F
unfolding open_recorder start
boot opened start_ns = record {
  limits = start_limits;
  kernel = record { limits = start_limits };
  state = start_state;
  obstacles = start_obstacles;
  tick_count = 0;
  watchdog = armed_at start_ns;
  recorder = open_recorder opened;
  heartbeat_cpp = 0;
  telemetry = blank_slot;
  telemetry_worker = (start (new_worker blank_frame)).1;
}
