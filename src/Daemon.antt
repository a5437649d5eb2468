-- ===== src/Daemon.antt =====
-- src/kernel/realtime_daemon.cpp: the 500 Hz loop. A tick takes what it reads from the clocks and from
-- shared memory as an argument, since another process may write there between two loads.
pub mod Heartbeat
pub mod Command
pub mod Tick
pub mod Start
pub mod Admission
pub mod Failsafe
pub mod Counters
pub mod Rounds
pub mod Frozen
pub mod Torques
pub mod Margin
pub mod Session
pub mod Sample
mod Tests
use neuro_kinetic.Base.{ℕ, List, [], ◌∷◌}
use neuro_kinetic.Double.{Double, nought}
use neuro_kinetic.Vector.{Vector}
use neuro_kinetic.Telemetry.{TelemetryWorker}
use neuro_kinetic.Kernel.{
  KinematicLimits, ControlBarrierKernel, ManipulatorState, Obstacle, SafetyOutput,
}
use neuro_kinetic.Recorder.Log.{FlightRecorder}
use neuro_kinetic.Ipc.{TelemetrySlot}
use neuro_kinetic.Daemon.Heartbeat.{Watchdog}
use neuro_kinetic.Daemon.Command.{CommandRead}

-- the conversions between `double` and `float`
pub record Casts (D F : Type 0) : Type 0 where
  pub to_float : D → F
  pub of_float : F → D

-- The local variables of `main` and what it owns.
pub record Daemon (S D F : Type 0) : Type 0 where
  pub limits : KinematicLimits D
  pub kernel : ControlBarrierKernel D
  pub state : ManipulatorState D
  pub obstacles : List (Obstacle D)
  pub tick_count : ℕ
  pub watchdog : Watchdog
  pub recorder : FlightRecorder S
  pub heartbeat_cpp : ℕ
  pub telemetry : TelemetrySlot F
  pub telemetry_worker : TelemetryWorker F

-- What one tick reads: the clocks, the heartbeat and the command.
pub record Inputs (D F : Type 0) : Type 0 where
  pub tick_start_ns : ℕ
  pub heartbeat_python : ℕ
  pub command : CommandRead F
  pub solve_time_us : D
  pub current_ts : ℕ
  pub loop_duration_us : F
