-- ===== src/Telemetry.antt =====
-- src/telemetry/telemetry_worker.cpp and src/metrics.cpp with their headers under
-- include/neurokinetic/telemetry: what is counted of the loop, and what a scrape reports of it.
pub mod Histogram
pub mod Worker
pub mod Metrics
pub mod Exposition
pub mod Http
pub mod Text
pub mod Sockets
mod Tests
use neuro_kinetic.Base.{ℕ, Bool}
use neuro_kinetic.Ring.{SpscRingBuffer, KinematicTelemetryFrame}

-- What the code does with a `float` besides its arithmetic: the conversion to `uint64_t`, and to
-- `double`. The conversion to an integer is only asked of values that are in range.
pub record Numbers (D F : Type 0) : Type 0 where
  pub to_u64 : F → ℕ
  pub double_to_u64 : D → ℕ
  pub of_u64 : ℕ → D

-- `class TelemetryWorker` without its two threads and its port. An array is a function of the index.
pub record TelemetryWorker (F : Type 0) : Type 0 where
  pub queue : SpscRingBuffer (KinematicTelemetryFrame F)
  pub running : Bool
  pub loop_samples : ℕ
  pub loop_sum_us : ℕ
  pub loop_buckets : ℕ → ℕ
  pub condition_number_bits : ℕ
  pub torque_ratio_bits : ℕ
  pub safety_violations : ℕ → ℕ
  pub exported_events : ℕ

-- What `export_safety_event` sends over a socket.
pub data Export (F : Type 0) : Type 0 where
  trace_event json_event : KinematicTelemetryFrame F → Export F
