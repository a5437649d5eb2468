-- ===== src/Ipc.antt =====
-- src/ipc/shm_layout.hpp: the structures in shared memory, over the type of `float`. Ipc.Layout has
-- their padding.
pub mod Memory
pub mod Layout
pub mod Client
use neuro_kinetic.Base.{ℕ}

-- `struct TelemetrySlot`
pub record TelemetrySlot (F : Type 0) : Type 0 where
  pub seq : ℕ
  pub timestamp_ns : ℕ
  pub joint_positions : ℕ → F
  pub joint_velocities : ℕ → F
  pub applied_torques : ℕ → F
  pub barrier_margin : F
  pub cbf_intervention : ℕ
  pub error_code : ℕ
  pub watchdog_tripped : ℕ

-- `struct CommandSlot`
pub record CommandSlot (F : Type 0) : Type 0 where
  pub seq : ℕ
  pub nominal_torques : ℕ → F
  pub target_positions : ℕ → F
  pub obstacle_safety_margin : F
  pub barrier_gamma : F
  pub command_flags : ℕ
