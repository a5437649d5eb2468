-- ===== src/Kernel.antt =====
-- src/kernel/cbf_solver.hpp and cbf_solver.cpp: the control barrier kernel. `double` is any type with
-- the operations of `Double`. Eigen's `M.ldlt().solve(rhs)` is a parameter, and so is the time that
-- the clock measures.
pub mod Limits
pub mod Rows
pub mod Qp
pub mod Filter
mod Tests
use neuro_kinetic.Base.{ℕ, Bool, List}
use neuro_kinetic.Vector.{Vector}

-- `enum class KernelErrorCode`
pub data KernelErrorCode : Type 0 where
  none qp_failure invalid_state boundary_violation : KernelErrorCode

module _ (D : Type 0) where
  pub record KinematicLimits : Type 0 where
    pub q_min : Vector D
    pub q_max : Vector D
    pub q_dot_max : Vector D
    pub torque_max : Vector D
    pub min_obstacle_distance : D

  pub record ManipulatorState : Type 0 where
    pub q : Vector D
    pub q_dot : Vector D
    pub end_effector_pos : Vector D
    pub end_effector_vel : Vector D

  pub record Obstacle : Type 0 where
    pub position : Vector D
    pub radius : D

  pub record SafetyOutput : Type 0 where
    pub safe_torque : Vector D
    pub intervention_triggered : Bool
    pub solve_time_us : D
    pub barrier_margin : D

  -- `std::expected<SafetyOutput, KernelErrorCode>`
  pub data Expected : Type 0 where
    value : SafetyOutput → Expected
    unexpected : KernelErrorCode → Expected

  -- `class ControlBarrierKernel`; its one field is replaced by `update_limits`.
  pub record ControlBarrierKernel : Type 0 where
    pub limits : KinematicLimits

  -- A row of the matrix `A` with the entry of `b` beside it: `A * u >= b`.
  pub record Row : Type 0 where
    pub coeffs : Vector D
    pub bound : D

  -- `M.ldlt().solve(rhs)` at the size of `M`
  abbrev pub LdltSolve : Type 0
  LdltSolve = ℕ → (ℕ → ℕ → D) → Vector D → Vector D

module _ {D : Type 0} where
  unfoldable pub update_limits : ControlBarrierKernel D → KinematicLimits D → ControlBarrierKernel D
  update_limits k limits = record k { limits = limits }

  unfoldable pub get_limits : ControlBarrierKernel D → KinematicLimits D
  get_limits k = k.limits
