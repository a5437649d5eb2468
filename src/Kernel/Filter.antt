-- ===== src/Kernel/Filter.antt =====
-- cbf_solver.cpp: `filter_torques`.
pub mod Outcome
pub mod Held
use neuro_kinetic.Base.{ℕ, Bool, not, ◌||◌, if◌then◌else◌, List}
use neuro_kinetic.Double.{Double}
use neuro_kinetic.Vector.{Vector, dof, difference, norm, all_finite}
use neuro_kinetic.Kernel.{
  ControlBarrierKernel, ManipulatorState, Obstacle, SafetyOutput, Expected, value, unexpected,
  KernelErrorCode, LdltSolve,
}
use neuro_kinetic.Kernel.Limits.{smallest_margin}
use neuro_kinetic.Kernel.Rows.{constraints}
use neuro_kinetic.Kernel.Qp.{solve_active_set_qp}

module _ {D : Type 0} ⦃d : Double D⦄ (ldlt_solve : LdltSolve D) where
  open d use {lt, decimal}

  -- `(safe_torque - nominal_torques).norm() > 1e-2`
  abbrev pub is_intervention : Vector D → Vector D → Bool
  is_intervention safe nominal = lt (decimal 1 2) (norm dof (difference safe nominal))

  -- `elapsed_us` is the time between the two readings of the clock.
  unfoldable pub filter_torques :
      ControlBarrierKernel D → ManipulatorState D → Vector D → List (Obstacle D) → D → Expected D
  filter_torques kernel state nominal_torques obstacles elapsed_us =
      if not (all_finite state.q)
        || not (all_finite state.q_dot)
        || not (all_finite nominal_torques)
      then unexpected KernelErrorCode.invalid_state
      else (let rows = constraints kernel.limits state obstacles in
          let (solved, safe_torque) =
            solve_active_set_qp ldlt_solve kernel.limits nominal_torques rows in
          if not solved
          then unexpected KernelErrorCode.qp_failure
          else value (record {
            safe_torque = safe_torque;
            intervention_triggered = is_intervention safe_torque nominal_torques;
            solve_time_us = elapsed_us;
            barrier_margin =
                smallest_margin kernel.limits state.end_effector_pos (decimal 1000 1) obstacles;
          }))
