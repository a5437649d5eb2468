-- ===== src/Kernel/Rows.antt =====
-- cbf_solver.cpp: the constraints `A * u >= b` that `filter_torques` builds.
pub mod Spec
use neuro_kinetic.Base.{ℕ, zero, suc, ◌+◌, ◌≤◌, if◌then◌else◌, List, [], ◌∷◌, ◌++◌, update}
use neuro_kinetic.Double.{Double, nought}
use neuro_kinetic.Vector.{Vector, dof}
use neuro_kinetic.Kernel.{KinematicLimits, ManipulatorState, Obstacle, Row}
use neuro_kinetic.Kernel.Limits.{max_allowed_torque, min_allowed_torque, compute_obstacle_barrier}

module _ {D : Type 0} ⦃d : Double D⦄ where
  open d use {sub, neg, lt, decimal}

  -- a row of zeros but for one entry
  abbrev pub single : ℕ → D → Vector D
  single i c = update (λ _. nought) i c

  abbrev pub zero_row : Row D
  zero_row = record { coeffs = λ _. nought; bound = nought }

module _ {D : Type 0} ⦃d : Double D⦄ (limits : KinematicLimits D) (state : ManipulatorState D) where
  open d use {sub, neg, lt, decimal}

  abbrev pub max_torque : ℕ → D
  max_torque i = max_allowed_torque limits i (sub (limits.q_max i) (state.q i))

  abbrev pub min_torque : ℕ → D
  min_torque i = min_allowed_torque limits i (sub (state.q i) (limits.q_min i))

  abbrev pub upper_row : ℕ → Row D
  upper_row i = record { coeffs = single i (neg (decimal 10 1)); bound = neg (max_torque i) }

  abbrev pub lower_row : ℕ → Row D
  lower_row i = record { coeffs = single i (decimal 10 1); bound = min_torque i }

  -- the rows of the joints `i`, `i + 1`, …, `i + n - 1`
  unfoldable pub joint_rows : ℕ → ℕ → List (Row D)
  joint_rows i zero = []
  joint_rows i (suc n) = upper_row i ∷ lower_row i ∷ joint_rows (i + 1) n

  -- The bound of the obstacle's row: no reach further than 0.05 within 5 cm of the margin.
  abbrev pub obstacle_bound : Obstacle D → D
  obstacle_bound obs =
      if lt (compute_obstacle_barrier limits state.end_effector_pos obs) (decimal 5 2)
      then neg (decimal 5 2)
      else neg (limits.torque_max 5)

  -- Without obstacles the last row keeps its zeros.
  unfoldable pub obstacle_row : List (Obstacle D) → Row D
  obstacle_row [] = zero_row
  obstacle_row (obs ∷ obstacles) = record {
    coeffs = single 5 (neg (decimal 10 1));
    bound = obstacle_bound obs;
  }

  unfoldable pub constraints : List (Obstacle D) → List (Row D)
  constraints obstacles = joint_rows 0 dof ++ (obstacle_row obstacles ∷ [])
