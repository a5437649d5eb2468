-- ===== src/Kernel/Tests.antt =====
-- The kernel over numbers in millionths: runs, and its theorems at concrete states.
use neuro_kinetic.Base.{
  ℕ, zero, suc, ◌<◌, ◌≡◌, refl, ◌↔◌, true, false, some, none, List, [], ◌∷◌, ◌==◌, if◌then◌else◌,
  arith, get_or, all,
}
use neuro_kinetic.Double.{nought}
use neuro_kinetic.Double.Micro.{Micro, micro_double, Micro-IsOrdered, Micro-IsArithmetic}
use neuro_kinetic.Vector.{Vector, dot, norm}
use neuro_kinetic.Kernel.{
  ControlBarrierKernel, ManipulatorState, Obstacle, SafetyOutput, Expected, value, LdltSolve, Row,
}
use neuro_kinetic.Kernel.Limits.{
  compute_obstacle_barrier, max_allowed_torque, min_allowed_torque, smallest_margin,
}
use neuro_kinetic.Kernel.Limits.Bounds.{IsWithin, near_limit_brakes}
use neuro_kinetic.Kernel.Rows.{constraints, joint_rows, obstacle_row}
use neuro_kinetic.Kernel.Rows.Spec.{IsJointMet, IsObstacleMet, constraints-met_iff}
use neuro_kinetic.Kernel.Qp.{violation, is_met, active_rows, solve_active_set_qp}
use neuro_kinetic.Kernel.Filter.{filter_torques}
use neuro_kinetic.Kernel.Filter.Outcome.{
  torque_of, without_margin, filter_torques_saturates, safe_command_unchanged,
  only_first_obstacle_constrains,
}
open micro_double use {add, sub, mul, div, neg, decimal}

-- The exact solution of a system of one equation, or of two by Cramer's rule.
abbrev cramer : LdltSolve Micro
cramer n m rhs i =
    if n == 2
    then (let det = sub (mul (m 0 0) (m 1 1)) (mul (m 0 1) (m 1 0)) in
        if i == 0
        then div (sub (mul (rhs 0) (m 1 1)) (mul (rhs 1) (m 0 1))) det
        else div (sub (mul (rhs 1) (m 0 0)) (mul (rhs 0) (m 1 0))) det)
    else div (rhs i) (m i i)

-- The limits, the start state and the obstacle of realtime_daemon.cpp.
abbrev kernel : ControlBarrierKernel Micro
kernel = record {
  limits = record {
    q_min = λ _. neg (decimal 289 2);
    q_max = λ _. decimal 289 2;
    q_dot_max = λ _. decimal 217 2;
    torque_max = λ _. decimal 870 1;
    min_obstacle_distance = decimal 8 2;
  };
}

abbrev from_list : List Micro → Vector Micro
from_list xs i = get_or xs i nought

abbrev state : ManipulatorState Micro
state = record {
  q = from_list (nought ∷ decimal 2 1 ∷ nought ∷ neg (decimal 12 1) ∷ nought ∷ decimal 280 2 ∷ []);
  q_dot = λ _. nought;
  end_effector_pos = from_list (decimal 45 2 ∷ decimal 10 2 ∷ decimal 32 2 ∷ []);
  end_effector_vel = λ _. nought;
}

abbrev obstacle : Obstacle Micro
obstacle = record {
  position = from_list (decimal 50 2 ∷ decimal 10 2 ∷ decimal 30 2 ∷ []);
  radius = decimal 5 2;
}

-- a torque for joint 5 alone
abbrev push : Micro → Vector Micro
push t i = if i == 5 then t else nought

abbrev filtered : Vector Micro → List (Obstacle Micro) → Expected Micro
filtered u obstacles = filter_torques cramer kernel state u obstacles nought

-- The line names what a run goes through, so that a test names only this function.
joint_5 : Vector Micro → List (Obstacle Micro) → Micro
unfolding filter_torques constraints joint_rows obstacle_row solve_active_set_qp active_rows
    violation dot norm compute_obstacle_barrier max_allowed_torque min_allowed_torque
    smallest_margin
joint_5 u obstacles = elim (torque_of (filtered u obstacles)) [ some t ↦ t 5 | none ↦ nought ]

-- One violated row: the torque is brought back to its bound, but for the ridge.
one_row :
    (joint_5 (push (decimal 450 1)) (obstacle ∷ []) ≡ decimal 50045 6)
    × (joint_5 (push (decimal 850 1)) [] ≡ decimal 78300007 6)
unfolding joint_5
one_row = (refl, refl)

-- Two violated rows of joint 5, with the bounds 78.3 and 0.05: both are made equations, so the torque
-- falls between the bounds and reaches 40 Nm into the obstacle.
two_rows : joint_5 (push (decimal 850 1)) (obstacle ∷ []) ≡ decimal 400 1
unfolding joint_5
two_rows = refl

filter_torques_saturates_example :
    (out : SafetyOutput Micro) × (filtered (push (decimal 450 1)) (obstacle ∷ []) ≡ value out)
    × (micro_double.lt (out.safe_torque 5) (neg (decimal 870 1)) ≡ false)
    × (micro_double.lt (decimal 870 1) (out.safe_torque 5) ≡ false)
unfolding joint_5
filter_torques_saturates_example =
    filter_torques_saturates cramer kernel state (push (decimal 450 1)) (obstacle ∷ []) nought
      Micro-IsOrdered refl refl 5 refl

resting : (i : ℕ) → i < 7 → IsJointMet kernel.limits state (push nought) i
unfolding joint_5
resting zero h = (refl, refl)
resting (suc zero) h = (refl, refl)
resting (suc (suc zero)) h = (refl, refl)
resting (suc (suc (suc zero))) h = (refl, refl)
resting (suc (suc (suc (suc zero)))) h = (refl, refl)
resting (suc (suc (suc (suc (suc zero))))) h = (refl, refl)
resting (suc (suc (suc (suc (suc (suc zero)))))) h = (refl, refl)
resting (suc (suc (suc (suc (suc (suc (suc i))))))) h = absurd (omega arith)

safe_command_unchanged_example :
    (out : SafetyOutput Micro) × (filtered (push nought) (obstacle ∷ []) ≡ value out)
    × (out.safe_torque ≡ push nought)
    × (out.intervention_triggered ≡ false)
unfolding joint_5
safe_command_unchanged_example =
    safe_command_unchanged Micro-IsOrdered Micro-IsArithmetic cramer kernel state (push nought)
      (obstacle ∷ []) nought refl resting refl

only_first_obstacle_constrains_example :
    without_margin (filtered (push (decimal 450 1)) (obstacle ∷ obstacle ∷ []))
    ≡ without_margin (filtered (push (decimal 450 1)) (obstacle ∷ []))
only_first_obstacle_constrains_example =
    only_first_obstacle_constrains cramer kernel state (push (decimal 450 1)) obstacle
      (obstacle ∷ []) nought

near_limit_brakes_example :
    (let most = max_allowed_torque kernel.limits 5 (decimal 3 3) in
      let least = min_allowed_torque kernel.limits 5 (decimal 3 3) in
      IsWithin Micro-IsOrdered kernel.limits most
      × IsWithin Micro-IsOrdered kernel.limits least
      × (true ≡ true
          → (micro_double.lt (decimal 33 2) most ≡ false)
            × (micro_double.lt least (neg (decimal 33 2)) ≡ false)))
near_limit_brakes_example = near_limit_brakes Micro-IsOrdered kernel.limits 5 (decimal 3 3) refl

-- the rows of the state above, for a torque that breaks two of them
abbrev rows : List (Row Micro)
rows = constraints kernel.limits state (obstacle ∷ [])

constraints-met_iff_example : (all (is_met (push nought)) rows ≡ true) ↔ (
    ((i : ℕ) → i < 7 → IsJointMet kernel.limits state (push nought) i)
    × IsObstacleMet kernel.limits state (push nought) (obstacle ∷ []))
constraints-met_iff_example =
    constraints-met_iff Micro-IsArithmetic kernel.limits state (push nought) (λ i h. refl)
      (obstacle ∷ [])
