-- ===== src/Kernel/Limits.antt =====
-- cbf_solver.cpp: the barrier of an obstacle, and the torques that a joint near a limit is allowed.
pub mod Bounds
use neuro_kinetic.Base.{ℕ, if◌then◌else◌, List, [], ◌∷◌, update}
use neuro_kinetic.Double.{Double, nought, clamp, minimum, maximum}
use neuro_kinetic.Vector.{Vector, difference, norm}
use neuro_kinetic.Kernel.{KinematicLimits, Obstacle}

module _ {D : Type 0} ⦃d : Double D⦄ (limits : KinematicLimits D) where
  open d use {add, sub, mul, div, neg, lt, le, decimal}

  unfoldable pub compute_obstacle_barrier : Vector D → Obstacle D → D
  compute_obstacle_barrier ee_pos obs =
      sub (norm 3 (difference ee_pos obs.position)) (add obs.radius limits.min_obstacle_distance)

  -- `Eigen::Vector3d::UnitZ()`
  abbrev pub unit_z : Vector D
  unit_z = update (λ _. nought) 2 (decimal 1 0)

  unfoldable pub compute_barrier_gradient : Vector D → Obstacle D → Vector D
  compute_barrier_gradient ee_pos obs =
      let diff = difference ee_pos obs.position in
      let dist = norm 3 diff in if lt dist (decimal 1 6) then unit_z else λ i. div (diff i) dist

  -- `std::clamp(h * 10.0 * 87.0, -87.0, 87.0)`
  abbrev pub barrier_torque : D → D
  barrier_torque h =
      clamp (mul (mul h (decimal 100 1)) (decimal 870 1)) (neg (decimal 870 1)) (decimal 870 1)

  -- `max_allowed_torque`, at the distance `h_upper` of joint `i` from its upper limit
  unfoldable pub max_allowed_torque : ℕ → D → D
  max_allowed_torque i h_upper =
      if lt h_upper (decimal 15 2)
      then (let braked = barrier_torque h_upper in
          if le h_upper (decimal 5 3) then minimum braked (decimal 33 2) else braked)
      else limits.torque_max i

  -- `min_allowed_torque`, at the distance `h_lower` of joint `i` from its lower limit
  unfoldable pub min_allowed_torque : ℕ → D → D
  min_allowed_torque i h_lower =
      if lt h_lower (decimal 15 2)
      then (let braked = barrier_torque (neg h_lower) in
          if le h_lower (decimal 5 3) then maximum braked (neg (decimal 33 2)) else braked)
      else neg (limits.torque_max i)

  -- The first loop of `filter_torques`: the smallest barrier of the obstacles, from `min_margin`.
  unfoldable pub smallest_margin : Vector D → D → List (Obstacle D) → D
  smallest_margin ee_pos min_margin [] = min_margin
  smallest_margin ee_pos min_margin (obs ∷ obstacles) =
      let margin = compute_obstacle_barrier ee_pos obs in
      smallest_margin ee_pos (if lt margin min_margin then margin else min_margin) obstacles
