-- ===== src/Kernel/Limits/Bounds.antt =====
-- The torques that a joint is allowed near a limit, and the margin over the obstacles.
use neuro_kinetic.Base.{ℕ, ◌≡◌, true, false, List, [], ◌∷◌, All, arith, if◌then◌else◌}
use neuro_kinetic.Double.{Double}
use neuro_kinetic.Double.Laws.{IsOrdered, clamp_within}
use neuro_kinetic.Vector.{Vector}
use neuro_kinetic.Kernel.{KinematicLimits, Obstacle}
use neuro_kinetic.Kernel.Limits.{
  compute_obstacle_barrier, barrier_torque, max_allowed_torque, min_allowed_torque, smallest_margin,
}

module _ {D : Type 0} ⦃d : Double D⦄ (laws : IsOrdered D) (limits : KinematicLimits D) where
  open d use {lt, le, neg, decimal}
  open laws use {lt_irrefl, lt_trans, decimal_scale}

  abbrev ceiling : D
  ceiling = decimal 870 1

  -- the value does not lie outside the range from -87 to 87
  abbrev pub IsWithin : D → Type 0
  IsWithin x = (lt x (neg ceiling) ≡ false) × (lt ceiling x ≡ false)

  small : lt ceiling (decimal 33 2) ≡ false
  small = rw (← decimal_scale 870 1 (omega arith)) (laws.le_decimal 8700 33 2 (omega arith))

  barrier_torque-IsWithin : (h : D) → IsWithin (barrier_torque limits h)
  barrier_torque-IsWithin h = clamp_within laws _ _ _ (laws.neg_decimal 870 1 870 1)

  -- Within 0.15 of a limit, the torque allowed towards it stays between -87 and 87, and within 0.005 it
  -- does not exceed 0.33 in the direction of the limit; so for the upper and for the lower limit of a
  -- joint, also past the limit.
  pub near_limit_brakes :
      (i : ℕ) (h : D)
      → lt h (decimal 15 2) ≡ true
      → IsWithin (max_allowed_torque limits i h)
        × IsWithin (min_allowed_torque limits i h)
        × (le h (decimal 5 3) ≡ true
            → (lt (decimal 33 2) (max_allowed_torque limits i h) ≡ false)
              × (lt (min_allowed_torque limits i h) (neg (decimal 33 2)) ≡ false))
  unfolding max_allowed_torque min_allowed_torque
  near_limit_brakes i h close = ground (
    arith,
    barrier_torque-IsWithin h,
    barrier_torque-IsWithin (neg h),
    small,
    laws.neg_decimal 33 2 870 1,
    laws.neg_decimal 870 1 33 2,
    laws.lt-neg-neg (decimal 33 2) ceiling,
    lt_irrefl (decimal 33 2),
    lt_irrefl (neg (decimal 33 2)),
  )

  -- With a ceiling of 87 the torques that a joint is allowed stay within it, near a limit or not.
  pub allowed-IsWithin :
      (i : ℕ) (h : D)
      → limits.torque_max i ≡ ceiling
      → IsWithin (max_allowed_torque limits i h) × IsWithin (min_allowed_torque limits i h)
  unfolding max_allowed_torque min_allowed_torque
  allowed-IsWithin i h e = ground (
    arith,
    barrier_torque-IsWithin h,
    barrier_torque-IsWithin (neg h),
    small,
    laws.neg_decimal 33 2 870 1,
    laws.neg_decimal 870 1 33 2,
    laws.neg_decimal 870 1 870 1,
    laws.lt-neg-neg (decimal 33 2) ceiling,
    lt_irrefl ceiling,
    lt_irrefl (neg ceiling),
  )

  module _ (ee_pos : Vector D) where
    abbrev barrier : Obstacle D → D
    barrier = compute_obstacle_barrier limits ee_pos

    smallest_margin_bound :
        (m : D) (obstacles : List (Obstacle D)) (x : D)
        → lt x m ≡ false
        → lt x (smallest_margin limits ee_pos m obstacles) ≡ false
    unfolding smallest_margin
    smallest_margin_bound m [] x h = h
    smallest_margin_bound m (obs ∷ obstacles) x h =
        smallest_margin_bound (if lt (barrier obs) m then barrier obs else m) obstacles x
          (ground (arith, lt_trans x (barrier obs) m))

    smallest_margin-All :
        (m : D) (obstacles : List (Obstacle D))
        → All
            (λ obs. lt (barrier obs) (smallest_margin limits ee_pos m obstacles) ≡ false)
            obstacles
    unfolding smallest_margin
    smallest_margin-All m [] = tt
    smallest_margin-All m (obs ∷ obstacles) =
        let next : D = if lt (barrier obs) m then barrier obs else m in
        (
          smallest_margin_bound next obstacles (barrier obs)
              (ground (arith, lt_irrefl (barrier obs))),
          smallest_margin-All next obstacles,
        )

    -- The margin that is reported from a start value exceeds neither the barrier of any obstacle nor
    -- the start value.
    smallest_margin-le :
        (m : D) (obstacles : List (Obstacle D))
        → let least = smallest_margin limits ee_pos m obstacles in
          (lt m least ≡ false)
          × All (λ obs. lt (compute_obstacle_barrier limits ee_pos obs) least ≡ false) obstacles
    smallest_margin-le m obstacles =
        (smallest_margin_bound m obstacles m (lt_irrefl m), smallest_margin-All m obstacles)
