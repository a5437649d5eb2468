-- ===== src/Kernel/Rows/Spec.antt =====
-- What it means that the rows of `filter_torques` are met.
use neuro_kinetic.Base.{
  ℕ, zero, suc, ◌&&◌, if◌then◌else◌, ◌+◌, ◌≡◌, refl, ◌↔◌, ◌≤◌, ◌<◌, true, List, [], ◌∷◌, arith, all,
  all-append,
}
use neuro_kinetic.Double.{Double, nought}
use neuro_kinetic.Double.Laws.{IsArithmetic}
use neuro_kinetic.Vector.{Vector, dof, dot}
use neuro_kinetic.Kernel.{KinematicLimits, ManipulatorState, Obstacle}
use neuro_kinetic.Kernel.Rows.{
  single, max_torque, min_torque, upper_row, lower_row, joint_rows, obstacle_row, constraints,
}
use neuro_kinetic.Kernel.Limits.{compute_obstacle_barrier}
use native.Mathlib.Decide.{dec_lt}
use neuro_kinetic.Kernel.Qp.{violation, is_met}

module _ {D : Type 0} ⦃d : Double D⦄ (limits : KinematicLimits D) (state : ManipulatorState D)
    (u : Vector D) where
  -- The torque of a joint exceeds neither of the two that its limits allow, but for 1e-4.
  abbrev pub IsJointMet : ℕ → Type 0
  IsJointMet i =
      (d.le (d.sub (u i) (max_torque limits state i)) (d.decimal 1 4) ≡ true)
      × (d.le (d.sub (min_torque limits state i) (u i)) (d.decimal 1 4) ≡ true)

  -- what the first obstacle allows joint 5
  abbrev pub reach_limit : Obstacle D → D
  reach_limit obs =
      if d.lt (compute_obstacle_barrier limits state.end_effector_pos obs) (d.decimal 5 2)
      then d.decimal 5 2
      else limits.torque_max 5

  abbrev pub IsObstacleMet : List (Obstacle D) → Type 0
  IsObstacleMet [] = Unit
  IsObstacleMet (obs ∷ obstacles) = d.le (d.sub (u 5) (reach_limit obs)) (d.decimal 1 4) ≡ true

module _ {D : Type 0} ⦃d : Double D⦄ (laws : IsArithmetic D) where
  open d use {mul, neg, sub, decimal}
  open laws use {
    zero-add, add-zero, zero-mul, one-mul, neg_one-mul, neg-sub-neg, sub_self, zero_finite, zero-le,
  }

  abbrev pub Finite : ℕ → Vector D → Type 0
  Finite n u = (i : ℕ) → i < n → d.is_finite (u i) ≡ true

  dot-zero : (n : ℕ) (u : Vector D) → Finite n u → dot n (λ _. nought) u ≡ nought
  unfolding dot
  dot-zero zero u h = refl
  dot-zero (suc n) u h = ground (
    arith,
    dot-zero n u (λ i lt. h i (omega arith)),
    zero-mul (u n) (h n (omega arith)),
    zero-add nought,
  )

  dot-single_above :
      (n i : ℕ) (c : D) (u : Vector D) → Finite n u → n ≤ i → dot n (single i c) u ≡ nought
  unfolding dot
  dot-single_above zero i c u h le = refl
  dot-single_above (suc n) i c u h le = ground (
    arith,
    dot-single_above n i c u (λ i lt. h i (omega arith)) (omega arith),
    zero-mul (u n) (h n (omega arith)),
    zero-add nought,
  )

  dot-single :
      (n i : ℕ) (c : D) (u : Vector D) → Finite n u → i < n → dot n (single i c) u ≡ mul c (u i)
  unfolding dot
  dot-single zero i c u h lt = absurd (omega arith)
  dot-single (suc n) i c u h lt = elim (dec_lt i n) [
    | yes below ↦ ground (
      arith,
      dot-single n i c u (λ k lt. h k (omega arith)) below,
      zero-mul (u n) (h n (omega arith)),
      add-zero (mul c (u i)),
    )
    | no last ↦
        let e : i ≡ n = omega arith in
        ground (
          arith,
          dot-single_above n i c u (λ k lt. h k (omega arith)) (omega arith),
          zero-add (mul c (u i)),
        )
  ]

  module _ (limits : KinematicLimits D) (state : ManipulatorState D) (u : Vector D) where
    module _ (finite : Finite dof u) where
      pub violation-upper :
          (i : ℕ)
          → i < dof
          → violation u (upper_row limits state i) ≡ sub (u i) (max_torque limits state i)
      unfolding violation
      violation-upper i lt = ground (
        arith,
        dot-single dof i (neg (decimal 10 1)) u finite lt,
        neg_one-mul (u i),
        neg-sub-neg (max_torque limits state i) (u i),
      )

      pub violation-lower :
          (i : ℕ)
          → i < dof
          → violation u (lower_row limits state i) ≡ sub (min_torque limits state i) (u i)
      unfolding violation
      violation-lower i lt =
          ground (arith, dot-single dof i (decimal 10 1) u finite lt, one-mul (u i))

      JointMet_iff :
          (i : ℕ)
          → i < dof
          → ((is_met u (upper_row limits state i) && is_met u (lower_row limits state i)) ≡ true)
            ↔ IsJointMet limits state u i
      JointMet_iff i lt = ground (arith, violation-upper i lt, violation-lower i lt)

      joint_rows-met :
          (n i : ℕ)
          → i + n ≤ dof
          → (all (is_met u) (joint_rows limits state i n) ≡ true)
            ↔ ((k : ℕ) → i ≤ k → k < i + n → IsJointMet limits state u k)
      unfolding joint_rows
      joint_rows-met zero i h = (λ e k p q. absurd (omega arith), λ f. refl)
      joint_rows-met (suc n) i h = (
        λ e k p q. elim (dec_lt i k) [
          | yes later ↦
              (joint_rows-met n (i + 1) (omega arith)).0 (ground arith) k (omega arith)
                (omega arith)
          | no first ↦
              let same : i ≡ k = omega arith in
              rw (← same) ((JointMet_iff i (omega arith)).0 (ground arith))
        ],
        λ f. ground (
          arith,
          (JointMet_iff i (omega arith)).1 (f i (omega arith) (omega arith)),
          (joint_rows-met n (i + 1) (omega arith)).1 (λ k p q. f k (omega arith) (omega arith)),
        ),
      )

      obstacle_row-met :
          (obstacles : List (Obstacle D))
          → (is_met u (obstacle_row limits state obstacles) ≡ true)
            ↔ IsObstacleMet limits state u obstacles
      unfolding obstacle_row violation
      obstacle_row-met [] =
          ground (arith, dot-zero dof u finite, sub_self nought zero_finite, zero-le 1 4)
      obstacle_row-met (obs ∷ obstacles) = ground (
        arith,
        dot-single dof 5 (neg (decimal 10 1)) u finite (omega arith),
        neg_one-mul (u 5),
        neg-sub-neg (decimal 5 2) (u 5),
        neg-sub-neg (limits.torque_max 5) (u 5),
      )

      -- For finite torques, the rows that `filter_torques` builds are all met just when every joint keeps
      -- to the torques that its limits allow and joint 5 to what the first obstacle allows.
      pub constraints-met_iff :
          (obstacles : List (Obstacle D))
          → (all (is_met u) (constraints limits state obstacles) ≡ true) ↔ (
              ((i : ℕ) → i < dof → IsJointMet limits state u i)
              × IsObstacleMet limits state u obstacles)
      unfolding constraints
      constraints-met_iff obstacles =
          let rows = joint_rows limits state 0 dof in
          let split = all-append (is_met u) rows (obstacle_row limits state obstacles ∷ []) in
          let (met, allowed) = joint_rows-met dof 0 (omega arith) in
          let (row_met, reach) = obstacle_row-met obstacles in
          (
            λ e. (
              (λ i lt. met (ground arith) i (omega arith) (omega arith)),
              row_met (ground arith),
            ),
            λ (joints, obstacle).
                ground (arith, allowed (λ k p q. joints k (omega arith)), reach obstacle),
          )
