-- ===== src/Kernel/Filter/Outcome.antt =====
-- What `filter_torques` returns, on every branch.
use neuro_kinetic.Base.{
  ℕ, zero, suc, ◌<◌, ◌≡◌, refl, true, false, Bool, ◌&&◌, List, [], ◌∷◌, Option, none, some, arith,
  ap, all_below→,
}
use neuro_kinetic.Double.{Double, nought}
use neuro_kinetic.Double.Laws.{IsOrdered, IsArithmetic}
use neuro_kinetic.Vector.{Vector, dof, dot, norm, difference, all_finite}
use neuro_kinetic.Kernel.{
  ControlBarrierKernel, ManipulatorState, Obstacle, SafetyOutput, Expected, value, unexpected,
  KernelErrorCode, LdltSolve,
}
use neuro_kinetic.Kernel.Limits.{smallest_margin}
use neuro_kinetic.Kernel.Rows.{constraints, obstacle_row}
use neuro_kinetic.Kernel.Rows.Spec.{IsJointMet, IsObstacleMet, constraints-met_iff}
use neuro_kinetic.Kernel.Qp.{is_violated, solve_active_set_qp}
use neuro_kinetic.Kernel.Qp.Spec.{any, solve_met, solve_succeeds, solve_saturates}
use neuro_kinetic.Kernel.Filter.{is_intervention, filter_torques}

module _ {D : Type 0} ⦃d : Double D⦄ where
  -- the inputs that the sanity check lets through
  abbrev pub is_sane : ManipulatorState D → Vector D → Bool
  is_sane state u = all_finite state.q && all_finite state.q_dot && all_finite u

  -- an outcome without the margin that it reports
  unfoldable pub without_margin : Expected D → Expected D
  without_margin (value out) = value (record out { barrier_margin = nought })
  without_margin (unexpected e) = unexpected e

  abbrev pub torque_of : Expected D → Option (Vector D)
  torque_of (value out) = some out.safe_torque
  torque_of (unexpected e) = none

module _ {D : Type 0} ⦃d : Double D⦄ (ldlt_solve : LdltSolve D) (kernel : ControlBarrierKernel D)
    (state : ManipulatorState D) (u : Vector D) (obstacles : List (Obstacle D))
    (elapsed_us : D) where
  abbrev pub result : Expected D
  result = filter_torques ldlt_solve kernel state u obstacles elapsed_us

  abbrev pub solution : Vector D
  solution =
      (solve_active_set_qp ldlt_solve kernel.limits u (constraints kernel.limits state obstacles)).1

  pub filter_torques-sane :
      is_sane state u ≡ true
      → result
        ≡ value (record {
          safe_torque = solution;
          intervention_triggered = is_intervention ldlt_solve solution u;
          solve_time_us = elapsed_us;
          barrier_margin =
              smallest_margin kernel.limits state.end_effector_pos (d.decimal 1000 1) obstacles;
        })
  unfolding filter_torques
  filter_torques-sane sane =
      ground (
        arith,
        solve_succeeds ldlt_solve kernel.limits u (constraints kernel.limits state obstacles),
      )

  -- it fails on inputs that are not finite
  pub filter_torques-insane :
      is_sane state u ≡ false → result ≡ unexpected KernelErrorCode.invalid_state
  unfolding filter_torques
  filter_torques-insane insane = ground arith

  -- A filtered torque is saturated: if the inputs are finite and a row is violated by more than 1e-4,
  -- the filter succeeds, and no torque of its output lies above the joint's ceiling or below its
  -- negation (for a joint whose ceiling is not below its negation), whatever the linear solver returns.
  pub filter_torques_saturates :
      IsOrdered D
      → is_sane state u ≡ true
      → any (is_violated u) (constraints kernel.limits state obstacles) ≡ true
      → (i : ℕ) → d.lt (kernel.limits.torque_max i) (d.neg (kernel.limits.torque_max i)) ≡ false
      → (out : SafetyOutput D) × (filter_torques ldlt_solve kernel state u obstacles elapsed_us
          ≡ value out)
        × (d.lt (out.safe_torque i) (d.neg (kernel.limits.torque_max i)) ≡ false)
        × (d.lt (kernel.limits.torque_max i) (out.safe_torque i) ≡ false)
  filter_torques_saturates laws sane violated i range =
      let (low, high) =
        solve_saturates laws ldlt_solve kernel.limits u (constraints kernel.limits state obstacles)
          violated i range in
      (_, filter_torques-sane sane, low, high)

module _ {D : Type 0} ⦃d : Double D⦄ (order : IsOrdered D) (laws : IsArithmetic D) where
  open laws use {zero-mul, zero-add, sub_self, zero_finite, sqrt-zero, zero-le}

  dot-difference_self :
      (n : ℕ) (u : Vector D)
      → ((i : ℕ) → i < n → d.is_finite (u i) ≡ true)
      → dot n (difference u u) (difference u u) ≡ nought
  unfolding dot
  dot-difference_self zero u h = refl
  dot-difference_self (suc n) u h = ground (
    arith,
    dot-difference_self n u (λ i lt. h i (omega arith)),
    sub_self (u n) (h n (omega arith)),
    zero-mul nought zero_finite,
    zero-add nought,
  )

  not-lt-zero : (m e : ℕ) → d.lt (d.decimal m e) nought ≡ false
  not-lt-zero m e = ground (arith, order.not-le_of_lt (d.decimal m e) nought, zero-le m e)

  unchanged-no_intervention :
      (ldlt_solve : LdltSolve D) (u : Vector D)
      → ((i : ℕ) → i < dof → d.is_finite (u i) ≡ true)
      → is_intervention ldlt_solve u u ≡ false
  unfolding norm
  unchanged-no_intervention ldlt_solve u h =
      ground (arith, dot-difference_self dof u h, sqrt-zero, not-lt-zero 1 2)

  -- The filter does not interfere with a safe command: if the inputs are finite, every joint keeps to
  -- the torques that its limits allow and joint 5 to what the first obstacle allows (all but for 1e-4),
  -- then the nominal torques come out unchanged, and no intervention is reported.
  pub safe_command_unchanged :
      (ldlt_solve : LdltSolve D) (kernel : ControlBarrierKernel D) (state : ManipulatorState D)
      (u : Vector D) (obstacles : List (Obstacle D)) (elapsed_us : D)
      → is_sane state u ≡ true
      → ((i : ℕ) → i < dof → IsJointMet kernel.limits state u i)
      → IsObstacleMet kernel.limits state u obstacles
      → (out : SafetyOutput D) × (filter_torques ldlt_solve kernel state u obstacles elapsed_us
          ≡ value out)
        × (out.safe_torque ≡ u)
        × (out.intervention_triggered ≡ false)
  safe_command_unchanged ldlt_solve kernel state u obstacles elapsed_us sane joints obstacle =
      let finite : (i : ℕ) → i < dof → d.is_finite (u i) ≡ true =
        all_below→ dof (λ i. d.is_finite (u i)) (ground arith) in
      let met =
        (constraints-met_iff laws kernel.limits state u finite obstacles).1 (joints, obstacle) in
      let same =
        ap (λ s. s.1)
          (solve_met ldlt_solve kernel.limits u (constraints kernel.limits state obstacles) met) in
      (
        _,
        filter_torques-sane ldlt_solve kernel state u obstacles elapsed_us sane,
        same,
        rw same (unchanged-no_intervention ldlt_solve u finite),
      )

module _ {D : Type 0} ⦃d : Double D⦄ where
  -- Of several obstacles only the first one shapes what the filter does: with or without the others it
  -- fails or succeeds alike, with the same torques, the same report of an intervention and the same
  -- time; the margin that is reported is left out of the comparison.
  pub only_first_obstacle_constrains :
      (ldlt_solve : LdltSolve D) (kernel : ControlBarrierKernel D) (state : ManipulatorState D)
      (u : Vector D) (obs : Obstacle D) (more : List (Obstacle D)) (elapsed_us : D)
      → without_margin (filter_torques ldlt_solve kernel state u (obs ∷ more) elapsed_us)
        ≡ without_margin (filter_torques ldlt_solve kernel state u (obs ∷ []) elapsed_us)
  unfolding filter_torques constraints obstacle_row without_margin
  only_first_obstacle_constrains ldlt_solve kernel state u obs more elapsed_us = ground arith
