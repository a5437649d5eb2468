-- ===== src/Kernel/Filter/Held.antt =====
-- How far a filtered torque can go.
use neuro_kinetic.Base.{
  ℕ, zero, suc, ◌+◌, ◌<◌, ◌≤◌, ◌≡◌, refl, Bool, true, false, ◌||◌, List, [], ◌∷◌, ◌++◌, ◌⊎◌, inl,
  inr, Bool-cases, arith, all_below→, ap,
}
use neuro_kinetic.Double.{Double}
use neuro_kinetic.Double.Laws.{IsOrdered, IsArithmetic}
use neuro_kinetic.Vector.{Vector, dof}
use neuro_kinetic.Kernel.{
  KinematicLimits, ControlBarrierKernel, ManipulatorState, Obstacle, LdltSolve,
}
use neuro_kinetic.Kernel.Rows.{
  upper_row, lower_row, joint_rows, obstacle_row, constraints, max_torque, min_torque,
}
use neuro_kinetic.Kernel.Rows.Spec.{violation-upper, violation-lower}
use neuro_kinetic.Kernel.Qp.{is_violated}
use neuro_kinetic.Kernel.Qp.Spec.{any, solve_unviolated, solve_saturates}
use neuro_kinetic.Kernel.Filter.Outcome.{is_sane, solution}
use native.Mathlib.Decide.{dec_lt}

module _ {ℓ} {A : Type ℓ} (p : A → Bool) where
  any-append : (xs ys : List A) → any p (xs ++ ys) ≡ (any p xs || any p ys)
  any-append [] ys = refl
  any-append (x ∷ xs) ys = ground (arith, any-append xs ys)

module _ {D : Type 0} ⦃d : Double D⦄ (limits : KinematicLimits D) (state : ManipulatorState D)
    (u : Vector D) where
  -- the torque is not above the joint's ceiling nor below its negation
  abbrev pub IsUnderCeiling : ℕ → Type 0
  IsUnderCeiling i =
      (d.lt (limits.torque_max i) (u i) ≡ false)
      × (d.lt (u i) (d.neg (limits.torque_max i)) ≡ false)

  -- the torque goes past what the joint's limits allow by no more than 1e-4
  abbrev pub IsAllowed : ℕ → Type 0
  IsAllowed i =
      (d.lt (d.decimal 1 4) (d.sub (u i) (max_torque limits state i)) ≡ false)
      × (d.lt (d.decimal 1 4) (d.sub (min_torque limits state i) (u i)) ≡ false)

  joint_rows-any :
      (n i k : ℕ)
      → any (is_violated u) (joint_rows limits state i n) ≡ false
      → i ≤ k
      → k < i + n
      → (is_violated u (upper_row limits state k) ≡ false)
        × (is_violated u (lower_row limits state k) ≡ false)
  unfolding joint_rows
  joint_rows-any zero i k e p q = absurd (omega arith)
  joint_rows-any (suc n) i k e p q = elim (dec_lt i k) [
    | yes later ↦ joint_rows-any n (i + 1) k (ground arith) (omega arith) (omega arith)
    | no first ↦ let same : i ≡ k = omega arith in rw (← same) (ground arith, ground arith)
  ]

  constraints-any :
      (obstacles : List (Obstacle D)) (k : ℕ)
      → any (is_violated u) (constraints limits state obstacles) ≡ false
      → k < dof
      → (is_violated u (upper_row limits state k) ≡ false)
        × (is_violated u (lower_row limits state k) ≡ false)
  unfolding constraints
  constraints-any obstacles k e lt =
      let split =
        any-append (is_violated u) (joint_rows limits state 0 dof)
          (obstacle_row limits state obstacles ∷ []) in
      joint_rows-any dof 0 k (ground arith) (omega arith) (omega arith)

module _ {D : Type 0} ⦃d : Double D⦄ (order : IsOrdered D) (laws : IsArithmetic D)
    (ldlt_solve : LdltSolve D) (kernel : ControlBarrierKernel D) (state : ManipulatorState D)
    (u : Vector D) (obstacles : List (Obstacle D)) (elapsed_us : D) where
  -- If the inputs are finite, a torque of the solution is under the ceiling of its joint, or it is the
  -- nominal one and what the joint's limits allow.
  pub solution-IsHeld :
      (i : ℕ)
      → i < dof
      → d.lt (kernel.limits.torque_max i) (d.neg (kernel.limits.torque_max i)) ≡ false
      → is_sane state u ≡ true
      → let torque = solution ldlt_solve kernel state u obstacles elapsed_us in
        IsUnderCeiling kernel.limits state torque i
        ⊎ ((torque i ≡ u i) × IsAllowed kernel.limits state torque i)
  solution-IsHeld i lt range sane =
      let rows = constraints kernel.limits state obstacles in
      let finite : (k : ℕ) → k < dof → d.is_finite (u k) ≡ true =
        all_below→ dof (λ k. d.is_finite (u k)) (ground arith) in
      elim (Bool-cases (any (is_violated u) rows)) [
        | inl violated ↦
            let (low, high) =
              solve_saturates order ldlt_solve kernel.limits u rows violated i range in
            inl (high, low)
        | inr met ↦
            let same = ap (λ s. s.1) (solve_unviolated ldlt_solve kernel.limits u rows met) in
            let (upper, lower) = constraints-any kernel.limits state u obstacles i met lt in
            inr (
              ap (λ t. t i) same,
              (
                rw (same, ← (violation-upper laws kernel.limits state u finite i lt)) upper,
                rw (same, ← (violation-lower laws kernel.limits state u finite i lt)) lower,
              ),
            )
      ]
