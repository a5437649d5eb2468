-- ===== src/Kernel/Qp/Least.antt =====
-- The result of `solve_active_set_qp` as a least-squares solution.
use neuro_kinetic.Base.{ℕ, ◌<◌, ◌≡◌, refl, true, false, List, length, get_or, ap, ap₂, ◌∙◌, arith}
use neuro_kinetic.Double.{Double, clamp}
use neuro_kinetic.Double.Exact.{IsExact}
use neuro_kinetic.Vector.{Vector, dof, difference}
use neuro_kinetic.Vector.Sums.{dot_ext}
use neuro_kinetic.Kernel.{KinematicLimits, Row, LdltSolve}
use neuro_kinetic.Kernel.Rows.{zero_row}
use neuro_kinetic.Kernel.Qp.{
  violation, is_violated, active_rows, gram, residual, projected, solve_active_set_qp,
}
use neuro_kinetic.Kernel.Qp.Spec.{any, solve_violated}
use neuro_kinetic.Kernel.Qp.Optimal.{Solves, misses, cost, misses-projected, projected-IsLeast}

module _ {D : Type 0} ⦃d : Double D⦄ (laws : IsExact D) where
  open d use {add, mul, neg, sub, le, lt}
  open laws use {lt-le}

  not-le_of_lt : (x y : D) → lt x y ≡ true → le y x ≡ false
  not-le_of_lt x y h = ground (arith, lt-le x y)

  module _ (active : List (Row D)) (u v v' : Vector D) (same : (j : ℕ) → j < dof → v j ≡ v' j) where
    pub misses_ext : (i : ℕ) → misses active v i ≡ misses active v' i
    unfolding violation
    misses_ext i =
        ap (sub (get_or active i zero_row).bound)
          (dot_ext laws dof (get_or active i zero_row).coeffs _ v v' (λ j h. refl) same)

    cost_ext : cost active u v ≡ cost active u v'
    unfolding cost
    cost_ext =
        let apart = λ (j : ℕ) (h : j < dof). ap (λ t. sub t (u j)) (same j h) in
        ap₂ add
          (ap (mul (d.decimal 1 6)) (
            dot_ext laws dof (difference v u) (difference v' u) (difference v u) (difference v' u)
              apart apart))
          (dot_ext laws (length active) (misses active v) (misses active v') (misses active v)
            (misses active v') (λ i h. misses_ext i) (λ i h. misses_ext i))

  clamp_idle : (x lo hi : D) → lt x lo ≡ false → lt hi x ≡ false → clamp x lo hi ≡ x
  clamp_idle x lo hi h k = ground arith

module _ {D : Type 0} ⦃d : Double D⦄ (ldlt_solve : LdltSolve D) (limits : KinematicLimits D)
    (u : Vector D) (rows : List (Row D)) where
  open d use {neg, mul, le, lt}

  abbrev pub active : List (Row D)
  active = active_rows dof u rows

  abbrev pub lambda : Vector D
  lambda = ldlt_solve (length active) (gram active) (residual active u)

  abbrev pub point : Vector D
  point = projected active u lambda

  abbrev pub torque : Vector D
  torque = (solve_active_set_qp ldlt_solve limits u rows).1

  -- the ceilings are idle
  abbrev pub IsUncut : Type 0
  IsUncut =
      (j : ℕ)
      → j < dof
      → (lt (point j) (neg (limits.torque_max j)) ≡ false)
        × (lt (limits.torque_max j) (point j) ≡ false)

  pub torque-point :
      (laws : IsExact D)
      → any (is_violated u) rows ≡ true
      → IsUncut
      → (j : ℕ) → j < dof
      → torque j ≡ point j
  torque-point laws violated uncut j h =
      ap (λ r. r.1 j) (solve_violated (not-le_of_lt laws) ldlt_solve limits u rows violated)
      ∙ clamp_idle laws (point j) (neg (limits.torque_max j)) (limits.torque_max j) (uncut j h).0
          (uncut j h).1

  -- The solver finds the best torques: in exact arithmetic, if a row is violated by more than 1e-4, the
  -- linear solver solves its system, and the ceilings do not cut the projection off, then the result
  -- has the least cost of all torques `v`, where the cost is the sum of the squares by which the active
  -- rows are missed and of 1e-6 times the squared distance from the wanted torques; and it misses each
  -- active row by 1e-6 times its multiplier.
  pub solve-IsLeast :
      (laws : IsExact D) (v : Vector D)
      → any (is_violated u) rows ≡ true
      → Solves active u lambda
      → IsUncut
      → (le (cost active u torque) (cost active u v) ≡ true)
        × ((i : ℕ)
            → i < length active
            → misses active torque i ≡ neg (mul (d.decimal 1 6) (lambda i)))
  solve-IsLeast laws v violated solves uncut =
      let same = torque-point laws violated uncut in
      (
        ap (λ c. le c (cost active u v)) (cost_ext laws active u torque point same)
            ∙ projected-IsLeast laws active u lambda solves v,
        λ i h.
            misses_ext laws active u torque point same i
            ∙ misses-projected laws active u lambda solves i h,
      )
