-- ===== src/Kernel/Qp/Optimal.antt =====
-- What the projection of `solve_active_set_qp` is but for rounding: the point of the least cost.
-- `M.ldlt().solve(rhs)` is taken at its word here: its result solves the system.
use neuro_kinetic.Base.{ℕ, ◌<◌, ◌≡◌, refl, true, List, length, get_or, sym, ap, ap₂, ◌∙◌}
use neuro_kinetic.Double.{Double, nought}
use neuro_kinetic.Double.Exact.{
  IsExact, solve_for, sub-add_self, telescope_bound, telescope, drop_twice, regroup, mul-neg,
  neg-neg, add-zero,
}
use neuro_kinetic.Vector.{Vector, dof, dot, difference}
use neuro_kinetic.Vector.Sums.{
  dot_ext, dot_comm, dot-neg, dot-sub, dot-scale, dot-dot, dot-ridge, dot-square, dot_nonneg,
}
use neuro_kinetic.Kernel.{Row}
use neuro_kinetic.Kernel.Rows.{zero_row}
use neuro_kinetic.Kernel.Qp.{violation, gram, residual, projected}

module _ {D : Type 0} ⦃d : Double D⦄ where
  open d use {add, mul, decimal}

  -- `lambda` solves `M * lambda = rhs`.
  abbrev pub Solves : List (Row D) → Vector D → Vector D → Type 0
  Solves active u lambda =
      (i : ℕ) → i < length active → dot (length active) (gram active i) lambda ≡ residual active u i

  -- how far `v` misses each of the rows
  abbrev pub misses : List (Row D) → Vector D → Vector D
  misses active v i = violation v (get_or active i zero_row)

  -- What the projection is to make small: the rows that `v` misses, squared, and with the weight of the
  -- ridge the distance from `u`, squared.
  unfoldable pub cost : List (Row D) → Vector D → Vector D → D
  cost active u v =
      add (mul (decimal 1 6) (dot dof (difference v u) (difference v u)))
        (dot (length active) (misses active v) (misses active v))

module _ {D : Type 0} ⦃d : Double D⦄ (laws : IsExact D) where
  open d use {add, mul, neg, sub, le}
  open laws use {
    add_comm, add_assoc, add-neg, sub-eq, mul-add, le-sub, add_nonneg, mul_nonneg, square_nonneg,
    literal_nonneg,
  }

  module _ (active : List (Row D)) (u lambda : Vector D) (solves : Solves active u lambda) where
    abbrev row : ℕ → Row D
    row i = get_or active i zero_row

    abbrev point : Vector D
    point = projected active u lambda

    row-point :
        (i : ℕ)
        → i < length active
        → dot dof (row i).coeffs point ≡ add (row i).bound (mul (d.decimal 1 6) (lambda i))
    row-point i h =
        dot-sub laws dof (row i).coeffs u (λ j. dot (length active) (λ m. (row m).coeffs j) lambda)
        ∙ ap (λ t. add (dot dof (row i).coeffs u) (neg t))
            (dot-dot laws dof (length active) (row i).coeffs lambda (λ m. (row m).coeffs))
        ∙ solve_for laws _ _ _ _ (
            sym (
              dot-ridge laws (length active) i (d.decimal 1 6)
                (λ m. dot dof (row i).coeffs (row m).coeffs) lambda h)
            ∙ solves i h
            ∙ sub-eq _ _)

    -- The projection misses every active row by the ridge times its multiplier, and by nothing else.
    pub misses-projected :
        (i : ℕ) → i < length active → misses active point i ≡ neg (mul (d.decimal 1 6) (lambda i))
    unfolding violation
    misses-projected i h = ap (sub (row i).bound) (row-point i h) ∙ sub-add_self laws _ _

    module _ (v : Vector D) where
      -- from the projection to `v`, and along each row
      abbrev step : Vector D
      step = difference v point

      abbrev along : Vector D
      along i = dot dof step (row i).coeffs

      abbrev back : Vector D
      back i = neg (along i)

      abbrev share : D
      share = dot (length active) along lambda

      -- The excess of the cost of `v`.
      abbrev pub excess : D
      excess = add (mul (d.decimal 1 6) (dot dof step step)) (dot (length active) back back)

      misses-step : (i : ℕ) → misses active v i ≡ add (misses active point i) (back i)
      unfolding violation
      misses-step i =
          telescope_bound laws (row i).bound (dot dof (row i).coeffs v)
            (dot dof (row i).coeffs point)
          ∙ ap (λ t. add (sub (row i).bound (dot dof (row i).coeffs point)) (neg t))
              (sym (
                dot_comm laws dof step (row i).coeffs
                ∙ dot-sub laws dof (row i).coeffs v point
                ∙ sym (sub-eq _ _)))

      point-back :
          (j : ℕ) → sub (point j) (u j) ≡ neg (dot (length active) (λ m. (row m).coeffs j) lambda)
      point-back j =
          sub-eq (point j) (u j)
          ∙ ap (λ t. add t (neg (u j))) (sub-eq (u j) _ ∙ add_comm (u j) _)
          ∙ add_assoc _ (u j) (neg (u j))
          ∙ ap (add _) (add-neg (u j))
          ∙ add-zero laws _

      step-point : dot dof step (difference point u) ≡ neg share
      step-point =
          dot_ext laws dof step step (difference point u) _ (λ j h. refl) (λ j h. point-back j)
          ∙ dot-neg laws dof step (λ j. dot (length active) (λ m. (row m).coeffs j) lambda)
          ∙ ap neg (dot-dot laws dof (length active) step lambda (λ m. (row m).coeffs))

      misses-back : dot (length active) (misses active point) back ≡ mul (d.decimal 1 6) share
      misses-back =
          dot_ext laws (length active) (misses active point)
            (λ i. neg (mul (d.decimal 1 6) (lambda i))) back back misses-projected (λ i h. refl)
          ∙ dot_comm laws (length active) _ back
          ∙ dot-neg laws (length active) back (λ i. mul (d.decimal 1 6) (lambda i))
          ∙ ap neg (
              dot-scale laws (length active) (d.decimal 1 6) back lambda
              ∙ ap (mul (d.decimal 1 6)) (
                  dot_comm laws (length active) back lambda
                  ∙ dot-neg laws (length active) lambda along
                  ∙ ap neg (dot_comm laws (length active) lambda along))
              ∙ mul-neg laws (d.decimal 1 6) share)
          ∙ neg-neg laws (mul (d.decimal 1 6) share)

      distance :
          dot dof (difference v u) (difference v u)
          ≡ add
              (add (dot dof step step) (dot dof (difference point u) (difference point u)))
              (add (neg share) (neg share))
      distance =
          dot_ext laws dof (difference v u) _ (difference v u) _
            (λ j h. telescope laws (v j) (point j) (u j))
            (λ j h. telescope laws (v j) (point j) (u j))
          ∙ dot-square laws dof step (difference point u)
          ∙ ap (add (add (dot dof step step) (dot dof (difference point u) (difference point u))))
              (ap₂ add step-point step-point)

      missed :
          dot (length active) (misses active v) (misses active v)
          ≡ add
              (add
                (dot (length active) (misses active point) (misses active point))
                (dot (length active) back back))
              (add (mul (d.decimal 1 6) share) (mul (d.decimal 1 6) share))
      missed =
          dot_ext laws (length active) (misses active v) _ (misses active v) _
            (λ i h. misses-step i) (λ i h. misses-step i)
          ∙ dot-square laws (length active) (misses active point) back
          ∙ ap (add _) (ap₂ add misses-back misses-back)

      cost-step : cost active u v ≡ add (cost active u point) excess
      unfolding cost
      cost-step =
          ap₂ add
            (ap (mul (d.decimal 1 6)) distance
              ∙ mul-add (d.decimal 1 6) _ _
              ∙ ap₂ add (mul-add (d.decimal 1 6) _ _) (
                  mul-add (d.decimal 1 6) (neg share) (neg share)
                  ∙ ap₂ add (mul-neg laws (d.decimal 1 6) share)
                      (mul-neg laws (d.decimal 1 6) share)))
            missed
          ∙ drop_twice laws _ _ (mul (d.decimal 1 6) share)
          ∙ regroup laws _ _ _ _

      excess_nonneg : le nought excess ≡ true
      excess_nonneg =
          add_nonneg _ _ (mul_nonneg _ _ literal_nonneg (dot_nonneg laws dof step))
            (dot_nonneg laws (length active) back)

      -- Among all torques the projection has the least cost.
      pub projected-IsLeast : le (cost active u point) (cost active u v) ≡ true
      projected-IsLeast =
          le-sub (cost active u point) (cost active u v)
          ∙ ap (le nought) (
              sub-eq (cost active u v) (cost active u point)
              ∙ ap (λ t. add t (neg (cost active u point))) (cost-step ∙ add_comm _ _)
              ∙ add_assoc _ _ _
              ∙ ap (add excess) (add-neg (cost active u point))
              ∙ add-zero laws excess)
          ∙ excess_nonneg
