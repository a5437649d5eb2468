-- ===== src/Kernel/Qp.antt =====
-- cbf_solver.cpp: `solve_active_set_qp`.
pub mod Spec
pub mod Optimal
pub mod Least
pub mod Averaged
mod Tests
use neuro_kinetic.Base.{
  ℕ, zero, suc, ◌<◌, Bool, true, false, ◌==◌, ltb, if◌then◌else◌, List, [], ◌∷◌, all, length,
  get_or,
}
use neuro_kinetic.Double.{Double, nought, clamp}
use neuro_kinetic.Vector.{Vector, dof, dot}
use neuro_kinetic.Kernel.{KinematicLimits, Row, LdltSolve}
use neuro_kinetic.Kernel.Rows.{zero_row}

module _ {D : Type 0} ⦃d : Double D⦄ where
  open d use {add, sub, neg, lt, le, decimal}

  -- an entry of `b - A * u`
  unfoldable pub violation : Vector D → Row D → D
  violation u row = sub row.bound (dot dof row.coeffs u)

  abbrev pub is_met : Vector D → Row D → Bool
  is_met u row = le (violation u row) (decimal 1 4)

  abbrev pub is_violated : Vector D → Row D → Bool
  is_violated u row = lt (decimal 1 4) (violation u row)

  -- The loop that collects `active_indices`, with room for `n` more rows.
  unfoldable pub active_rows : ℕ → Vector D → List (Row D) → List (Row D)
  active_rows zero u rows = []
  active_rows (suc n) u [] = []
  active_rows (suc n) u (row ∷ rows) = elim (is_violated u row) [
    | true ↦ row ∷ active_rows n u rows
    | false ↦ active_rows (suc n) u rows
  ]

  -- `M = A_act * A_act^T`, with the ridge on its diagonal
  abbrev pub gram : List (Row D) → ℕ → ℕ → D
  gram active i j =
      let product = dot dof (get_or active i zero_row).coeffs (get_or active j zero_row).coeffs in
      if i == j then add product (decimal 1 6) else product

  -- `rhs = A_act * u_des - b_act`
  abbrev pub residual : List (Row D) → Vector D → Vector D
  residual active u i = let row = get_or active i zero_row in sub (dot dof row.coeffs u) row.bound

  -- `u_des - A_act^T * lambda`
  abbrev pub projected : List (Row D) → Vector D → Vector D → Vector D
  projected active u lambda j =
      sub (u j) (dot (length active) (λ i. (get_or active i zero_row).coeffs j) lambda)

module _ {D : Type 0} ⦃d : Double D⦄ (ldlt_solve : LdltSolve D) (limits : KinematicLimits D) where
  open d use {neg}

  -- the last loop
  abbrev pub saturated : Vector D → Vector D
  saturated u i = clamp (u i) (neg (limits.torque_max i)) (limits.torque_max i)

  -- The result and `u_opt`.
  unfoldable pub solve_active_set_qp : Vector D → List (Row D) → Bool × Vector D
  solve_active_set_qp u_des rows =
      if length rows == 0
      then (true, u_des)
      else if all (is_met u_des) rows
      then (true, u_des)
      else (let active = active_rows dof u_des rows in
          if length active == 0
          then (true, u_des)
          else (let lambda = ldlt_solve (length active) (gram active) (residual active u_des) in
              (true, saturated (projected active u_des lambda))))
