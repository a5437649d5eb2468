-- ===== src/Kernel/Qp/Tests.antt =====
-- The projection over whole numbers, where a literal loses its exponent: the ridge is 1 here.
use neuro_kinetic.Base.{
  ◌==◌, if◌then◌else◌, get_or, ℕ, zero, suc, ◌<◌, ◌≡◌, refl, true, List, [], ◌∷◌, length, arith,
}
use neuro_kinetic.Base.Int.{pos, negsuc}
use neuro_kinetic.Double.Whole.{Whole, whole, whole_double, Whole-IsExact}
use neuro_kinetic.Vector.{Vector, dof, dot}
use neuro_kinetic.Kernel.{KinematicLimits, Row, LdltSolve}
use neuro_kinetic.Kernel.Rows.{single, zero_row}
use neuro_kinetic.Kernel.Qp.{violation, active_rows, solve_active_set_qp}
use neuro_kinetic.Kernel.Qp.Optimal.{Solves, misses, cost}
use neuro_kinetic.Kernel.Qp.Least.{active, lambda, torque, solve-IsLeast, IsUncut}
use neuro_kinetic.Kernel.Qp.Averaged.{rows_averaged}
open whole_double use {le, neg, mul, div, add, sub}

-- `u(2) >= 10` and `-u(5) >= -90`
abbrev rows : List (Row Whole)
rows =
    record { coeffs = single 2 (whole (pos 1)); bound = whole (pos 10) }
    ∷ record { coeffs = single 5 (whole (negsuc 0)); bound = whole (negsuc 89) }
    ∷ []

abbrev limits : KinematicLimits Whole
limits = record {
  q_min = λ i. whole (negsuc 2);
  q_max = λ i. whole (pos 3);
  q_dot_max = λ i. whole (pos 2);
  torque_max = λ i. whole (pos 87);
  min_obstacle_distance = whole (pos 1);
}

-- the solution of one equation
abbrev divide : LdltSolve Whole
divide n m rhs i = div (rhs i) (m i i)

abbrev still : Vector Whole
still i = whole (pos 0)

abbrev other : Vector Whole
other i = whole (pos 7)

-- the ridge keeps the torque half-way to the bound
halfway : (solve_active_set_qp divide limits still rows).1 2 ≡ whole (pos 5)
unfolding solve_active_set_qp active_rows violation dot
halfway = refl

solved : Solves (active divide limits still rows) still (lambda divide limits still rows)
unfolding active_rows violation dot
solved zero h = refl
solved (suc i) h = absurd (omega arith)

within : IsUncut divide limits still rows
unfolding active_rows violation dot
within zero h = (refl, refl)
within (suc zero) h = (refl, refl)
within (suc (suc zero)) h = (refl, refl)
within (suc (suc (suc zero))) h = (refl, refl)
within (suc (suc (suc (suc zero)))) h = (refl, refl)
within (suc (suc (suc (suc (suc zero))))) h = (refl, refl)
within (suc (suc (suc (suc (suc (suc zero)))))) h = (refl, refl)
within (suc (suc (suc (suc (suc (suc (suc j))))))) h = absurd (omega arith)

solve-IsLeast_example :
    (le
        (cost (active divide limits still rows) still (torque divide limits still rows))
        (cost (active divide limits still rows) still other)
      ≡ true)
    × ((i : ℕ)
        → i < length (active divide limits still rows)
        → misses (active divide limits still rows) (torque divide limits still rows) i
          ≡ neg (mul (whole (pos 1)) (lambda divide limits still rows i)))
unfolding violation dot
solve-IsLeast_example =
    solve-IsLeast divide limits still rows Whole-IsExact other refl solved within

-- `-u(5) >= -10` and `-u(5) >= -1`, where 22 is wanted: the torque is 11, with the ridge 1
abbrev pair : List (Row Whole)
pair =
    record { coeffs = single 5 (whole (negsuc 0)); bound = whole (negsuc 9) }
    ∷ record { coeffs = single 5 (whole (negsuc 0)); bound = whole (negsuc 0) }
    ∷ []

abbrev wanted : Vector Whole
wanted = single 5 (whole (pos 22))

-- two equations by the rule of Cramer
abbrev cramer : LdltSolve Whole
cramer n m rhs i =
    let det = sub (mul (m 0 0) (m 1 1)) (mul (m 0 1) (m 1 0)) in
    if i == 0
    then div (sub (mul (rhs 0) (m 1 1)) (mul (m 0 1) (rhs 1))) det
    else div (sub (mul (m 0 0) (rhs 1)) (mul (m 1 0) (rhs 0))) det

pair_active : active_rows dof wanted pair ≡ pair
unfolding active_rows violation dot
pair_active = refl

pair_solved : Solves pair wanted (lambda cramer limits wanted pair)
unfolding active_rows violation dot
pair_solved zero h = refl
pair_solved (suc zero) h = refl
pair_solved (suc (suc i)) h = absurd (omega arith)

pair_uncut : IsUncut cramer limits wanted pair
unfolding active_rows violation dot
pair_uncut zero h = (refl, refl)
pair_uncut (suc zero) h = (refl, refl)
pair_uncut (suc (suc zero)) h = (refl, refl)
pair_uncut (suc (suc (suc zero))) h = (refl, refl)
pair_uncut (suc (suc (suc (suc zero)))) h = (refl, refl)
pair_uncut (suc (suc (suc (suc (suc zero))))) h = (refl, refl)
pair_uncut (suc (suc (suc (suc (suc (suc zero)))))) h = (refl, refl)
pair_uncut (suc (suc (suc (suc (suc (suc (suc j))))))) h = absurd (omega arith)

rows_averaged_example :
    let t = torque cramer limits wanted pair in
    let c = single 5 (whole (negsuc 0)) in
    mul
      (dot dof c c)
      (add (violation t (get_or pair 0 zero_row)) (violation t (get_or pair 1 zero_row)))
    ≡ neg (mul (whole (pos 1)) (sub (dot dof c wanted) (dot dof c t)))
rows_averaged_example =
    rows_averaged cramer limits wanted pair (get_or pair 0 zero_row) (get_or pair 1 zero_row)
      Whole-IsExact pair_active refl pair_solved pair_uncut
