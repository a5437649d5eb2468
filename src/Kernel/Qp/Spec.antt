-- ===== src/Kernel/Qp/Spec.antt =====
-- What `solve_active_set_qp` promises: which rows it projects onto, and the range of its torques.
use neuro_kinetic.Base.{
  if◌then◌else◌, length, ℕ, zero, suc, ◌≡◌, refl, ◌<◌, Bool, true, false, ◌||◌, List, [], ◌∷◌,
  arith, all, take, length,
}
use neuro_kinetic.Double.{Double}
use neuro_kinetic.Double.Laws.{IsOrdered, clamp_within}
use neuro_kinetic.Vector.{Vector, dof}
use neuro_kinetic.Kernel.{KinematicLimits, Row, LdltSolve}
use neuro_kinetic.Kernel.Qp.{
  violation, is_met, is_violated, active_rows, gram, residual, projected, saturated,
  solve_active_set_qp,
}

module _ {ℓ} {A : Type ℓ} where
  abbrev pub select : (A → Bool) → List A → List A
  select p [] = []
  select p (x ∷ xs) = if p x then x ∷ select p xs else select p xs

  abbrev pub any : (A → Bool) → List A → Bool
  any p [] = false
  any p (x ∷ xs) = p x || any p xs

module _ {D : Type 0} ⦃d : Double D⦄ where
  -- The loop with the early `break` finds the first `n` of the rows that are violated by more than 1e-4.
  active_rows_lem :
      (n : ℕ) (u : Vector D) (rows : List (Row D))
      → active_rows n u rows ≡ take n (select (is_violated u) rows)
  unfolding active_rows
  active_rows_lem zero u rows = refl
  active_rows_lem (suc n) u [] = refl
  active_rows_lem (suc n) u (row ∷ rows) =
      ground (arith, active_rows_lem n u rows, active_rows_lem (suc n) u rows)

  -- The solver always reports success, and rows that are all met leave the torques as they are.
  pub solve_met :
      (ldlt_solve : LdltSolve D) (limits : KinematicLimits D) (u : Vector D) (rows : List (Row D))
      → all (is_met u) rows ≡ true
      → solve_active_set_qp ldlt_solve limits u rows ≡ (true, u)
  unfolding solve_active_set_qp
  solve_met ldlt_solve limits u rows h = ground arith

  pub active_of_none :
      (n : ℕ) (u : Vector D) (rows : List (Row D))
      → any (is_violated u) rows ≡ false
      → active_rows n u rows ≡ []
  unfolding active_rows
  active_of_none zero u rows h = refl
  active_of_none (suc n) u [] h = refl
  active_of_none (suc n) u (row ∷ rows) h = ground (arith, active_of_none (suc n) u rows)

  -- So do rows of which none is violated by more than 1e-4, NaN included.
  pub solve_unviolated :
      (ldlt_solve : LdltSolve D) (limits : KinematicLimits D) (u : Vector D) (rows : List (Row D))
      → any (is_violated u) rows ≡ false
      → solve_active_set_qp ldlt_solve limits u rows ≡ (true, u)
  unfolding solve_active_set_qp
  solve_unviolated ldlt_solve limits u rows h = ground (arith, active_of_none dof u rows h)

  pub solve_succeeds :
      (ldlt_solve : LdltSolve D) (limits : KinematicLimits D) (u : Vector D) (rows : List (Row D))
      → (solve_active_set_qp ldlt_solve limits u rows).0 ≡ true
  unfolding solve_active_set_qp
  solve_succeeds ldlt_solve limits u rows = ground arith

  module _ (not-le_of_lt : (x y : D) → d.lt x y ≡ true → d.le y x ≡ false) where
    not-met_of_violated :
        (u : Vector D) (rows : List (Row D))
        → any (is_violated u) rows ≡ true
        → all (is_met u) rows ≡ false
    not-met_of_violated u [] h = cc
    not-met_of_violated u (row ∷ rows) h =
        ground (arith, not-met_of_violated u rows, not-le_of_lt (d.decimal 1 4) (violation u row))

    active_of_violated :
        (n : ℕ) (u : Vector D) (rows : List (Row D))
        → any (is_violated u) rows ≡ true
        → 0 < length (active_rows (suc n) u rows)
    unfolding active_rows
    active_of_violated n u [] h = cc
    active_of_violated n u (row ∷ rows) h = ground (arith, active_of_violated n u rows)

    -- Then the torques are the projection onto the active rows, saturated.
    pub solve_violated :
        (ldlt_solve : LdltSolve D) (limits : KinematicLimits D) (u : Vector D) (rows : List (Row D))
        → any (is_violated u) rows ≡ true
        → let active = active_rows dof u rows in
          let lambda = ldlt_solve (length active) (gram active) (residual active u) in
          solve_active_set_qp ldlt_solve limits u rows
          ≡ (true, saturated ldlt_solve limits (projected active u lambda))
    unfolding solve_active_set_qp
    solve_violated ldlt_solve limits u [] h = cc
    solve_violated ldlt_solve limits u (row ∷ rows) h =
        ground (arith, not-met_of_violated u (row ∷ rows), active_of_violated 6 u (row ∷ rows))

  module _ (laws : IsOrdered D) where
    -- If a row is violated by more than 1e-4, every torque of the result lies neither above the joint's
    -- ceiling nor below its negation, whatever the linear solver returns, NaN included. The ceiling must
    -- not lie below its negation.
    pub solve_saturates :
        (ldlt_solve : LdltSolve D) (limits : KinematicLimits D) (u : Vector D) (rows : List (Row D))
        → any (is_violated u) rows ≡ true
        → (i : ℕ) → d.lt (limits.torque_max i) (d.neg (limits.torque_max i)) ≡ false
        → let torque = (solve_active_set_qp ldlt_solve limits u rows).1 i in
          (d.lt torque (d.neg (limits.torque_max i)) ≡ false)
          × (d.lt (limits.torque_max i) torque ≡ false)
    solve_saturates ldlt_solve limits u rows h i range =
        rw (solve_violated laws.not-le_of_lt ldlt_solve limits u rows h)
          (clamp_within laws _ _ _ range)
