-- ===== src/Kernel/Qp/Averaged.antt =====
-- Two violated rows with the same coefficients, as the upper limit of joint 5 and the obstacle's row are.
use neuro_kinetic.Base.{
  ℕ, ◌<◌, ◌≡◌, refl, true, Bool-cases, inl, inr, List, [], ◌∷◌, length, get_or, ap, ap₂, sym, ◌∙◌,
  arith,
}
use neuro_kinetic.Double.{Double}
use neuro_kinetic.Double.Exact.{IsExact, mul_left_comm, mul-neg, neg-add, neg-neg, sub-add_self}
use neuro_kinetic.Vector.{Vector, dof, dot}
use neuro_kinetic.Vector.Sums.{dot_ext, dot-sub, dot-dot}
use neuro_kinetic.Kernel.{KinematicLimits, Row, LdltSolve}
use neuro_kinetic.Kernel.Rows.{zero_row}
use neuro_kinetic.Kernel.Qp.{violation, is_violated, active_rows, projected}
use neuro_kinetic.Kernel.Qp.Spec.{any, active_of_none}
use neuro_kinetic.Kernel.Qp.Optimal.{Solves, misses-projected}
use neuro_kinetic.Kernel.Qp.Least.{misses_ext, lambda, torque, IsUncut, torque-point}

module _ {D : Type 0} ⦃d : Double D⦄ (laws : IsExact D) (r s : Row D) (u l : Vector D)
    (same : s.coeffs ≡ r.coeffs) (solves : Solves (r ∷ s ∷ []) u l) where
  open d use {add, mul, neg, sub}
  open laws use {add_comm, add_assoc, zero-add, sub-eq, mul-add}

  abbrev met_at : Vector D
  met_at = projected (r ∷ s ∷ []) u l

  abbrev square : D
  square = dot dof r.coeffs r.coeffs

  two_terms : (a : Vector D) → dot 2 a l ≡ add (mul (a 0) (l 0)) (mul (a 1) (l 1))
  unfolding dot
  two_terms a = ap (λ t. add t (mul (a 1) (l 1))) (zero-add (mul (a 0) (l 0)))

  pulled :
      dot dof r.coeffs (λ j. dot 2 (λ i. (get_or (r ∷ s ∷ []) i zero_row).coeffs j) l)
      ≡ mul square (add (l 0) (l 1))
  pulled =
      dot-dot laws dof 2 r.coeffs l (λ i. (get_or (r ∷ s ∷ []) i zero_row).coeffs)
      ∙ two_terms (λ i. dot dof r.coeffs (get_or (r ∷ s ∷ []) i zero_row).coeffs)
      ∙ ap (λ c. add (mul square (l 0)) (mul (dot dof r.coeffs c) (l 1))) same
      ∙ sym (mul-add square (l 0) (l 1))

  -- how far the projection moves along the rows
  moved : sub (dot dof r.coeffs u) (dot dof r.coeffs met_at) ≡ mul square (add (l 0) (l 1))
  moved =
      ap (sub (dot dof r.coeffs u))
        (dot-sub laws dof r.coeffs u _ ∙ ap (λ t. add (dot dof r.coeffs u) (neg t)) pulled)
      ∙ sub-add_self laws (dot dof r.coeffs u) _
      ∙ neg-neg laws _

  missed_both :
      mul square (add (violation met_at r) (violation met_at s))
      ≡ neg (mul (d.decimal 1 6) (sub (dot dof r.coeffs u) (dot dof r.coeffs met_at)))
  missed_both =
      ap (mul square) (
        ap₂ add (misses-projected laws (r ∷ s ∷ []) u l solves 0 (omega arith))
          (misses-projected laws (r ∷ s ∷ []) u l solves 1 (omega arith))
        ∙ sym (neg-add laws _ _)
        ∙ ap neg (sym (mul-add (d.decimal 1 6) (l 0) (l 1))))
      ∙ mul-neg laws square _
      ∙ ap neg (
          mul_left_comm laws square (d.decimal 1 6) (add (l 0) (l 1))
          ∙ ap (mul (d.decimal 1 6)) (sym moved))

module _ {D : Type 0} ⦃d : Double D⦄ (ldlt_solve : LdltSolve D) (limits : KinematicLimits D)
    (u : Vector D) (rows : List (Row D)) (r s : Row D) where
  open d use {add, mul, neg, sub, lt}

  two_violated : active_rows dof u rows ≡ r ∷ s ∷ [] → any (is_violated u) rows ≡ true
  two_violated two = elim (Bool-cases (any (is_violated u) rows)) [
    | inl violated ↦ violated
    | inr unviolated ↦
        absurd (omega (arith, ap length (sym (active_of_none dof u rows unviolated) ∙ two)))
  ]

  -- Two violated rows are averaged, not both met: in exact arithmetic, if the active rows are two with
  -- the same coefficients `c`, as the upper limit of joint 5 and the obstacle's row have, the linear
  -- solver solves its system, and the ceilings do not cut the projection off, then the sum of what the
  -- two rows lack at the result `t`, times `c · c`, is 1e-6 times `c · t - c · u`. But for that share the
  -- torque lies in the middle between the two bounds, past the tighter one.
  pub rows_averaged :
      (laws : IsExact D)
      → active_rows dof u rows ≡ r ∷ s ∷ []
      → s.coeffs ≡ r.coeffs
      → Solves (r ∷ s ∷ []) u (lambda ldlt_solve limits u rows)
      → IsUncut ldlt_solve limits u rows
      → let t = torque ldlt_solve limits u rows in
        mul (dot dof r.coeffs r.coeffs) (add (violation t r) (violation t s))
        ≡ neg (mul (d.decimal 1 6) (sub (dot dof r.coeffs u) (dot dof r.coeffs t)))
  rows_averaged laws two same solves uncut =
      let l = lambda ldlt_solve limits u rows in
      let t = torque ldlt_solve limits u rows in
      let p = met_at laws r s u l same solves in
      let there : (j : ℕ) → j < dof → t j ≡ p j = λ j h.
        torque-point ldlt_solve limits u rows laws (two_violated two) uncut j h
        ∙ ap (λ a. projected a u l j) two in
      let missed = misses_ext laws (r ∷ s ∷ []) u t p there in
      ap (mul (dot dof r.coeffs r.coeffs)) (ap₂ add (missed 0) (missed 1))
      ∙ missed_both laws r s u l same solves
      ∙ ap (λ a. neg (mul (d.decimal 1 6) (sub (dot dof r.coeffs u) a)))
          (sym (dot_ext laws dof r.coeffs r.coeffs t p (λ j h. refl) there))
