-- ===== src/Vector.antt =====
-- `Eigen::Vector<double, n>`: a function of the index, of which only the first `n` values are read.
pub mod Sums
use neuro_kinetic.Base.{ℕ, zero, suc, Bool, all_below}
use neuro_kinetic.Double.{Double, nought}

abbrev pub Vector : Type 0 → Type 0
Vector D = ℕ → D

abbrev pub dof : ℕ
dof = 7

module _ {D : Type 0} ⦃d : Double D⦄ where
  open d use {add, mul, sub, sqrt, is_finite}

  -- the inner product of the first `n` values
  unfoldable pub dot : ℕ → Vector D → Vector D → D
  dot zero a b = nought
  dot (suc n) a b = add (dot n a b) (mul (a n) (b n))

  abbrev pub difference : Vector D → Vector D → Vector D
  difference a b i = sub (a i) (b i)

  unfoldable pub norm : ℕ → Vector D → D
  unfolding dot
  norm n a = sqrt (dot n a a)

  abbrev pub all_finite : Vector D → Bool
  all_finite a = all_below dof (λ i. is_finite (a i))
