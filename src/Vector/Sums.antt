-- ===== src/Vector/Sums.antt =====
-- Inner products in exact arithmetic: they are linear in both vectors, and two sums can be exchanged.
use neuro_kinetic.Base.{
  ℕ, zero, suc, ◌<◌, ◌≤◌, ◌≡◌, Bool-cases, inl, inr, ==_iff, refl, true, ◌==◌, if◌then◌else◌, sym,
  ap, ap₂, ◌∙◌, arith,
}
use neuro_kinetic.Double.{Double, nought}
use neuro_kinetic.Double.Exact.{
  IsExact, zero-le_zero, exchange, mul_left_comm, mul-zero, mul-neg, neg-add, neg-zero,
}
use neuro_kinetic.Vector.{Vector, dot, difference}

module _ {D : Type 0} ⦃d : Double D⦄ (laws : IsExact D) where
  open d use {add, mul, neg, sub, le}
  open laws use {
    add_comm, add_assoc, zero-add, mul_comm, mul-add, sub-eq, add_nonneg, square_nonneg,
  }

  pub dot_ext :
      (n : ℕ) (a a' b b' : Vector D)
      → ((i : ℕ) → i < n → a i ≡ a' i)
      → ((i : ℕ) → i < n → b i ≡ b' i)
      → dot n a b ≡ dot n a' b'
  unfolding dot
  dot_ext zero a a' b b' p q = refl
  dot_ext (suc n) a a' b b' p q =
      ap₂ add (dot_ext n a a' b b' (λ i h. p i (omega arith)) (λ i h. q i (omega arith)))
        (ap₂ mul (p n (omega arith)) (q n (omega arith)))

  pub dot_comm : (n : ℕ) (a b : Vector D) → dot n a b ≡ dot n b a
  unfolding dot
  dot_comm zero a b = refl
  dot_comm (suc n) a b = ap₂ add (dot_comm n a b) (mul_comm (a n) (b n))

  pub dot-add :
      (n : ℕ) (a b c : Vector D) → dot n a (λ i. add (b i) (c i)) ≡ add (dot n a b) (dot n a c)
  unfolding dot
  dot-add zero a b c = sym (zero-add nought)
  dot-add (suc n) a b c =
      ap₂ add (dot-add n a b c) (mul-add (a n) (b n) (c n)) ∙ exchange laws _ _ _ _

  pub dot-neg : (n : ℕ) (a b : Vector D) → dot n a (λ i. neg (b i)) ≡ neg (dot n a b)
  unfolding dot
  dot-neg zero a b = sym (neg-zero laws)
  dot-neg (suc n) a b = ap₂ add (dot-neg n a b) (mul-neg laws (a n) (b n)) ∙ sym (neg-add laws _ _)

  pub dot-sub :
      (n : ℕ) (a b c : Vector D) → dot n a (difference b c) ≡ add (dot n a b) (neg (dot n a c))
  dot-sub n a b c =
      dot_ext n a a (difference b c) (λ i. add (b i) (neg (c i))) (λ i h. refl)
        (λ i h. sub-eq (b i) (c i))
      ∙ dot-add n a b (λ i. neg (c i))
      ∙ ap (add (dot n a b)) (dot-neg n a c)

  pub dot-scale : (n : ℕ) (k : D) (a b : Vector D) → dot n a (λ i. mul k (b i)) ≡ mul k (dot n a b)
  unfolding dot
  dot-scale zero k a b = sym (mul-zero laws k)
  dot-scale (suc n) k a b =
      ap₂ add (dot-scale n k a b) (mul_left_comm laws (a n) k (b n)) ∙ sym (mul-add k _ _)

  pub dot-zero : (n : ℕ) (a : Vector D) → dot n a (λ i. nought) ≡ nought
  unfolding dot
  dot-zero zero a = refl
  dot-zero (suc n) a = ap₂ add (dot-zero n a) (mul-zero laws (a n)) ∙ zero-add nought

  -- `a · (Σ_i l_i r_i) = Σ_i l_i (a · r_i)`
  pub dot-dot :
      (n k : ℕ) (a l : Vector D) (r : ℕ → Vector D)
      → dot n a (λ j. dot k (λ i. r i j) l) ≡ dot k (λ i. dot n a (r i)) l
  unfolding dot
  dot-dot n zero a l r = dot-zero n a
  dot-dot n (suc k) a l r =
      dot-add n a (λ j. dot k (λ i. r i j) l) (λ j. mul (r k j) (l k))
      ∙ ap₂ add (dot-dot n k a l r) (
          dot_ext n a a (λ j. mul (r k j) (l k)) (λ j. mul (l k) (r k j)) (λ i h. refl)
            (λ j h. mul_comm (r k j) (l k))
          ∙ dot-scale n (l k) a (r k)
          ∙ mul_comm (l k) (dot n a (r k)))

  off_ridge :
      (k i : ℕ) (e : D) (g l : Vector D)
      → k ≤ i
      → dot k (λ m. if i == m then add (g m) e else g m) l ≡ dot k g l
  off_ridge k i e g l h =
      dot_ext k (λ m. if i == m then add (g m) e else g m) g l l (λ m lt. ground arith)
        (λ m lt. refl)

  add-mul : (x y z : D) → mul (add x y) z ≡ add (mul x z) (mul y z)
  add-mul x y z = mul_comm (add x y) z ∙ mul-add z x y ∙ ap₂ add (mul_comm z x) (mul_comm z y)

  -- A ridge on the diagonal adds a multiple of one entry.
  pub dot-ridge :
      (k i : ℕ) (e : D) (g l : Vector D)
      → i < k
      → dot k (λ m. if i == m then add (g m) e else g m) l ≡ add (dot k g l) (mul e (l i))
  unfolding dot
  dot-ridge zero i e g l h = absurd (omega arith)
  dot-ridge (suc k) i e g l h = elim (Bool-cases (i == k)) [
    | inl here ↦
        let same = (==_iff i k).0 here in
        let last : (if i == k then add (g k) e else g k) ≡ add (g k) e = rw here refl in
        ap₂ add (off_ridge k i e g l (omega (arith, same)))
          (ap (λ t. mul t (l k)) last ∙ add-mul (g k) e (l k))
        ∙ sym (add_assoc (dot k g l) (mul (g k) (l k)) (mul e (l k)))
        ∙ ap (λ m. add (add (dot k g l) (mul (g k) (l k))) (mul e (l m))) (sym same)
    | inr before ↦
        let last : (if i == k then add (g k) e else g k) ≡ g k = rw before refl in
        ap₂ add (dot-ridge k i e g l (ground arith)) (ap (λ t. mul t (l k)) last)
        ∙ add_assoc (dot k g l) (mul e (l i)) (mul (g k) (l k))
        ∙ ap (add (dot k g l)) (add_comm (mul e (l i)) (mul (g k) (l k)))
        ∙ sym (add_assoc (dot k g l) (mul (g k) (l k)) (mul e (l i)))
  ]

  -- `(a + b) · (a + b)`
  pub dot-square :
      (n : ℕ) (a b : Vector D)
      → dot n (λ i. add (a i) (b i)) (λ i. add (a i) (b i))
        ≡ add (add (dot n a a) (dot n b b)) (add (dot n a b) (dot n a b))
  dot-square n a b =
      dot-add n _ a b
      ∙ ap₂ add (dot_comm n _ a ∙ dot-add n a a b) (dot_comm n _ b ∙ dot-add n b a b)
      ∙ ap (λ t. add (add (dot n a a) (dot n a b)) t)
          (add_comm (dot n b a) (dot n b b) ∙ ap (add (dot n b b)) (dot_comm n b a))
      ∙ exchange laws (dot n a a) (dot n a b) (dot n b b) (dot n a b)

  pub dot_nonneg : (n : ℕ) (a : Vector D) → le nought (dot n a a) ≡ true
  unfolding dot
  dot_nonneg zero a = zero-le_zero laws
  dot_nonneg (suc n) a = add_nonneg _ _ (dot_nonneg n a) (square_nonneg (a n))
