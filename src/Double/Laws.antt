-- ===== src/Double/Laws.antt =====
-- Laws of IEEE arithmetic. Those of the order hold of all values, NaN included; those of the arithmetic
-- are equations between values up to the sign of zero, and hold of finite numbers.
use neuro_kinetic.Base.{ℕ, ◌≡◌, true, false, arith, suc, ◌*◌, ◌≤◌}
use neuro_kinetic.Double.{Double, nought, clamp, minimum, maximum}

pub record IsOrdered (D : Type 0) ⦃d : Double D⦄ : Type 0 where
  pub lt_irrefl : (x : D) → d.lt x x ≡ false
  pub lt_trans : (x y z : D) → d.lt x y ≡ true → d.lt y z ≡ true → d.lt x z ≡ true
  pub not-le_of_lt : (x y : D) → d.lt x y ≡ true → d.le y x ≡ false
  -- a negated literal is not above a literal, and negation turns the order round
  pub neg_decimal : (m e n f : ℕ) → d.lt (d.decimal m e) (d.neg (d.decimal n f)) ≡ false
  pub lt-neg-neg : (x y : D) → d.lt (d.neg x) (d.neg y) ≡ d.lt y x
  pub le_decimal : (m n e : ℕ) → n ≤ m → d.lt (d.decimal m e) (d.decimal n e) ≡ false
  -- 0.15 and 0.150 are one literal
  pub decimal_scale : (m e : ℕ) → e ≤ 4 → d.decimal (m * 10) (suc e) ≡ d.decimal m e

module _ {D : Type 0} ⦃d : Double D⦄ (laws : IsOrdered D) where
  open d use {lt}
  open laws use {lt_irrefl}

  -- A clamped value does not lie outside the range, even where it is NaN.
  pub clamp_within :
      (v lo hi : D)
      → lt hi lo ≡ false
      → (lt (clamp v lo hi) lo ≡ false) × (lt hi (clamp v lo hi) ≡ false)
  clamp_within v lo hi h = ground (arith, lt_irrefl lo, lt_irrefl hi)

  pub minimum-le : (a b : D) → lt b (minimum a b) ≡ false
  minimum-le a b = ground (arith, lt_irrefl b)

  pub le-maximum : (a b : D) → lt (maximum a b) b ≡ false
  le-maximum a b = ground (arith, lt_irrefl b)

pub record IsArithmetic (D : Type 0) ⦃d : Double D⦄ : Type 0 where
  pub zero-add : (x : D) → d.add nought x ≡ x
  pub add-zero : (x : D) → d.add x nought ≡ x
  pub zero-mul : (x : D) → d.is_finite x ≡ true → d.mul nought x ≡ nought
  pub one-mul : (x : D) → d.mul (d.decimal 10 1) x ≡ x
  pub neg_one-mul : (x : D) → d.mul (d.neg (d.decimal 10 1)) x ≡ d.neg x
  pub neg-sub-neg : (x y : D) → d.sub (d.neg x) (d.neg y) ≡ d.sub y x
  pub sub_self : (x : D) → d.is_finite x ≡ true → d.sub x x ≡ nought
  pub sqrt-zero : d.sqrt nought ≡ nought
  pub zero_finite : d.is_finite nought ≡ true
  pub zero-le : (m e : ℕ) → d.le nought (d.decimal m e) ≡ true

-- What is at most a literal is at most a larger one.
pub record IsMonotone (D : Type 0) ⦃d : Double D⦄ : Type 0 where
  pub le_mono :
      (x : D) (m n e : ℕ) → m ≤ n → d.le x (d.decimal m e) ≡ true → d.le x (d.decimal n e) ≡ true
