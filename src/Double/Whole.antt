-- ===== src/Double/Whole.antt =====
-- Whole numbers: exact, and small enough to compute with. A literal `m * 10^-e` is read as `m`, since
-- the laws leave open what a literal is.
use neuro_kinetic.Base.{ℕ, ◌+◌, suc, ◌*◌, ◌/◌, ◌≡◌, refl, true, arith, ap}
use neuro_kinetic.Base.Int.{
  ℤ, pos, negsuc, pos_part, neg_part, sub_ℕ, ◌+ℤ◌, ◌-ℤ◌, neg_ℤ, magnitude, ltb_ℤ, leb_ℤ,
}
use native.Mathlib.Nat.{mul-add, add-mul, mul_assoc, mul_comm}
use neuro_kinetic.Double.{Double}
use neuro_kinetic.Double.Exact.{IsExact}

pub record Whole : Type 0 where
  pub value : ℤ

abbrev pub whole : ℤ → Whole
whole k = record { value = k }

abbrev mul_ℤ : ℤ → ℤ → ℤ
mul_ℤ a b =
    sub_ℕ (pos_part a * pos_part b + neg_part a * neg_part b)
      (pos_part a * neg_part b + neg_part a * pos_part b)

-- towards 0
abbrev quotient : ℤ → ℤ → ℤ
quotient a (pos n) = sub_ℕ (pos_part a / n) (neg_part a / n)
quotient a (negsuc n) = sub_ℕ (neg_part a / suc n) (pos_part a / suc n)

mul_parts :
    (a b : ℤ)
    → pos_part (mul_ℤ a b) + (pos_part a * neg_part b + neg_part a * pos_part b)
      ≡ neg_part (mul_ℤ a b) + (pos_part a * pos_part b + neg_part a * neg_part b)
mul_parts a b = ground arith

eq_of_parts : (a b : ℤ) → pos_part a + neg_part b ≡ pos_part b + neg_part a → a ≡ b
eq_of_parts a b h = ground arith

assoc_parts :
    (pa na pb nb pc nc p n q m p' n' q' m' : ℕ)
    → p + (pa * nb + na * pb) ≡ n + (pa * pb + na * nb)
    → q + (pb * nc + nb * pc) ≡ m + (pb * pc + nb * nc)
    → p' + (p * nc + n * pc) ≡ n' + (p * pc + n * nc)
    → q' + (pa * m + na * q) ≡ m' + (pa * q + na * m)
    → p' + m' ≡ q' + n'
assoc_parts pa na pb nb pc nc p n q m p' n' q' m' e1 e2 e3 e4 =
    let a1 = simp (add-mul, mul_assoc) at (ap (λ t. t * pc) e1) in
    let a2 = simp (add-mul, mul_assoc) at (ap (λ t. t * nc) e1) in
    let b1 = simp (mul-add) at (ap (λ t. pa * t) e2) in
    let b2 = simp (mul-add) at (ap (λ t. na * t) e2) in omega (arith, a1, a2, b1, b2)

distributed_parts :
    (pa na pb nb pc nc p n q m r t p' n' : ℕ)
    → p + (nb + nc) ≡ n + (pb + pc)
    → q + (pa * n + na * p) ≡ m + (pa * p + na * n)
    → r + (pa * nb + na * pb) ≡ t + (pa * pb + na * nb)
    → p' + (pa * nc + na * pc) ≡ n' + (pa * pc + na * nc)
    → q + (t + n') ≡ (r + p') + m
distributed_parts pa na pb nb pc nc p n q m r t p' n' e1 e2 e3 e4 =
    let a1 = simp (mul-add) at (ap (λ k. pa * k) e1) in
    let a2 = simp (mul-add) at (ap (λ k. na * k) e1) in omega (arith, a1, a2)

add_parts :
    (a b : ℤ)
    → pos_part (a +ℤ b) + (neg_part a + neg_part b) ≡ neg_part (a +ℤ b) + (pos_part a + pos_part b)
add_parts a b = ground arith

assoc_lem :
    (a b c : ℤ)
    → pos_part (mul_ℤ (mul_ℤ a b) c) + neg_part (mul_ℤ a (mul_ℤ b c))
      ≡ pos_part (mul_ℤ a (mul_ℤ b c)) + neg_part (mul_ℤ (mul_ℤ a b) c)
assoc_lem a b c =
    assoc_parts (pos_part a) (neg_part a) (pos_part b) (neg_part b) (pos_part c) (neg_part c) _ _ _
      _ _ _ _ _ (mul_parts a b) (mul_parts b c) (mul_parts (mul_ℤ a b) c) (mul_parts a (mul_ℤ b c))

distributed_lem :
    (a b c : ℤ)
    → pos_part (mul_ℤ a (b +ℤ c)) + neg_part (mul_ℤ a b +ℤ mul_ℤ a c)
      ≡ pos_part (mul_ℤ a b +ℤ mul_ℤ a c) + neg_part (mul_ℤ a (b +ℤ c))
distributed_lem a b c =
    let sums =
      distributed_parts (pos_part a) (neg_part a) (pos_part b) (neg_part b) (pos_part c)
        (neg_part c) (pos_part (b +ℤ c)) (neg_part (b +ℤ c)) (pos_part (mul_ℤ a (b +ℤ c)))
        (neg_part (mul_ℤ a (b +ℤ c))) (pos_part (mul_ℤ a b)) (neg_part (mul_ℤ a b))
        (pos_part (mul_ℤ a c)) (neg_part (mul_ℤ a c)) (add_parts b c) (mul_parts a (b +ℤ c))
        (mul_parts a b) (mul_parts a c) in
    omega (arith, sums, add_parts (mul_ℤ a b) (mul_ℤ a c))

product_nonneg :
    (a b : ℤ) → leb_ℤ (pos 0) a ≡ true → leb_ℤ (pos 0) b ≡ true → leb_ℤ (pos 0) (mul_ℤ a b) ≡ true
product_nonneg (pos m) (pos n) h k = ground arith
product_nonneg (pos m) (negsuc n) h k = absurd (ground arith)
product_nonneg (negsuc m) b h k = absurd (ground arith)

square-nonneg : (a : ℤ) → leb_ℤ (pos 0) (mul_ℤ a a) ≡ true
square-nonneg (pos n) = ground arith
square-nonneg (negsuc n) = ground arith

instance abbrev pub whole_double : Double Whole
whole_double = record {
  add = λ a b. whole (a.value +ℤ b.value);
  sub = λ a b. whole (a.value -ℤ b.value);
  mul = λ a b. whole (mul_ℤ a.value b.value);
  div = λ a b. whole (quotient a.value b.value);
  neg = λ a. whole (neg_ℤ a.value);
  abs = λ a. whole (pos (magnitude a.value));
  sqrt = λ a. a;
  lt = λ a b. ltb_ℤ a.value b.value;
  le = λ a b. leb_ℤ a.value b.value;
  is_finite = λ a. true;
  decimal = λ m e. whole (pos m);
}

pub Whole-IsExact : IsExact Whole
Whole-IsExact = record {
  add_comm = λ x y. ap whole (eq_of_parts _ _ (ground arith));
  add_assoc = λ x y z. ap whole (eq_of_parts _ _ (ground arith));
  zero-add = λ x. ap whole (eq_of_parts _ _ (ground arith));
  add-neg = λ x. ap whole (eq_of_parts _ _ (ground arith));
  sub-eq = λ x y. ap whole (eq_of_parts _ _ (ground arith));
  mul_comm = λ x y.
      ap whole (eq_of_parts _ _ (ground (arith, mul_comm (pos_part x.value) (pos_part y.value))));
  mul_assoc = λ x y z. ap whole (eq_of_parts _ _ (assoc_lem x.value y.value z.value));
  mul-add = λ x y z. ap whole (eq_of_parts _ _ (distributed_lem x.value y.value z.value));
  le-sub = λ x y. ground arith;
  lt-le = λ x y. ground arith;
  add_nonneg = λ x y h k. ground arith;
  mul_nonneg = λ x y h k. product_nonneg x.value y.value h k;
  square_nonneg = λ x. square-nonneg x.value;
  literal_nonneg = refl;
}
