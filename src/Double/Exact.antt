-- ===== src/Double/Exact.antt =====
-- Exact arithmetic: the laws of an ordered commutative ring, which rounding breaks. The theorems that
-- take them say what the code computes but for its rounding.
use neuro_kinetic.Base.{◌≡◌, true, not, ap₂, sym, ap, ◌∙◌}
use neuro_kinetic.Double.{Double, nought}

pub record IsExact (D : Type 0) ⦃d : Double D⦄ : Type 0 where
  pub add_comm : (x y : D) → d.add x y ≡ d.add y x
  pub add_assoc : (x y z : D) → d.add (d.add x y) z ≡ d.add x (d.add y z)
  pub zero-add : (x : D) → d.add nought x ≡ x
  pub add-neg : (x : D) → d.add x (d.neg x) ≡ nought
  pub sub-eq : (x y : D) → d.sub x y ≡ d.add x (d.neg y)
  pub mul_comm : (x y : D) → d.mul x y ≡ d.mul y x
  pub mul_assoc : (x y z : D) → d.mul (d.mul x y) z ≡ d.mul x (d.mul y z)
  pub mul-add : (x y z : D) → d.mul x (d.add y z) ≡ d.add (d.mul x y) (d.mul x z)
  pub le-sub : (x y : D) → d.le x y ≡ d.le nought (d.sub y x)
  pub lt-le : (x y : D) → d.lt x y ≡ not (d.le y x)
  pub add_nonneg :
      (x y : D) → d.le nought x ≡ true → d.le nought y ≡ true → d.le nought (d.add x y) ≡ true
  pub mul_nonneg :
      (x y : D) → d.le nought x ≡ true → d.le nought y ≡ true → d.le nought (d.mul x y) ≡ true
  pub square_nonneg : (x : D) → d.le nought (d.mul x x) ≡ true
  pub literal_nonneg : d.le nought (d.decimal 1 6) ≡ true

module _ {D : Type 0} ⦃d : Double D⦄ (laws : IsExact D) where
  open d use {add, mul, neg, sub, le}
  open laws use {
    add_comm, add_assoc, zero-add, add-neg, sub-eq, mul_comm, mul_assoc, mul-add, square_nonneg,
  }

  pub add_left_comm : (x y z : D) → add x (add y z) ≡ add y (add x z)
  add_left_comm x y z = sym (add_assoc x y z) ∙ ap (λ t. add t z) (add_comm x y) ∙ add_assoc y x z

  pub mul_left_comm : (x y z : D) → mul x (mul y z) ≡ mul y (mul x z)
  mul_left_comm x y z = sym (mul_assoc x y z) ∙ ap (λ t. mul t z) (mul_comm x y) ∙ mul_assoc y x z

  pub add-zero : (x : D) → add x nought ≡ x
  add-zero x = add_comm x nought ∙ zero-add x

  pub neg-add_cancel : (x y : D) → add (neg x) (add x y) ≡ y
  neg-add_cancel x y =
      sym (add_assoc (neg x) x y) ∙ ap (λ t. add t y) (add_comm (neg x) x ∙ add-neg x) ∙ zero-add y

  pub add-neg_cancel : (x y : D) → add x (add (neg x) y) ≡ y
  add-neg_cancel x y = add_left_comm x (neg x) y ∙ neg-add_cancel x y

  -- what is added on the left can be dropped
  pub add_cancel : (x y z : D) → add x y ≡ add x z → y ≡ z
  add_cancel x y z e = sym (neg-add_cancel x y) ∙ ap (add (neg x)) e ∙ neg-add_cancel x z

  pub neg_unique : (x y : D) → add x y ≡ nought → y ≡ neg x
  neg_unique x y e = add_cancel x y (neg x) (e ∙ sym (add-neg x))

  pub mul-zero : (x : D) → mul x nought ≡ nought
  mul-zero x = sym (
      add_cancel (mul x nought) nought (mul x nought)
        (add-zero (mul x nought) ∙ ap (mul x) (sym (zero-add nought)) ∙ mul-add x nought nought))

  pub mul-neg : (x y : D) → mul x (neg y) ≡ neg (mul x y)
  mul-neg x y =
      neg_unique (mul x y) (mul x (neg y))
        (sym (mul-add x y (neg y)) ∙ ap (mul x) (add-neg y) ∙ mul-zero x)

  pub neg-neg : (x : D) → neg (neg x) ≡ x
  neg-neg x = sym (neg_unique (neg x) x (add_comm (neg x) x ∙ add-neg x))

  pub neg-add : (x y : D) → neg (add x y) ≡ add (neg x) (neg y)
  neg-add x y = sym (neg_unique (add x y) (add (neg x) (neg y)) total)
    where
      total : add (add x y) (add (neg x) (neg y)) ≡ nought
      total =
          add_assoc x y (add (neg x) (neg y))
          ∙ ap (add x) (add_left_comm y (neg x) (neg y) ∙ ap (add (neg x)) (add-neg y))
          ∙ ap (add x) (add-zero (neg x))
          ∙ add-neg x

  pub neg-zero : neg nought ≡ nought
  neg-zero = sym (neg_unique nought nought (zero-add nought))

  -- the two middle terms change places
  pub exchange : (a b c e : D) → add (add a b) (add c e) ≡ add (add a c) (add b e)
  exchange a b c e =
      add_assoc a b (add c e) ∙ ap (add a) (add_left_comm b c e) ∙ sym (add_assoc a c (add b e))

  pub solve_for : (s e y b : D) → add s e ≡ add y (neg b) → add y (neg s) ≡ add b e
  solve_for s e y b h = add_cancel s (add y (neg s)) (add b e) (
      add_left_comm s y (neg s)
      ∙ ap (add y) (add-neg s)
      ∙ add-zero y
      ∙ sym (ap (add b) h ∙ add_left_comm b y (neg b) ∙ ap (add y) (add-neg b) ∙ add-zero y)
      ∙ add_left_comm b s e)

  pub sub-add_self : (b e : D) → sub b (add b e) ≡ neg e
  sub-add_self b e = sub-eq b (add b e) ∙ ap (add b) (neg-add b e) ∙ add-neg_cancel b (neg e)

  pub zero-le_zero : le nought nought ≡ true
  zero-le_zero = ap (le nought) (sym (mul-zero nought)) ∙ square_nonneg nought

  pub telescope : (v p u : D) → sub v u ≡ add (sub v p) (sub p u)
  telescope v p u =
      sub-eq v u
      ∙ ap (add v) (sym (neg-add_cancel p (neg u)))
      ∙ sym (add_assoc v (neg p) (add p (neg u)))
      ∙ sym (ap₂ add (sub-eq v p) (sub-eq p u))

  pub telescope_bound : (b a c : D) → sub b a ≡ add (sub b c) (neg (sub a c))
  telescope_bound b a c = telescope b c a ∙ ap (add (sub b c)) (swapped c a)
    where
      swapped : (x y : D) → sub x y ≡ neg (sub y x)
      swapped x y =
          sub-eq x y
          ∙ add_comm x (neg y)
          ∙ ap (add (neg y)) (sym (neg-neg x))
          ∙ sym (neg-add y (neg x))
          ∙ ap neg (sym (sub-eq y x))

  pub regroup : (a b c e : D) → add (add a b) (add c e) ≡ add (add b c) (add a e)
  regroup a b c e = ap (λ t. add t (add c e)) (add_comm a b) ∙ exchange b a c e

  -- `-t - t` and `t + t` cancel
  pub drop_twice : (a b t : D) → add (add a (add (neg t) (neg t))) (add b (add t t)) ≡ add a b
  drop_twice a b t =
      exchange a (add (neg t) (neg t)) b (add t t)
      ∙ ap (add (add a b)) (
          exchange (neg t) (neg t) t t
          ∙ ap₂ add (add_comm (neg t) t ∙ add-neg t) (add_comm (neg t) t ∙ add-neg t)
          ∙ add-zero nought)
      ∙ add-zero (add a b)
