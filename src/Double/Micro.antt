-- ===== src/Double/Micro.antt =====
-- Numbers in millionths, an instance of the operations that meets the laws and that runs.
use neuro_kinetic.Base.{
  ℕ, ◌<◌, zero, suc, ◌+◌, ◌-◌, ◌*◌, ◌/◌, ◌^◌, ◌≡◌, refl, true, arith, leb, if◌then◌else◌, ◌≤◌, ap,
}
use neuro_kinetic.Base.Int.{
  ℤ, pos, negsuc, pos_part, neg_part, sub_ℕ, ◌+ℤ◌, ◌-ℤ◌, neg_ℤ, magnitude, ltb_ℤ, leb_ℤ,
}
use native.Mathlib.Nat.{mul-le-mul_right}
use neuro_kinetic.Double.{Double}
use neuro_kinetic.Double.Laws.{IsOrdered, IsArithmetic, IsMonotone}

pub record Micro : Type 0 where
  pub units : ℤ

abbrev one : ℕ
one = 1_000_000

-- the sign of a product, at the magnitude `n`
abbrev signed : ℤ → ℤ → ℕ → ℤ
signed (pos a) (pos b) n = pos n
signed (pos a) (negsuc b) n = sub_ℕ 0 n
signed (negsuc a) (pos b) n = sub_ℕ 0 n
signed (negsuc a) (negsuc b) n = pos n

-- the integer square root, a binary digit at a time
abbrev isqrt : ℕ → ℕ → ℕ → ℕ
isqrt zero n root = root
isqrt (suc bits) n root =
    let next = root + 2 ^ bits in isqrt bits n (if leb (next * next) n then next else root)

-- a unit of the `e`-th decimal place, in millionths
abbrev unit : ℕ → ℕ
unit zero = 1_000_000
unit (suc zero) = 100_000
unit (suc (suc zero)) = 10_000
unit (suc (suc (suc zero))) = 1_000
unit (suc (suc (suc (suc zero)))) = 100
unit (suc (suc (suc (suc (suc zero))))) = 10
unit (suc (suc (suc (suc (suc (suc zero)))))) = 1
unit (suc (suc (suc (suc (suc (suc (suc e))))))) = 0

abbrev micro : ℤ → Micro
micro u = record { units = u }

instance abbrev pub micro_double : Double Micro
micro_double = record {
  add = λ a b. micro (a.units +ℤ b.units);
  sub = λ a b. micro (a.units -ℤ b.units);
  mul = λ a b. micro (signed a.units b.units (magnitude a.units * magnitude b.units / one));
  div = λ a b. micro (signed a.units b.units (magnitude a.units * one / magnitude b.units));
  neg = λ a. micro (neg_ℤ a.units);
  abs = λ a. micro (pos (magnitude a.units));
  sqrt = λ a. micro (pos (isqrt 32 (pos_part a.units * one) 0));
  lt = λ a b. ltb_ℤ a.units b.units;
  le = λ a b. leb_ℤ a.units b.units;
  is_finite = λ a. true;
  decimal = λ m e. micro (pos (m * unit e));
}

unit_scale : (e : ℕ) → e ≤ 4 → unit e ≡ 10 * unit (suc e)
unit_scale zero h = refl
unit_scale (suc zero) h = refl
unit_scale (suc (suc zero)) h = refl
unit_scale (suc (suc (suc zero))) h = refl
unit_scale (suc (suc (suc (suc zero)))) h = refl
unit_scale (suc (suc (suc (suc (suc e))))) h = absurd (omega arith)

unit_pos : (e : ℕ) → e ≤ 5 → 0 < unit e
unit_pos zero h = omega arith
unit_pos (suc e) h = omega (arith, unit_scale e (omega arith), unit_pos e (omega arith))

pub Micro-IsOrdered : IsOrdered Micro
Micro-IsOrdered = record {
  lt_irrefl = λ x. ground arith;
  lt_trans = λ x y z p q. ground arith;
  not-le_of_lt = λ x y p. ground arith;
  neg_decimal = λ m e n f. ground arith;
  lt-neg-neg = λ x y. ground arith;
  le_decimal = λ m n e p. ground (arith, mul-le-mul_right (unit e) p);
  decimal_scale = λ m e h. ap (λ k. micro (pos k)) (rw (unit_scale e h) (omega arith));
}

-- The laws of the sums and products go by the sign of a number.
Micro_laws :
    (a : ℤ)
    → (sub_ℕ (pos_part a) (neg_part a) ≡ a)
      × (signed (pos one) a (one * magnitude a / one) ≡ a)
      × (signed (negsuc (one - 1)) a (one * magnitude a / one) ≡ neg_ℤ a)
      × (signed (pos 0) a (0 * magnitude a / one) ≡ pos 0)
Micro_laws (pos n) = ground arith
Micro_laws (negsuc n) = ground arith

pub Micro-IsArithmetic : IsArithmetic Micro
Micro-IsArithmetic = record {
  zero-add = λ x. ground (arith, Micro_laws x.units);
  add-zero = λ x. ground (arith, Micro_laws x.units);
  zero-mul = λ x h. ground (arith, Micro_laws x.units);
  one-mul = λ x. ground (arith, Micro_laws x.units);
  neg_one-mul = λ x. ground (arith, Micro_laws x.units);
  neg-sub-neg = λ x y. ground arith;
  sub_self = λ x h. ground arith;
  sqrt-zero = refl;
  zero_finite = refl;
  zero-le = λ m e. ground arith;
}

pub Micro-IsMonotone : IsMonotone Micro
Micro-IsMonotone = record { le_mono = λ x m n e h p. ground (arith, mul-le-mul_right (unit e) h) }
