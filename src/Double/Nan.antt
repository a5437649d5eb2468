-- ===== src/Double/Nan.antt =====
-- What IEEE 754 says of NaN, and numbers in millionths with a NaN, which run.
use neuro_kinetic.Base.{◌≡◌, refl, Bool, true, false}
use neuro_kinetic.Double.{Double}
use neuro_kinetic.Double.Micro.{Micro, micro_double}

-- NaN compares with nothing, and a sum or a difference with it is NaN.
pub record IsNan (D : Type 0) ⦃d : Double D⦄ (nan : D) : Type 0 where
  pub lt-nan : (x : D) → d.lt x nan ≡ false
  pub nan-lt : (x : D) → d.lt nan x ≡ false
  pub add-nan : (x : D) → d.add x nan ≡ nan
  pub sub-nan : (x : D) → d.sub x nan ≡ nan

pub data MicroOrNan : Type 0 where
  number : Micro → MicroOrNan
  nan : MicroOrNan

abbrev lift : (Micro → Micro) → MicroOrNan → MicroOrNan
lift op (number a) = number (op a)
lift op nan = nan

abbrev lift2 : (Micro → Micro → Micro) → MicroOrNan → MicroOrNan → MicroOrNan
lift2 op (number a) (number b) = number (op a b)
lift2 op (number a) nan = nan
lift2 op nan b = nan

abbrev compare : (Micro → Micro → Bool) → MicroOrNan → MicroOrNan → Bool
compare op (number a) (number b) = op a b
compare op (number a) nan = false
compare op nan b = false

abbrev finite : MicroOrNan → Bool
finite (number a) = true
finite nan = false

instance abbrev pub nan_double : Double MicroOrNan
nan_double = record {
  add = lift2 micro_double.add;
  sub = lift2 micro_double.sub;
  mul = lift2 micro_double.mul;
  div = lift2 micro_double.div;
  neg = lift micro_double.neg;
  abs = lift micro_double.abs;
  sqrt = lift micro_double.sqrt;
  lt = compare micro_double.lt;
  le = compare micro_double.le;
  is_finite = finite;
  decimal = λ m e. number (micro_double.decimal m e);
}

pub nan-IsNan : IsNan MicroOrNan nan
nan-IsNan = record {
  lt-nan = elim [ number a ↦ refl | nan ↦ refl ];
  nan-lt = λ x. refl;
  add-nan = elim [ number a ↦ refl | nan ↦ refl ];
  sub-nan = elim [ number a ↦ refl | nan ↦ refl ];
}
