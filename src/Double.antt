-- ===== src/Double.antt =====
-- What the code does with a `double`: IEEE arithmetic, comparisons, and decimal literals. The type and
-- its operations are a parameter of the model, and the laws are hypotheses of the theorems that need
-- them. `<cmath>` and `<algorithm>` are read through these operations.
pub mod Laws
pub mod Exact
pub mod Whole
pub mod Micro
pub mod Nan
use neuro_kinetic.Base.{ℕ, Bool, if◌then◌else◌}

pub record Double (D : Type 0) : Type 0 where
  pub add : D → D → D
  pub sub : D → D → D
  pub mul : D → D → D
  pub div : D → D → D
  pub neg : D → D
  pub abs : D → D
  pub sqrt : D → D
  pub lt : D → D → Bool
  pub le : D → D → Bool
  pub is_finite : D → Bool
  -- the literal `m * 10^-e`: `decimal 15 2` is 0.15
  pub decimal : ℕ → ℕ → D

module _ {D : Type 0} ⦃d : Double D⦄ where
  open d use {lt, decimal}

  abbrev pub nought : D
  nought = decimal 0 0

  -- `std::clamp(v, lo, hi)`
  abbrev pub clamp : D → D → D → D
  clamp v lo hi = if lt v lo then lo else if lt hi v then hi else v

  -- `std::min(a, b)` and `std::max(a, b)`
  abbrev pub minimum : D → D → D
  minimum a b = if lt b a then b else a

  abbrev pub maximum : D → D → D
  maximum a b = if lt a b then b else a
