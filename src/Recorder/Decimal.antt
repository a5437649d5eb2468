-- ===== src/Recorder/Decimal.antt =====
-- The decimal keys of flight_recorder.cpp: `std::setw(20) << std::setfill('0')` of a `uint64_t`.
pub mod Order
pub mod Parse
use neuro_kinetic.Base.{
  ℕ, zero, suc, ◌+◌, ◌-◌, ◌/◌, ◌%◌, ◌==◌, if◌then◌else◌, List, [], ◌∷◌, ◌++◌, length, replicate,
}

-- The digits of a number, last one first to be found. Twenty rounds are enough for a `uint64_t`.
unfoldable pub digits : ℕ → ℕ → List ℕ → List ℕ
digits zero n out = out
digits (suc f) n out =
    let rest = digits f (n / 10) ((b'0' + n % 10) ∷ out) in if n == 0 then out else rest

unfoldable pub to_decimal : ℕ → List ℕ
to_decimal n = if n == 0 then b'0' ∷ [] else digits 20 n []

-- padding on the left to a width, which leaves a longer text alone
unfoldable pub set_width : ℕ → ℕ → List ℕ → List ℕ
set_width width fill text = replicate (width - length text) fill ++ text

unfoldable pub padded : ℕ → List ℕ
unfolding set_width to_decimal
padded n = set_width 20 b'0' (to_decimal n)

-- `n` digits, leading zeros included
unfoldable pub fixed : ℕ → ℕ → List ℕ
fixed zero n = []
fixed (suc k) n = fixed k (n / 10) ++ ((b'0' + n % 10) ∷ [])
