-- ===== src/Recorder/Decimal/Order.antt =====
-- Padded decimal texts are ordered as their numbers are.
use native.Mathlib.Nat.{pow-suc}
use native.Mathlib.Decide.{dec_lt}
use neuro_kinetic.Base.{
  ℕ, zero, suc, ◌+◌, ◌-◌, ◌/◌, ◌%◌, ◌^◌, ◌≤◌, ◌<◌, ◌≡◌, refl, ap, sym, ◌∙◌, ◌==◌, ltb, Bool, true,
  false, ◌&&◌, ◌||◌, List, [], ◌∷◌, ◌++◌, append_assoc, length, length-append, replicate, arith,
  Bool-cases, ==_iff, inl, inr, append-nil,
}
use neuro_kinetic.Recorder.Decimal.{digits, padded, fixed}

-- The bytewise order of RocksDB's default comparator.
abbrev pub lex_lt : List ℕ → List ℕ → Bool
lex_lt [] [] = false
lex_lt [] (y ∷ ys) = true
lex_lt (x ∷ xs) [] = false
lex_lt (x ∷ xs) (y ∷ ys) = ltb x y || (x == y && lex_lt xs ys)

replicate-snoc : (k x : ℕ) → replicate k x ++ (x ∷ []) ≡ x ∷ replicate k x
replicate-snoc zero x = refl
replicate-snoc (suc k) x = ap (◌∷◌ x) (replicate-snoc k x)

fixed-zero : (k : ℕ) → fixed k 0 ≡ replicate k b'0'
unfolding fixed
fixed-zero zero = refl
fixed-zero (suc k) = rw (fixed-zero k) (replicate-snoc k b'0')

pub length-fixed : (k n : ℕ) → length (fixed k n) ≡ k
unfolding fixed
length-fixed zero n = refl
length-fixed (suc k) n =
    omega (arith, length-append (fixed k (n / 10)) ((b'0' + n % 10) ∷ []), length-fixed k (n / 10))

-- The digits that the loop finds, with zeros before them, are the fixed digits.
pad-digits :
    (k n m : ℕ) (out : List ℕ)
    → n < 10 ^ k
    → m + length (digits k n out) ≡ k + length out
    → replicate m b'0' ++ digits k n out ≡ fixed k n ++ out
unfolding digits fixed
pad-digits zero n m out h e = let none : m ≡ 0 = omega arith in rw none
pad-digits (suc k) n m out h e = elim (Bool-cases (n == 0)) [
  | inl done ↦
      let zero : n ≡ 0 = (==_iff n 0).0 done in
      let all : m ≡ suc k = ground arith in
      rw (done, all, zero) (ap (λ l. l ++ out) (sym (fixed-zero (suc k))))
  | inr more ↦ rw more (
      pad-digits k (n / 10) m ((b'0' + n % 10) ∷ out) (omega (arith, pow-suc 10 k))
        (omega (arith, rw more at e))
      ∙ sym (append_assoc (fixed k (n / 10)) ((b'0' + n % 10) ∷ []) out))
]

length-digits : (k n : ℕ) (out : List ℕ) → length (digits k n out) ≤ k + length out
unfolding digits
length-digits zero n out = omega arith
length-digits (suc k) n out = ground (arith, length-digits k (n / 10) ((b'0' + n % 10) ∷ out))

-- The text of a `uint64_t` padded to twenty places is that of its twenty decimal digits: no timestamp
-- and no sequence number is too long for its field.
pub padded_lem : (n : ℕ) → n < 2 ^ 64 → padded n ≡ fixed 20 n
unfolding padded
padded_lem n h = elim (Bool-cases (n == 0)) [
  | inl nought ↦ let e : n ≡ 0 = (==_iff n 0).0 nought in rw (nought, e) (sym (fixed-zero 20))
  | inr more ↦ rw more (
      pad-digits 20 n (20 - length (digits 20 n [])) [] (omega arith)
        (omega (arith, length-digits 20 n []))
      ∙ append-nil (fixed 20 n))
]

lex_lt-append :
    (xs ys us vs : List ℕ)
    → length xs ≡ length ys
    → lex_lt xs ys ≡ true
    → lex_lt (xs ++ us) (ys ++ vs) ≡ true
lex_lt-append [] [] us vs e h = cc
lex_lt-append [] (y ∷ ys) us vs e h = absurd (omega arith)
lex_lt-append (x ∷ xs) [] us vs e h = absurd (omega arith)
lex_lt-append (x ∷ xs) (y ∷ ys) us vs e h = ground (arith, lex_lt-append xs ys us vs)

pub lex_lt-prefix : (p xs ys : List ℕ) → lex_lt (p ++ xs) (p ++ ys) ≡ lex_lt xs ys
lex_lt-prefix [] xs ys = refl
lex_lt-prefix (x ∷ p) xs ys = ground (arith, lex_lt-prefix p xs ys)

pub lex_lt_irrefl : (xs : List ℕ) → lex_lt xs xs ≡ false
lex_lt_irrefl [] = refl
lex_lt_irrefl (x ∷ xs) = ground (arith, lex_lt_irrefl xs)

lex_lt-fixed : (k a b : ℕ) → a < b → b < 10 ^ k → lex_lt (fixed k a) (fixed k b) ≡ true
unfolding fixed
lex_lt-fixed zero a b h small = absurd (omega arith)
lex_lt-fixed (suc k) a b h small = elim (dec_lt (a / 10) (b / 10)) [
  | yes lead ↦
      lex_lt-append (fixed k (a / 10)) (fixed k (b / 10)) _ _
        (length-fixed k (a / 10) ∙ sym (length-fixed k (b / 10)))
        (lex_lt-fixed k (a / 10) (b / 10) lead (omega (arith, pow-suc 10 k)))
  | no last ↦ let same : a / 10 ≡ b / 10 = omega arith in rw (same, lex_lt-prefix) (ground arith)
]

-- Keys sort as their numbers: behind a common prefix, the padded text of the smaller of two `uint64_t`
-- comes first in the bytewise order.
pub padded_order :
    (prefix : List ℕ) (a b : ℕ)
    → a < b
    → b < 2 ^ 64
    → lex_lt (prefix ++ padded a) (prefix ++ padded b) ≡ true
padded_order prefix a b h small =
    rw (lex_lt-prefix, padded_lem a (omega arith), padded_lem b small)
      (lex_lt-fixed 20 a b h (omega arith))

-- Two `uint64_t` with the same key are equal.
pub padded_injective :
    (prefix : List ℕ) (a b : ℕ)
    → a < 2 ^ 64
    → b < 2 ^ 64
    → prefix ++ padded a ≡ prefix ++ padded b
    → a ≡ b
padded_injective prefix a b ha hb e =
    ground
      (arith, padded_order prefix a b, padded_order prefix b a, lex_lt_irrefl (prefix ++ padded b))
