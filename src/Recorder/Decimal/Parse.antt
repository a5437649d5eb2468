-- ===== src/Recorder/Decimal/Parse.antt =====
-- A decimal text is read back as its number.
use native.Mathlib.Nat.{pow-suc}
use neuro_kinetic.Base.{
  ℕ, zero, suc, ◌+◌, ◌-◌, ◌*◌, ◌/◌, ◌%◌, ◌^◌, ◌<◌, ◌≡◌, refl, ◌==◌, [], ◌∷◌, ◌++◌, arith, ◌∙◌,
  Bool-cases, inl, inr, true, ==_iff, ap,
}
use neuro_kinetic.Base.Text.{Bytes, scan, is_digit, Lacks, line_feed}
use neuro_kinetic.Recorder.Decimal.{digits, to_decimal}

digits-append : (k n : ℕ) (out rest : Bytes) → digits k n (out ++ rest) ≡ digits k n out ++ rest
unfolding digits
digits-append zero n out rest = refl
digits-append (suc k) n out rest =
    ground (arith, digits-append k (n / 10) ((b'0' + n % 10) ∷ out) rest)

scan-digit : (n d : ℕ) (rest : Bytes) → d < 10 → scan n ((b'0' + d) ∷ rest) ≡ scan (n * 10 + d) rest
unfolding scan
scan-digit n d rest h =
    let back : b'0' + d - b'0' ≡ d = omega arith in
    let digit : is_digit (b'0' + d) ≡ true = ground arith in rw (scan, digit, back) refl

scan-digits : (k n : ℕ) (out : Bytes) → n < 10 ^ k → scan 0 (digits k n out) ≡ scan n out
unfolding digits
scan-digits zero n out h = let none : n ≡ 0 = omega arith in rw none refl
scan-digits (suc k) n out h = elim (Bool-cases (n == 0)) [
  | inl done ↦ let none : n ≡ 0 = (==_iff n 0).0 done in rw (done, none) refl
  | inr more ↦
      let whole : n / 10 * 10 + n % 10 ≡ n = omega arith in
      rw more (
        scan-digits k (n / 10) ((b'0' + n % 10) ∷ out) (omega (arith, pow-suc 10 k))
        ∙ scan-digit (n / 10) (n % 10) out (omega arith)
        ∙ ap (λ v. scan v out) whole)
]

-- A reader of the text of a `uint64_t` has read the number when it comes to what stands behind it.
pub scan-to_decimal :
    (n : ℕ) (rest : Bytes) → n < 2 ^ 64 → scan 0 (to_decimal n ++ rest) ≡ scan n rest
unfolding to_decimal
scan-to_decimal n rest h = elim (Bool-cases (n == 0)) [
  | inl done ↦
      let none : n ≡ 0 = (==_iff n 0).0 done in rw (done, none) (scan-digit 0 0 rest (omega arith))
  | inr more ↦ rw (more, ← digits-append 20 n [] rest) (scan-digits 20 n rest (omega arith))
]

digits-Lacks : (k n : ℕ) (out : Bytes) → Lacks line_feed out → Lacks line_feed (digits k n out)
unfolding digits
digits-Lacks zero n out h = h
digits-Lacks (suc k) n out h =
    ground (arith, h, digits-Lacks k (n / 10) ((b'0' + n % 10) ∷ out) (omega arith, h))

pub to_decimal-Lacks : (n : ℕ) → Lacks line_feed (to_decimal n)
unfolding to_decimal
to_decimal-Lacks n = elim (Bool-cases (n == 0)) [
  | inl done ↦ rw done (omega arith, tt)
  | inr more ↦ rw more (digits-Lacks 20 n [] tt)
]
