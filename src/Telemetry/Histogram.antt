-- ===== src/Telemetry/Histogram.antt =====
-- The histograms of telemetry_worker.cpp and metrics.cpp: six counters, for values up to 50, 100, 250,
-- 500 and 1000 and for the others.
use neuro_kinetic.Base.{
  ℕ, zero, suc, ◌+◌, ◌%◌, ◌^◌, ◌<◌, ◌≤◌, ◌≡◌, ◌==◌, refl, Bool, true, if◌then◌else◌, List, [], ◌∷◌,
  length, get_or, arith, leb, update,
}
use neuro_kinetic.Base.Word.{add64}
use neuro_kinetic.Double.{Double}
use neuro_kinetic.Double.Laws.{IsMonotone}

-- the sum of the counters up to `index`, as the loop over `bucket <= index` finds it
unfoldable pub cumulative : (ℕ → ℕ) → ℕ → ℕ
cumulative buckets zero = add64 0 (buckets zero)
cumulative buckets (suc index) = add64 (cumulative buckets index) (buckets (suc index))

-- `fetch_add(1)` of one counter
abbrev pub increment_at : (ℕ → ℕ) → ℕ → ℕ → ℕ
increment_at counters i = update counters i (add64 (counters i) 1)

module _ {D : Type 0} ⦃d : Double D⦄ where
  open d use {le, decimal}

  abbrev pub bounds : List D
  bounds = decimal 500 1 ∷ decimal 1000 1 ∷ decimal 2500 1 ∷ decimal 5000 1 ∷ decimal 10000 1 ∷ []

  -- The loop that looks for the first bound, from `index` on; without one the bucket is 5.
  abbrev pub first_bound : D → ℕ → List D → ℕ
  first_bound value index [] = 5
  first_bound value index (bound ∷ rest) =
      let later = first_bound value (index + 1) rest in if le value bound then index else later

  unfoldable pub bucket_of : D → ℕ
  bucket_of value = first_bound value 0 bounds

  -- the counters after a list of values
  unfoldable pub counted : (ℕ → ℕ) → List D → ℕ → ℕ
  counted buckets [] = buckets
  counted buckets (x ∷ xs) = counted (increment_at buckets (bucket_of x)) xs

  -- the `index`-th upper bound; the last one is infinite
  abbrev pub is_within : ℕ → D → Bool
  is_within index x = if index == 5 then true else le x (get_or bounds index (decimal 0 0))

  -- how many values are within the `index`-th bound
  unfoldable pub count_within : ℕ → List D → ℕ
  count_within index [] = 0
  count_within index (x ∷ xs) = (if is_within index x then 1 else 0) + count_within index xs

  bucket_within :
      IsMonotone D → (x : D) (index : ℕ) → index ≤ 5 → leb (bucket_of x) index ≡ is_within index x
  unfolding bucket_of
  bucket_within mono x zero h = ground arith
  bucket_within mono x (suc zero) h = ground (arith, mono.le_mono x 500 1000 1)
  bucket_within mono x (suc (suc zero)) h =
      ground (arith, mono.le_mono x 500 2500 1, mono.le_mono x 1000 2500 1)
  bucket_within mono x (suc (suc (suc zero))) h =
      ground
        (arith, mono.le_mono x 500 5000 1, mono.le_mono x 1000 5000 1, mono.le_mono x 2500 5000 1)
  bucket_within mono x (suc (suc (suc (suc zero)))) h = ground (
    arith,
    mono.le_mono x 500 10000 1,
    mono.le_mono x 1000 10000 1,
    mono.le_mono x 2500 10000 1,
    mono.le_mono x 5000 10000 1,
  )
  bucket_within mono x (suc (suc (suc (suc (suc zero))))) h = ground arith
  bucket_within mono x (suc (suc (suc (suc (suc (suc n)))))) h = absurd (omega arith)

cumulative-lt : (buckets : ℕ → ℕ) (index : ℕ) → cumulative buckets index < 2 ^ 64
unfolding cumulative
cumulative-lt buckets zero = omega arith
cumulative-lt buckets (suc index) = omega arith

cumulative-increment :
    (buckets : ℕ → ℕ) (i index : ℕ)
    → cumulative (increment_at buckets i) index
      ≡ (cumulative buckets index + (if leb i index then 1 else 0)) % 2 ^ 64
unfolding cumulative
cumulative-increment buckets i zero = ground arith
cumulative-increment buckets i (suc index) =
    ground (arith, cumulative-increment buckets i index, cumulative-lt buckets index)

module _ {D : Type 0} ⦃d : Double D⦄ (mono : IsMonotone D) where
  -- The counters up to a bound grow by the number of values within that bound, modulo 2^64, whatever
  -- the values are; NaN is within the infinite bound alone.
  pub cumulative-counted :
      (xs : List D) (buckets : ℕ → ℕ) (index : ℕ)
      → index ≤ 5
      → cumulative (counted buckets xs) index
        ≡ (cumulative buckets index + count_within index xs) % 2 ^ 64
  unfolding counted count_within
  cumulative-counted [] buckets index h = omega (arith, cumulative-lt buckets index)
  cumulative-counted (x ∷ xs) buckets index h = ground (
    arith,
    cumulative-counted xs (increment_at buckets (bucket_of x)) index h,
    cumulative-increment buckets (bucket_of x) index,
    bucket_within mono x index h,
  )

module _ {D : Type 0} ⦃d : Double D⦄ where
  pub count_within-5 : (xs : List D) → count_within 5 xs ≡ length xs
  unfolding count_within
  count_within-5 [] = refl
  count_within-5 (x ∷ xs) = omega (arith, count_within-5 xs)

  pub count_within-le : (index : ℕ) (xs : List D) → count_within index xs ≤ length xs
  unfolding count_within
  count_within-le index [] = omega arith
  count_within-le index (x ∷ xs) = ground (arith, count_within-le index xs)

cumulative-zero : (index : ℕ) → cumulative (λ _. 0) index ≡ 0
unfolding cumulative
cumulative-zero zero = refl
cumulative-zero (suc index) = omega (arith, cumulative-zero index)

pub cumulative-new :
    {D : Type 0} ⦃d : Double D⦄
    → IsMonotone D
    → (xs : List D) (index : ℕ) → index ≤ 5
    → cumulative (counted (λ _. 0) xs) index ≡ count_within index xs % 2 ^ 64
cumulative-new mono xs index h =
    omega (arith, cumulative-counted mono xs (λ _. 0) index h, cumulative-zero index)
