-- ===== src/Recorder/Bytes.antt =====
-- Machine words in memory: little-endian bytes, as `std::memcpy` copies them.
pub mod Sample
use native.Mathlib.Nat.{pow-suc}
use neuro_kinetic.Base.{
  ℕ, zero, suc, ◌+◌, ◌*◌, ◌/◌, ◌%◌, ◌^◌, ◌<◌, ◌≡◌, refl, List, [], ◌∷◌, ◌++◌, length, take, drop,
  arith, ap, ◌∙◌,
}
use neuro_kinetic.Recorder.{InterventionRecord}

-- The bit pattern of a `float` and back, as copying its bytes gives it.
pub record FloatBits (F : Type 0) : Type 0 where
  pub bits : F → ℕ
  pub of_bits : ℕ → F

-- A `float` takes 32 bits, and they hold all of it.
pub record IsBitCast (F : Type 0) (fb : FloatBits F) : Type 0 where
  pub bits-lt : (x : F) → fb.bits x < 2 ^ 32
  pub of_bits-bits : (x : F) → fb.of_bits (fb.bits x) ≡ x

-- the `k` low bytes of a word, lowest first
unfoldable pub to_bytes : ℕ → ℕ → List ℕ
to_bytes zero n = []
to_bytes (suc k) n = (n % 256) ∷ to_bytes k (n / 256)

unfoldable pub of_bytes : List ℕ → ℕ
of_bytes [] = 0
of_bytes (b ∷ bs) = b + 256 * of_bytes bs

pub length-to_bytes : (k n : ℕ) → length (to_bytes k n) ≡ k
unfolding to_bytes
length-to_bytes zero n = refl
length-to_bytes (suc k) n = omega (arith, length-to_bytes k (n / 256))

pub of_bytes-to_bytes : (k n : ℕ) → n < 256 ^ k → of_bytes (to_bytes k n) ≡ n
unfolding to_bytes of_bytes
of_bytes-to_bytes zero n h = omega arith
of_bytes-to_bytes (suc k) n h =
    omega (arith, of_bytes-to_bytes k (n / 256) (omega (arith, pow-suc 256 k)))

module _ {F : Type 0} (fb : FloatBits F) where
  open fb use {bits, of_bits}

  -- `sizeof(InterventionRecord)`: two words of eight bytes and four of four, with no padding
  abbrev pub record_size : ℕ
  record_size = 32

  -- `memcpy(payload.data(), &record, sizeof(InterventionRecord))`
  unfoldable pub encode : InterventionRecord F → List ℕ
  encode r =
      to_bytes 8 r.sequence_number
      ++ (to_bytes 8 r.timestamp_ns
          ++ (to_bytes 4 (bits r.barrier_margin)
              ++ (to_bytes 4 (bits r.commanded_joint5_torque)
                  ++ (to_bytes 4 (bits r.safe_joint5_torque) ++ to_bytes 4 r.active_mask))))

  -- `memcpy(&rec, value.data(), sizeof(InterventionRecord))`
  unfoldable pub decode : List ℕ → InterventionRecord F
  decode bytes = record {
    sequence_number = of_bytes (take 8 bytes);
    timestamp_ns = of_bytes (take 8 (drop 8 bytes));
    barrier_margin = of_bits (of_bytes (take 4 (drop 16 bytes)));
    commanded_joint5_torque = of_bits (of_bytes (take 4 (drop 20 bytes)));
    safe_joint5_torque = of_bits (of_bytes (take 4 (drop 24 bytes)));
    active_mask = of_bytes (take 4 (drop 28 bytes));
  }

  -- the bytes of a span of floats
  unfoldable pub span_bytes : List F → List ℕ
  span_bytes [] = []
  span_bytes (x ∷ xs) = to_bytes 4 (bits x) ++ span_bytes xs

  -- the integers of a record fit their types
  pub record InRange (r : InterventionRecord F) : Type 0 where
    pub sequence_in : r.sequence_number < 2 ^ 64
    pub timestamp_in : r.timestamp_ns < 2 ^ 64
    pub mask_in : r.active_mask < 2 ^ 32

  pub float_back : IsBitCast F fb → (x : F) → of_bits (of_bytes (to_bytes 4 (bits x))) ≡ x
  float_back laws x =
      ap of_bits (of_bytes-to_bytes 4 (bits x) (laws.bits-lt x)) ∙ laws.of_bits-bits x

  -- A record whose integers fit their types takes 32 bytes, and is read back from them as it was.
  pub decode-encode :
      IsBitCast F fb
      → (r : InterventionRecord F) → InRange r
      → (length (encode r) ≡ 32) × (decode (encode r) ≡ r)
  unfolding encode decode to_bytes of_bytes
  decode-encode laws r h = (
    refl,
    λ i. record {
      sequence_number = of_bytes-to_bytes 8 r.sequence_number h.sequence_in i;
      timestamp_ns = of_bytes-to_bytes 8 r.timestamp_ns h.timestamp_in i;
      barrier_margin = float_back laws r.barrier_margin i;
      commanded_joint5_torque = float_back laws r.commanded_joint5_torque i;
      safe_joint5_torque = float_back laws r.safe_joint5_torque i;
      active_mask = of_bytes-to_bytes 4 r.active_mask h.mask_in i;
    },
  )
