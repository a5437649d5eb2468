-- ===== src/Base/Word.antt =====
-- Unsigned machine words: a sum keeps its wrap-around.
use neuro_kinetic.Base.{ℕ, ◌+◌, ◌%◌, ◌^◌}

-- `fetch_add` on a `std::atomic<uint64_t>`, and every other sum of two `uint64_t`
abbrev pub add64 : ℕ → ℕ → ℕ
add64 a b = (a + b) % 2 ^ 64

abbrev pub u32 : ℕ → ℕ
u32 n = n % 2 ^ 32

abbrev pub u64 : ℕ → ℕ
u64 n = n % 2 ^ 64
