-- ===== src/Ring/Bounds.antt =====
-- The ring's representation: which indices are used, and which values it holds.
use native.Mathlib.Nat.{mod-eq_of_lt, mod_self}
use neuro_kinetic.Base.{
  ℕ, zero, suc, ◌+◌, ◌-◌, ◌<◌, ◌≡◌, refl, sym, ap, ap₂, ◌⊎◌, inl, inr, ◌≢◌, List, [], ◌∷◌, ◌++◌,
  arith, leb, if◌then◌else◌, length, update, update_ne,
}
use neuro_kinetic.Ring.{SpscRingBuffer, increment, try_push, try_pop}
use native.Mathlib.Decide.{dec_lt}

pub record IsValid {T : Type 0} (capacity : ℕ) (r : SpscRingBuffer T) : Type 0 where
  pub room : 1 < capacity
  pub head_in : r.head < capacity
  pub tail_in : r.tail < capacity

-- how many values lie between two indices
abbrev pub distance : ℕ → ℕ → ℕ → ℕ
distance capacity head tail = if leb tail head then head - tail else head + capacity - tail

pub increment_cases :
    (capacity i : ℕ)
    → i < capacity
    → ((i + 1 < capacity) × (increment capacity i ≡ i + 1))
      ⊎ ((i + 1 ≡ capacity) × (increment capacity i ≡ 0))
increment_cases capacity i h = elim (dec_lt (i + 1) capacity) [
  | yes p ↦ inl (p, mod-eq_of_lt p)
  | no p ↦ let e : i + 1 ≡ capacity = omega arith in inr (e, rw (e, mod_self))
]

module _ {T : Type 0} (slots : ℕ → T) (capacity : ℕ) where
  -- the `n` values from index `i` on, going round at `capacity`
  abbrev pub window : ℕ → ℕ → List T
  window i zero = []
  window i (suc n) = slots i ∷ window (increment capacity i) n

  pub length-window : (i n : ℕ) → length (window i n) ≡ n
  length-window i zero = refl
  length-window i (suc n) = ap suc (length-window (increment capacity i) n)

module _ {T : Type 0} where
  abbrev pub contents : ℕ → SpscRingBuffer T → List T
  contents capacity r = window r.slots capacity r.tail (distance capacity r.head r.tail)

module _ (capacity head tail : ℕ) (head_in : head < capacity) (tail_in : tail < capacity) where
  pub distance_lt : distance capacity head tail < capacity
  distance_lt = ground arith

  pub distance-pop :
      tail ≢ head
      → distance capacity head tail ≡ suc (distance capacity head (increment capacity tail))
  distance-pop ne = ground (arith, increment_cases capacity tail tail_in)

  pub distance-push :
      increment capacity head ≢ tail
      → distance capacity (increment capacity head) tail ≡ suc (distance capacity head tail)
  distance-push ne = ground (arith, increment_cases capacity head head_in)

  pub distance_full : increment capacity head ≡ tail → distance capacity head tail + 1 ≡ capacity
  distance_full e = ground (arith, increment_cases capacity head head_in)

  pub distance_zero : distance capacity head tail ≡ 0 → tail ≡ head
  distance_zero e = ground arith

module _ {T : Type 0} (slots : ℕ → T) (capacity head : ℕ) (head_in : head < capacity) where
  -- A write at `head` changes none of the values that lie before it.
  pub window-update :
      (x : T) (n i : ℕ)
      → i < capacity
      → distance capacity head i ≡ n
      → window (update slots head x) capacity i n ≡ window slots capacity i n
  window-update x zero i h e = refl
  window-update x (suc n) i h e =
      let ne : i ≢ head = ground arith in
      ap₂ ◌∷◌ (update_ne slots head i x (λ same. ne (sym same))) (
        window-update x n (increment capacity i) (ground (arith, increment_cases capacity i h))
          (omega (arith, distance-pop capacity head i head_in h ne)))

  -- The window that ends behind `head` ends with the value at `head`.
  pub window-snoc :
      (n i : ℕ)
      → i < capacity
      → distance capacity head i ≡ n
      → window slots capacity i (suc n) ≡ window slots capacity i n ++ (slots head ∷ [])
  window-snoc zero i h e = rw (distance_zero capacity head i head_in h e)
  window-snoc (suc n) i h e =
      let ne : i ≢ head = ground arith in
      ap (◌∷◌ (slots i)) (
        window-snoc n (increment capacity i) (ground (arith, increment_cases capacity i h))
          (omega (arith, distance-pop capacity head i head_in h ne)))

module _ {T : Type 0} {capacity : ℕ} {r : SpscRingBuffer T} (v : IsValid capacity r) where
  pub try_push-IsValid : (x : T) → IsValid capacity (try_push capacity r x).1
  unfolding try_push
  try_push-IsValid x = ground (arith, increment_cases capacity r.head v.head_in)

  pub try_pop-IsValid : IsValid capacity (try_pop capacity r).1
  unfolding try_pop
  try_pop-IsValid = ground (arith, increment_cases capacity r.tail v.tail_in)
