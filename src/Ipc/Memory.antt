-- ===== src/Ipc/Memory.antt =====
-- Bytes of the shared segment: loads, stores, and several stores that do not overlap.
use neuro_kinetic.Base.{
  ℕ, zero, suc, ◌+◌, ◌≤◌, ◌≡◌, refl, List, [], ◌∷◌, length, take, drop, All, arith, ap, ◌∙◌, sym,
}
use neuro_kinetic.Base.Text.{Bytes}

-- `n` bytes from the offset `a` on
abbrev pub load : Bytes → ℕ → ℕ → Bytes
load b a n = take n (drop a b)

-- the bytes put over the first ones of a memory
unfoldable pub overwrite : Bytes → Bytes → Bytes
overwrite b [] = b
overwrite [] (x ∷ xs) = []
overwrite (c ∷ b) (x ∷ xs) = x ∷ overwrite b xs

unfoldable pub store : Bytes → ℕ → Bytes → Bytes
unfolding overwrite
store b zero bs = overwrite b bs
store [] (suc a) bs = []
store (c ∷ b) (suc a) bs = c ∷ store b a bs

length-overwrite : (b bs : Bytes) → length bs ≤ length b → length (overwrite b bs) ≡ length b
unfolding overwrite
length-overwrite b [] h = refl
length-overwrite [] (x ∷ xs) h = refl
length-overwrite (c ∷ b) (x ∷ xs) h = ap suc (length-overwrite b xs (omega arith))

pub length-store :
    (b : Bytes) (a : ℕ) (bs : Bytes) → a + length bs ≤ length b → length (store b a bs) ≡ length b
unfolding store
length-store b zero bs h = length-overwrite b bs (omega arith)
length-store [] (suc a) bs h = refl
length-store (c ∷ b) (suc a) bs h = ap suc (length-store b a bs (omega arith))

load-overwrite :
    (b bs : Bytes) (o n : ℕ)
    → length bs ≤ length b
    → o + n ≤ length bs
    → load (overwrite b bs) o n ≡ load bs o n
unfolding overwrite
load-overwrite b [] zero n h k = let none : n ≡ 0 = omega arith in rw none refl
load-overwrite b [] (suc o) n h k = absurd (omega arith)
load-overwrite [] (x ∷ xs) o n h k = absurd (omega arith)
load-overwrite (c ∷ b) (x ∷ xs) zero zero h k = refl
load-overwrite (c ∷ b) (x ∷ xs) zero (suc n) h k =
    ap (◌∷◌ x) (load-overwrite b xs 0 n (omega arith) (omega arith))
load-overwrite (c ∷ b) (x ∷ xs) (suc o) n h k = load-overwrite b xs o n (omega arith) (omega arith)

-- A load within what was stored finds it.
pub load-store :
    (b : Bytes) (a : ℕ) (bs : Bytes) (o n : ℕ)
    → a + length bs ≤ length b
    → o + n ≤ length bs
    → load (store b a bs) (a + o) n ≡ load bs o n
unfolding store
load-store b zero bs o n h k =
    let e : 0 + o ≡ o = omega arith in rw e (load-overwrite b bs o n (omega arith) k)
load-store [] (suc a) bs o n h k = absurd (omega arith)
load-store (c ∷ b) (suc a) bs o n h k =
    let e : suc a + o ≡ suc (a + o) = omega arith in rw e (load-store b a bs o n (omega arith) k)

-- A load below a store does not see it.
pub load-below :
    (b : Bytes) (a : ℕ) (bs : Bytes) (o n : ℕ) → o + n ≤ a → load (store b a bs) o n ≡ load b o n
unfolding store
load-below b zero bs zero zero h = refl
load-below b zero bs zero (suc n) h = absurd (omega arith)
load-below b zero bs (suc o) n h = absurd (omega arith)
load-below [] (suc a) bs o n h = refl
load-below (c ∷ b) (suc a) bs zero zero h = refl
load-below (c ∷ b) (suc a) bs zero (suc n) h = ap (◌∷◌ c) (load-below b a bs 0 n (omega arith))
load-below (c ∷ b) (suc a) bs (suc o) n h = load-below b a bs o n (omega arith)

overwrite-above : (b bs : Bytes) (o n : ℕ) → length bs ≤ o → load (overwrite b bs) o n ≡ load b o n
unfolding overwrite
overwrite-above b [] o n h = refl
overwrite-above [] (x ∷ xs) o n h = refl
overwrite-above (c ∷ b) (x ∷ xs) zero n h = absurd (omega arith)
overwrite-above (c ∷ b) (x ∷ xs) (suc o) n h = overwrite-above b xs o n (omega arith)

-- A load above a store does not see it.
pub load-above :
    (b : Bytes) (a : ℕ) (bs : Bytes) (o n : ℕ)
    → a + length bs ≤ o
    → load (store b a bs) o n ≡ load b o n
unfolding store
load-above b zero bs o n h = overwrite-above b bs o n (omega arith)
load-above [] (suc a) bs o n h = refl
load-above (c ∷ b) (suc a) bs zero n h = absurd (omega arith)
load-above (c ∷ b) (suc a) bs (suc o) n h = load-above b a bs o n (omega arith)

load_all : (bs : Bytes) → load bs 0 (length bs) ≡ bs
load_all [] = refl
load_all (c ∷ bs) = ap (◌∷◌ c) (load_all bs)

-- Some stores one after the other, each an offset with the bytes.
unfoldable pub store_all : Bytes → List (ℕ × Bytes) → Bytes
store_all b [] = b
store_all b ((a, bs) ∷ stores) = store_all (store b a bs) stores

-- The stores lie in the memory of that size from `from` on, in their order and apart.
abbrev pub AreApart : ℕ → ℕ → List (ℕ × Bytes) → Type 0
AreApart size from [] = Unit
AreApart size from ((a, bs) ∷ stores) =
    (from ≤ a) × (a + length bs ≤ size) × AreApart size (a + length bs) stores

load-store_all :
    (b : Bytes) (size from : ℕ) (stores : List (ℕ × Bytes)) (o n : ℕ)
    → AreApart size from stores
    → o + n ≤ from
    → load (store_all b stores) o n ≡ load b o n
unfolding store_all
load-store_all b size from [] o n apart h = refl
load-store_all b size from ((a, bs) ∷ stores) o n (above, fits, apart) h =
    load-store_all (store b a bs) size (a + length bs) stores o n apart (omega arith)
    ∙ load-below b a bs o n (omega arith)

-- After stores that lie apart, every one of them can be loaded.
pub store_all-loads :
    (b : Bytes) (from : ℕ) (stores : List (ℕ × Bytes))
    → AreApart (length b) from stores
    → All (λ s. load (store_all b stores) s.0 (length s.1) ≡ s.1) stores
unfolding store_all
store_all-loads b from [] apart = tt
store_all-loads b from ((a, bs) ∷ stores) (above, fits, apart) =
    let size = length-store b a bs fits in
    (
      load-store_all (store b a bs) (length b) (a + length bs) stores a (length bs) apart
            (omega arith)
          ∙ here b a bs fits,
      store_all-loads (store b a bs) (a + length bs) stores (rw size apart),
    )
  where
    here :
        (b : Bytes) (a : ℕ) (bs : Bytes)
        → a + length bs ≤ length b
        → load (store b a bs) a (length bs) ≡ bs
    here b a bs h =
        let e : a + 0 ≡ a = omega arith in
        ap (λ o. load (store b a bs) o (length bs)) (sym e)
        ∙ load-store b a bs 0 (length bs) h (omega arith)
        ∙ load_all bs

load-nil : (o n : ℕ) → load [] o n ≡ []
load-nil zero zero = refl
load-nil zero (suc n) = refl
load-nil (suc o) zero = refl
load-nil (suc o) (suc n) = refl

pub load-take : (b : Bytes) (n o k : ℕ) → o + k ≤ n → load (take n b) o k ≡ load b o k
load-take b zero o k h =
    let none : o ≡ 0 = omega arith in let no_bytes : k ≡ 0 = omega arith in rw (none, no_bytes) refl
load-take [] (suc n) o k h = refl
load-take (c ∷ b) (suc n) zero zero h = refl
load-take (c ∷ b) (suc n) zero (suc k) h = ap (◌∷◌ c) (load-take b n 0 k (omega arith))
load-take (c ∷ b) (suc n) (suc o) k h = load-take b n o k (omega arith)

-- A load within a load.
pub load-load : (b : Bytes) (a n o k : ℕ) → o + k ≤ n → load (load b a n) o k ≡ load b (a + o) k
load-load b zero n o k h = let e : 0 + o ≡ o = omega arith in rw e (load-take b n o k h)
load-load [] (suc a) n o k h =
    ap (λ l. load l o k) (load-nil (suc a) n) ∙ load-nil o k ∙ sym (load-nil (suc a + o) k)
load-load (c ∷ b) (suc a) n o k h =
    let e : suc a + o ≡ suc (a + o) = omega arith in rw e (load-load b a n o k h)
