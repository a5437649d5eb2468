-- ===== src/Ring/Drops.antt =====
-- The drop counter of the ring.
use neuro_kinetic.Base.{ℕ, ◌+◌, ◌%◌, ◌^◌, ◌<◌, ◌≡◌, false, true, List, [], ◌∷◌, arith}
use neuro_kinetic.Ring.{
  SpscRingBuffer, Op, push, pop, Reply, pushed, popped, dropped, try_push, try_pop, run, after,
}

-- how many pushes were refused
abbrev pub refusals : {T : Type 0} → List (Reply T) → ℕ
refusals [] = 0
refusals (pushed false ∷ replies) = 1 + refusals replies
refusals (pushed true ∷ replies) = refusals replies
refusals (popped _ ∷ replies) = refusals replies

-- After any sequence of calls `dropped` has grown by the number of refused pushes, modulo 2^64.
dropped-after :
    {T : Type 0} (capacity : ℕ) (ops : List (Op T)) (r : SpscRingBuffer T)
    → dropped r < 2 ^ 64
    → dropped (after capacity r ops) ≡ (dropped r + refusals (run capacity r ops)) % 2 ^ 64
unfolding run after dropped try_push try_pop
dropped-after capacity [] r h = omega arith
dropped-after capacity (push x ∷ ops) r h =
    ground (arith, dropped-after capacity ops (try_push capacity r x).1)
dropped-after capacity (pop ∷ ops) r h =
    ground (arith, dropped-after capacity ops (try_pop capacity r).1)
