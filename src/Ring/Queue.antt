-- ===== src/Ring/Queue.antt =====
-- What the ring promises: a first-in first-out queue of at most `limit` values.
use neuro_kinetic.Base.{
  ℕ, Bool, true, false, Option, none, some, List, [], ◌∷◌, ◌++◌, ◌==◌, if◌then◌else◌, length,
}
use neuro_kinetic.Ring.{Op, push, pop, Reply, pushed, popped}

module _ {T : Type 0} where
  unfoldable pub enqueue : ℕ → List T → T → Bool × List T
  enqueue limit q x = if length q == limit then (false, q) else (true, q ++ (x ∷ []))

  unfoldable pub dequeue : List T → Option T × List T
  dequeue [] = (none, [])
  dequeue (x ∷ q) = (some x, q)

  unfoldable pub serve : ℕ → List T → List (Op T) → List (Reply T)
  serve limit q [] = []
  serve limit q (push x ∷ ops) =
      let (done, q') = enqueue limit q x in pushed done ∷ serve limit q' ops
  serve limit q (pop ∷ ops) = let (out, q') = dequeue q in popped out ∷ serve limit q' ops
