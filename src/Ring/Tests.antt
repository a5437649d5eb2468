-- ===== src/Ring/Tests.antt =====
-- The ring on concrete calls, and its theorems at concrete rings.
use native.Mathlib.Omega.{arith}
use neuro_kinetic.Base.{All, ℕ, ◌<◌, ◌≡◌, refl, true, false, some, none, List, [], ◌∷◌, ◌++◌, ◌+◌}
use neuro_kinetic.Ring.{
  SpscRingBuffer, Op, push, pop, pushed, popped, fresh, dropped, try_push, try_pop, run, after,
}
use neuro_kinetic.Ring.Queue.{serve}
use neuro_kinetic.Ring.Bounds.{IsValid, contents}
use neuro_kinetic.Ring.Refine.{run_refines}
use neuro_kinetic.Ring.Threads.{System, Reach, start}
use neuro_kinetic.Ring.Threads.Reach.{here, next}
use neuro_kinetic.Ring.Threads.Step.{
  load_head, see_space, write_slot, store_head, load_tail, see_value, read_slot, store_tail,
}
use neuro_kinetic.Ring.Threads.Safety.{
  accessed, write_of, read_of, IsDistinct, fifo_between_threads, slots_never_race,
}

-- 5, then 6, round the end of four slots
abbrev wrapped : SpscRingBuffer ℕ
wrapped = record { slots = λ i. i + 2; head = 1; tail = 3; drops = 0 }

abbrev script : List (Op ℕ)
script = push 7 ∷ push 8 ∷ pop ∷ pop ∷ pop ∷ pop ∷ []

wrapped-IsValid : IsValid 4 wrapped
wrapped-IsValid = omega arith

run-wrapped :
    run 4 wrapped script
    ≡ pushed true
      ∷ pushed false
      ∷ popped (some 5)
      ∷ popped (some 2)
      ∷ popped (some 7)
      ∷ popped none
      ∷ []
unfolding run try_push try_pop
run-wrapped = refl

-- The overflow of tests/test_telemetry_realtime.cpp: a ring of four slots takes three values.
overflow : dropped (after 4 (fresh {T = ℕ} 0) (push 1 ∷ push 1 ∷ push 1 ∷ push 1 ∷ [])) ≡ 1
unfolding dropped after try_push
overflow = refl

run_refines_example : run 4 wrapped script ≡ serve 3 (5 ∷ 2 ∷ []) script
run_refines_example = run_refines script wrapped-IsValid

-- One value is sent, a second one is under way, and the consumer is about to read the first.
abbrev busy : (s : System ℕ) × Reach 3 (start 0) s
busy = (
  _,
  next
      (next
        (next
          (next
            (next
              (next (next (next here (load_head 9 refl)) (see_space 0 9 refl (omega arith)))
                (write_slot 0 9 refl))
              (store_head 0 9 refl))
            (load_head 8 refl))
          (see_space 1 8 refl (omega arith)))
        (load_tail refl))
      (see_value 0 refl (omega arith)),
)

-- One value has gone through, and the ring is empty again.
abbrev passed : (s : System ℕ) × Reach 3 (start 0) s
passed = (
  _,
  next
      (next
        (next
          (next
            (next
              (next (next (next here (load_head 9 refl)) (see_space 0 9 refl (omega arith)))
                (write_slot 0 9 refl))
              (store_head 0 9 refl))
            (load_tail refl))
          (see_value 0 refl (omega arith)))
        (read_slot 0 refl))
      (store_tail 0 9 refl),
)

fifo_between_threads_example : [] ++ contents 3 busy.0.ring ≡ 9 ∷ []
fifo_between_threads_example = fifo_between_threads (omega arith) busy.1

slots_never_race_example : All (λ slot. slot < 3) (accessed busy.0) × IsDistinct (accessed busy.0)
slots_never_race_example = slots_never_race (omega arith) busy.1

-- a write of slot 1 and a read of slot 0
both_access : accessed busy.0 ≡ 1 ∷ 0 ∷ []
unfolding write_of read_of
both_access = refl
