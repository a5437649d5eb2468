-- ===== src/Daemon/Session/Accounts.antt =====
-- What a session has done when `main` returns.
use neuro_kinetic.Base.{
  inl, inr, Bool-cases, ℕ, ◌+◌, ◌%◌, ◌^◌, ◌≡◌, ◌<◌, refl, Bool, true, false, ◌&&◌, some, List, [],
  ◌∷◌, arith, ◌∙◌, Bool-cases,
}
use neuro_kinetic.Base.Word.{add64}
use neuro_kinetic.Double.{Double}
use neuro_kinetic.Kernel.{LdltSolve}
use neuro_kinetic.Ring.Bounds.{contents}
use neuro_kinetic.Recorder.Bytes.{FloatBits}
use neuro_kinetic.Recorder.Store.{RocksDb}
use neuro_kinetic.Telemetry.{Numbers}
use neuro_kinetic.Telemetry.Worker.{queue_capacity, try_push, start}
use neuro_kinetic.Telemetry.Worker.Accounts.{
  accounted, IsSound, try_push-accounts, drain_turn-accounts, stop-accounts,
}
use neuro_kinetic.Daemon.{Casts, Daemon, Inputs}
use neuro_kinetic.Daemon.Tick.{tick, tick_frame}
use neuro_kinetic.Daemon.Start.{boot}
use neuro_kinetic.Daemon.Session.{
  Event, round, worker_turn, signal, Session, Host, begin, happen, happen_all, shut_down, main,
}

-- how many rounds come before the first signal
abbrev pub rounds_run : {D F : Type 0} → Bool → List (Event D F) → ℕ
rounds_run running [] = 0
rounds_run true (round x ∷ events) = 1 + rounds_run true events
rounds_run false (round x ∷ events) = rounds_run false events
rounds_run running (worker_turn ∷ events) = rounds_run running events
rounds_run running (signal ∷ events) = rounds_run false events

module _ {S D F : Type 0} ⦃d : Double D⦄ ⦃f : Double F⦄ (casts : Casts D F) (numbers : Numbers D F)
    (rocks : RocksDb S) (fb : FloatBits F) (ldlt_solve : LdltSolve D) where
  -- Every round so far is in the accounts of the worker, which runs.
  record IsAccounted (m : Daemon S D F) : Type 0 where
    sound : IsSound m.telemetry_worker
    running : m.telemetry_worker.running ≡ true
    count_in : m.tick_count < 2 ^ 64
    accounts : accounted m.telemetry_worker % 2 ^ 64 ≡ m.tick_count

  tick-IsAccounted :
      (m : Daemon S D F) (x : Inputs D F)
      → IsAccounted m
      → IsAccounted (tick casts rocks fb ldlt_solve m x)
  unfolding tick try_push
  tick-IsAccounted m x a =
      let (sound, sum) = try_push-accounts a.sound (tick_frame casts rocks fb ldlt_solve m x) in
      record {
        sound = sound;
        running = a.running;
        count_in = omega arith;
        accounts = omega (arith, sum, a.accounts);
      }

  turn-IsAccounted :
      (s : Session S D F)
      → IsAccounted s.daemon
      → IsAccounted (happen casts numbers rocks fb ldlt_solve s worker_turn).daemon
  unfolding happen
  turn-IsAccounted s a =
      let (sound, sum, running) = drain_turn-accounts numbers fb a.sound in
      record {
        sound = sound;
        running = running ∙ a.running;
        count_in = a.count_in;
        accounts = sum ∙ a.accounts;
      }

  happen-IsAccounted :
      (s : Session S D F) (e : Event D F)
      → IsAccounted s.daemon
      → IsAccounted (happen casts numbers rocks fb ldlt_solve s e).daemon
  unfolding happen
  happen-IsAccounted s (round x) a = elim (Bool-cases s.g_running) [
    | inl on ↦ rw (happen, on) (tick-IsAccounted s.daemon x a)
    | inr off ↦ rw (happen, off) a
  ]
  happen-IsAccounted s worker_turn a = turn-IsAccounted s a
  happen-IsAccounted s signal a = a

  happen_all-IsAccounted :
      (s : Session S D F) (events : List (Event D F))
      → IsAccounted s.daemon
      → IsAccounted (happen_all casts numbers rocks fb ldlt_solve s events).daemon
  unfolding happen_all
  happen_all-IsAccounted s [] a = a
  happen_all-IsAccounted s (e ∷ events) a =
      happen_all-IsAccounted (happen casts numbers rocks fb ldlt_solve s e) events
        (happen-IsAccounted s e a)

  begin-IsAccounted : (h : Host S D F) → IsAccounted (begin h).daemon
  unfolding begin boot start
  begin-IsAccounted h = record {
    sound = record { valid = omega arith; samples_in = omega arith; drops_in = omega arith };
    running = refl;
    count_in = omega arith;
    accounts = refl;
  }

  tick-count :
      (m : Daemon S D F) (x : Inputs D F)
      → (tick casts rocks fb ldlt_solve m x).tick_count ≡ add64 m.tick_count 1
  unfolding tick
  tick-count m x = refl

  happen_all-count :
      (s : Session S D F) (events : List (Event D F))
      → s.daemon.tick_count < 2 ^ 64
      → (happen_all casts numbers rocks fb ldlt_solve s events).daemon.tick_count
        ≡ (s.daemon.tick_count + rounds_run s.g_running events) % 2 ^ 64
  unfolding happen_all happen
  happen_all-count s [] small = omega arith
  happen_all-count s (round x ∷ events) small =
      let ticked : Session S D F = record s {
        daemon = tick casts rocks fb ldlt_solve s.daemon x;
      } in
      let step = tick-count s.daemon x in
      elim (Bool-cases s.g_running) [
        | inl on ↦
            let rest = happen_all-count ticked events (omega (arith, step)) in
            rw (happen, on) (omega (arith, step, rw on at rest))
        | inr off ↦ rw (happen, off) (rw off at (happen_all-count s events small))
      ]
  happen_all-count s (worker_turn ∷ events) small =
      happen_all-count (happen casts numbers rocks fb ldlt_solve s worker_turn) events small
  happen_all-count s (signal ∷ events) small =
      happen_all-count (happen casts numbers rocks fb ldlt_solve s signal) events small

  begin-count :
      (h : Host S D F)
      → (happen_all casts numbers rocks fb ldlt_solve (begin h) h.events).daemon.tick_count
        ≡ rounds_run true h.events % 2 ^ 64
  unfolding begin boot
  begin-count h = omega (arith, happen_all-count (begin h) h.events (omega arith))

  -- Whether the three system calls succeed.
  abbrev pub setup_ok : Host S D F → Bool
  setup_ok h = h.open_ok && (h.truncate_ok && h.map_ok)

  pub main_runs :
      (h : Host S D F)
      → setup_ok h ≡ true
      → let out = main casts numbers rocks fb ldlt_solve h in
        let s =
          shut_down casts numbers rocks fb ldlt_solve
            (happen_all casts numbers rocks fb ldlt_solve (begin h) h.events) in
        (out.code ≡ 0) × (out.session ≡ some s)
  unfolding main
  main_runs h ok = ground arith

  -- From the start of the daemon to its end, where the system calls succeed and whatever happens in
  -- between: `main` returns 0, having run as many rounds as there were before the first signal, and no
  -- frame of them is lost from sight: the worker is stopped with an empty queue, and the samples that it
  -- has recorded and the frames that were dropped add up to the rounds. All counts are modulo 2^64.
  pub main_accounts :
      (h : Host S D F)
      → setup_ok h ≡ true
      → let out = main casts numbers rocks fb ldlt_solve h in
        (s : Session S D F) × (out.code ≡ 0)
        × (out.session ≡ some s)
        × (s.daemon.tick_count ≡ rounds_run true h.events % 2 ^ 64)
        × (contents queue_capacity s.daemon.telemetry_worker.queue ≡ [])
        × (s.daemon.telemetry_worker.running ≡ false)
        × ((s.daemon.telemetry_worker.loop_samples + s.daemon.telemetry_worker.queue.drops) % 2 ^ 64
            ≡ s.daemon.tick_count)
  unfolding shut_down
  main_accounts h ok =
      let (code, session) = main_runs h ok in
      let s = happen_all casts numbers rocks fb ldlt_solve (begin h) h.events in
      let a = happen_all-IsAccounted (begin h) h.events (begin-IsAccounted h) in
      let (empty, stopped, sum) = stop-accounts numbers fb a.sound a.running in
      (
        shut_down casts numbers rocks fb ldlt_solve s,
        code,
        session,
        begin-count h,
        empty,
        stopped,
        sum ∙ a.accounts,
      )
