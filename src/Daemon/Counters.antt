-- ===== src/Daemon/Counters.antt =====
-- What holds after any number of rounds of the loop.
use neuro_kinetic.Base.{ℕ, ◌*◌, ◌%◌, ◌^◌, ◌<◌, ◌≡◌, refl, Option, List, [], ◌∷◌, length, arith}
use neuro_kinetic.Base.Word.{add64}
use neuro_kinetic.Double.{Double}
use neuro_kinetic.Kernel.{LdltSolve}
use neuro_kinetic.Recorder.Bytes.{FloatBits}
use neuro_kinetic.Recorder.Store.{RocksDb}
use neuro_kinetic.Daemon.{Casts, Daemon, Inputs}
use neuro_kinetic.Daemon.Tick.{tick, publish, run}
use neuro_kinetic.Daemon.Start.{boot}

module _ {S D F : Type 0} ⦃d : Double D⦄ ⦃f : Double F⦄ (casts : Casts D F) (rocks : RocksDb S)
    (fb : FloatBits F) (ldlt_solve : LdltSolve D) where
  -- the three counters lie in their words
  abbrev IsCounting : Daemon S D F → Type 0
  IsCounting m = (m.tick_count < 2 ^ 64) × (m.heartbeat_cpp < 2 ^ 64) × (m.telemetry.seq < 2 ^ 64)

  tick_counts :
      (m : Daemon S D F) (x : Inputs D F)
      → let done = tick casts rocks fb ldlt_solve m x in
        (done.tick_count ≡ add64 m.tick_count 1)
        × (done.heartbeat_cpp ≡ add64 m.heartbeat_cpp 1)
        × (done.telemetry.seq ≡ add64 m.telemetry.seq 2)
  unfolding tick publish
  tick_counts m x = (refl, refl, refl)

  run_counts_from :
      (m : Daemon S D F) (xs : List (Inputs D F))
      → IsCounting m
      → let done = run casts rocks fb ldlt_solve m xs in
        (done.tick_count ≡ add64 m.tick_count (length xs))
        × (done.heartbeat_cpp ≡ add64 m.heartbeat_cpp (length xs))
        × (done.telemetry.seq ≡ add64 m.telemetry.seq (2 * length xs))
  unfolding run
  run_counts_from m [] (t, h, s) = (omega arith, omega arith, omega arith)
  run_counts_from m (x ∷ xs) (t, h, s) =
      let (t', h', s') = tick_counts m x in
      let (t'', h'', s'') =
        run_counts_from (tick casts rocks fb ldlt_solve m x) xs
          (omega arith, omega arith, omega arith) in
      (omega arith, omega arith, omega arith)

  -- From its start on, the loop counts its rounds: after `n` rounds the tick counter and the heartbeat
  -- in shared memory are `n`, and the sequence number of the telemetry is twice `n`, all of them modulo
  -- 2^64; so that sequence number is even, as a reader of the telemetry expects it between two writes.
  pub run_counts :
      (opened : Option S) (start_ns : ℕ) (xs : List (Inputs D F))
      → let done = run casts rocks fb ldlt_solve (boot opened start_ns) xs in
        (done.tick_count ≡ length xs % 2 ^ 64)
        × (done.heartbeat_cpp ≡ length xs % 2 ^ 64)
        × (done.telemetry.seq ≡ (2 * length xs) % 2 ^ 64)
        × (done.telemetry.seq % 2 ≡ 0)
  unfolding boot
  run_counts opened start_ns xs =
      let (t, h, s) =
        run_counts_from (boot opened start_ns) xs (omega arith, omega arith, omega arith) in
      (omega arith, omega arith, omega arith, omega arith)
