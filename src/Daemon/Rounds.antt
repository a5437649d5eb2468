-- ===== src/Daemon/Rounds.antt =====
-- The watchdog and the limits over many rounds of the loop.
use neuro_kinetic.Base.{
  ℕ, ◌+◌, ◌<◌, ◌≤◌, ◌≡◌, ◌≢◌, refl, true, false, Option, List, [], ◌∷◌, ◌++◌, map, arith, sym,
}
use neuro_kinetic.Double.{Double}
use neuro_kinetic.Double.Laws.{IsOrdered}
use neuro_kinetic.Kernel.{LdltSolve, update_limits}
use neuro_kinetic.Recorder.Bytes.{FloatBits}
use neuro_kinetic.Recorder.Store.{RocksDb}
use neuro_kinetic.Daemon.{Casts, Daemon, Inputs}
use neuro_kinetic.Daemon.Heartbeat.{
  Watchdog, check_heartbeat, watch, IsMonotone, IsSilent, last_time, silence_trips,
}
use neuro_kinetic.Daemon.Command.{zero_torque, admitted, ingest}
use neuro_kinetic.Daemon.Admission.{safe_margin_within}
use neuro_kinetic.Daemon.Tick.{tick, run, tick_nominal, tick_watchdog}
use neuro_kinetic.Daemon.Start.{boot, start_limits, start_obstacles}

watch-append :
    (w : Watchdog) (xs : List (ℕ × ℕ)) (s : ℕ × ℕ)
    → watch w (xs ++ (s ∷ [])) ≡ check_heartbeat (watch w xs) s.0 s.1
unfolding watch
watch-append w [] s = refl
watch-append w ((now, current) ∷ xs) s = watch-append (check_heartbeat w now current) xs s

module _ {S D F : Type 0} ⦃d : Double D⦄ ⦃f : Double F⦄ (casts : Casts D F) (rocks : RocksDb S)
    (fb : FloatBits F) (ldlt_solve : LdltSolve D) where
  -- the time of a round and the heartbeat that it reads
  abbrev pub sample : Inputs D F → ℕ × ℕ
  sample x = (x.tick_start_ns, x.heartbeat_python)

  run-watch :
      (m : Daemon S D F) (xs : List (Inputs D F))
      → (run casts rocks fb ldlt_solve m xs).watchdog ≡ watch m.watchdog (map sample xs)
  unfolding run tick watch
  run-watch m [] = refl
  run-watch m (x ∷ xs) = run-watch (tick casts rocks fb ldlt_solve m x) xs

  tripped-zero :
      (m : Daemon S D F) (x : Inputs D F)
      → (tick_watchdog casts rocks fb ldlt_solve m x).watchdog_tripped ≡ true
      → tick_nominal casts rocks fb ldlt_solve m x ≡ zero_torque casts.of_float
  unfolding admitted
  tripped-zero m x h = rw h refl

  -- The dead-man's switch: if a round reads a new heartbeat above 0, and all later rounds, up to one
  -- that starts 151 ms or more after it, read that same heartbeat, at times that do not go back, then
  -- this last round gives the kernel zero torques, whatever the command in shared memory is.
  pub lost_heartbeat_stops :
      (m : Daemon S D F) (first : Inputs D F) (between : List (Inputs D F)) (last : Inputs D F)
      → first.heartbeat_python ≢ m.watchdog.last_python_heartbeat
      → 0 < first.heartbeat_python
      → IsMonotone first.tick_start_ns (map sample between ++ (sample last ∷ []))
      → IsSilent first.heartbeat_python (map sample between ++ (sample last ∷ []))
      → first.tick_start_ns + 151_000_000
        ≤ last_time first.tick_start_ns (map sample between ++ (sample last ∷ []))
      → tick_nominal casts rocks fb ldlt_solve
          (run casts rocks fb ldlt_solve m (first ∷ between))
          last
        ≡ zero_torque casts.of_float
  lost_heartbeat_stops m first between last new above m' s long =
      let samples = map sample between ++ (sample last ∷ []) in
      let tripped =
        (silence_trips m.watchdog first.tick_start_ns first.heartbeat_python samples new above m'
            s).0
          long in
      tripped-zero (run casts rocks fb ldlt_solve m (first ∷ between)) last (
        rw
          (
            run-watch m (first ∷ between),
            sym (watch-append m.watchdog (map sample (first ∷ between)) (sample last)),
          )
          tripped)

  -- What no round changes: the kernel has the limits of the loop, its margin is neither below 0.02 nor above 0.30, and the
  -- other limits and the obstacles are those of the start.
  pub record IsGuarded (m : Daemon S D F) : Type 0 where
    pub in_step : m.kernel.limits ≡ m.limits
    pub margin_low : d.lt m.limits.min_obstacle_distance (d.decimal 2 2) ≡ false
    pub margin_high : d.lt (d.decimal 30 2) m.limits.min_obstacle_distance ≡ false
    pub others :
        m.limits ≡ record start_limits { min_obstacle_distance = m.limits.min_obstacle_distance }
    pub same_obstacles : m.obstacles ≡ start_obstacles

  tick-IsGuarded :
      IsOrdered D
      → (m : Daemon S D F) (x : Inputs D F) → IsGuarded m
      → IsGuarded (tick casts rocks fb ldlt_solve m x)
  unfolding tick update_limits
  tick-IsGuarded order m x g =
      let (low, high) =
        safe_margin_within casts.of_float order (ingest casts.of_float x.command).dynamic_margin in
      record {
        in_step = refl;
        margin_low = low;
        margin_high = high;
        others = rw g.others refl;
        same_obstacles = g.same_obstacles;
      }

  run-IsGuarded :
      IsOrdered D
      → (m : Daemon S D F) (xs : List (Inputs D F)) → IsGuarded m
      → IsGuarded (run casts rocks fb ldlt_solve m xs)
  unfolding run
  run-IsGuarded order m [] g = g
  run-IsGuarded order m (x ∷ xs) g =
      run-IsGuarded order (tick casts rocks fb ldlt_solve m x) xs (tick-IsGuarded order m x g)

  -- Whatever the rounds read from shared memory, after them the kernel filters with the limits of the
  -- start but for the margin to obstacles, which is neither below 0.02 nor above 0.30. A margin of NaN,
  -- which the clamp lets through, is neither.
  pub boot-IsGuarded :
      IsOrdered D
      → (opened : Option S) (start_ns : ℕ) (xs : List (Inputs D F))
      → IsGuarded (run casts rocks fb ldlt_solve (boot opened start_ns) xs)
  unfolding boot
  boot-IsGuarded order opened start_ns xs = run-IsGuarded order (boot opened start_ns) xs (record {
    in_step = refl;
    margin_low = order.le_decimal 8 2 2 (omega arith);
    margin_high = order.le_decimal 30 8 2 (omega arith);
    others = refl;
    same_obstacles = refl;
  })
