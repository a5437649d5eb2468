-- ===== src/Daemon/Frozen.antt =====
-- What the barrier of the obstacle sees of the arm.
use neuro_kinetic.Base.{ℕ, ◌≡◌, refl, Option, List, [], ◌∷◌, ap, ◌∙◌}
use neuro_kinetic.Double.{Double}
use neuro_kinetic.Vector.{Vector}
use neuro_kinetic.Kernel.{KinematicLimits, Row, LdltSolve}
use neuro_kinetic.Kernel.Limits.{smallest_margin}
use neuro_kinetic.Kernel.Rows.{obstacle_row}
use neuro_kinetic.Recorder.Bytes.{FloatBits}
use neuro_kinetic.Recorder.Store.{RocksDb}
use neuro_kinetic.Daemon.{Casts, Daemon, Inputs}
use neuro_kinetic.Daemon.Command.{ingest, safe_margin}
use neuro_kinetic.Daemon.Tick.{tick, run, integrate, tick_limits}
use neuro_kinetic.Daemon.Start.{boot, start_limits, start_state, start_obstacles}

module _ {S D F : Type 0} ⦃d : Double D⦄ ⦃f : Double F⦄ (casts : Casts D F) (rocks : RocksDb S)
    (fb : FloatBits F) (ldlt_solve : LdltSolve D) where
  -- the start limits with the margin that a round reads
  abbrev pub limits_of : Inputs D F → KinematicLimits D
  limits_of x = record start_limits {
    min_obstacle_distance =
        safe_margin casts.of_float (ingest casts.of_float x.command).dynamic_margin;
  }

  -- the end effector, the obstacles and all limits but the margin are those of the start
  pub record IsPlaced (m : Daemon S D F) : Type 0 where
    pub same_place : m.state.end_effector_pos ≡ start_state.end_effector_pos
    pub same_obstacles : m.obstacles ≡ start_obstacles
    pub same_limits : (x : Inputs D F) → tick_limits casts rocks fb ldlt_solve m x ≡ limits_of x

  tick-IsPlaced :
      (m : Daemon S D F) (x : Inputs D F)
      → IsPlaced m
      → IsPlaced (tick casts rocks fb ldlt_solve m x)
  unfolding tick integrate
  tick-IsPlaced m x p = record {
    same_place = p.same_place;
    same_obstacles = p.same_obstacles;
    same_limits = p.same_limits;
  }

  run-IsPlaced :
      (m : Daemon S D F) (xs : List (Inputs D F))
      → IsPlaced m
      → IsPlaced (run casts rocks fb ldlt_solve m xs)
  unfolding run
  run-IsPlaced m [] p = p
  run-IsPlaced m (x ∷ xs) p =
      run-IsPlaced (tick casts rocks fb ldlt_solve m x) xs (tick-IsPlaced m x p)

  pub boot-IsPlaced :
      (opened : Option S) (start_ns : ℕ) (xs : List (Inputs D F))
      → IsPlaced (run casts rocks fb ldlt_solve (boot opened start_ns) xs)
  unfolding boot
  boot-IsPlaced opened start_ns xs =
      run-IsPlaced (boot opened start_ns) xs
        (record { same_place = refl; same_obstacles = refl; same_limits = λ x. refl })

  abbrev row_at : KinematicLimits D → Vector D → Row D
  row_at limits pos =
      obstacle_row limits (record start_state { end_effector_pos = pos }) start_obstacles

  -- The barrier does not see the arm move: the loop integrates the joints and never the position of the
  -- end effector, so after any rounds that is still the one of the start, and the constraint of the
  -- obstacle and the margin that the kernel reports depend on the command of the round alone, on its
  -- safety margin, and not on where the joints have come.
  pub barrier_frozen :
      (opened : Option S) (start_ns : ℕ) (xs : List (Inputs D F)) (x : Inputs D F)
      → let m = run casts rocks fb ldlt_solve (boot opened start_ns) xs in
        let limits = tick_limits casts rocks fb ldlt_solve m x in
        (m.state.end_effector_pos ≡ start_state.end_effector_pos)
        × (obstacle_row limits m.state m.obstacles
            ≡ obstacle_row (limits_of x) start_state start_obstacles)
        × (smallest_margin limits m.state.end_effector_pos (d.decimal 1000 1) m.obstacles
            ≡ smallest_margin
                (limits_of x)
                start_state.end_effector_pos
                (d.decimal 1000 1)
                start_obstacles)
  unfolding obstacle_row
  barrier_frozen opened start_ns xs x =
      let p = boot-IsPlaced opened start_ns xs in
      (
        p.same_place,
        (λ i.
              obstacle_row (p.same_limits x i)
                (run casts rocks fb ldlt_solve (boot opened start_ns) xs).state
                (p.same_obstacles i))
            ∙ ap (λ pos. row_at (limits_of x) pos) p.same_place,
        λ i.
            smallest_margin (p.same_limits x i) (p.same_place i) (d.decimal 1000 1)
              (p.same_obstacles i),
      )
