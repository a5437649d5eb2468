-- ===== src/Daemon/Margin.antt =====
-- A margin to obstacles that is not a number.
use neuro_kinetic.Base.{◌≡◌, refl, true, List, [], ◌∷◌, ap, ◌∙◌}
use neuro_kinetic.Vector.{norm, difference}
use neuro_kinetic.Double.{Double}
use neuro_kinetic.Double.Nan.{IsNan}
use neuro_kinetic.Kernel.{LdltSolve, Obstacle}
use neuro_kinetic.Kernel.Limits.{compute_obstacle_barrier, smallest_margin}
use neuro_kinetic.Kernel.Rows.{obstacle_bound}
use neuro_kinetic.Recorder.Bytes.{FloatBits}
use neuro_kinetic.Recorder.Store.{RocksDb}
use neuro_kinetic.Daemon.{Casts, Daemon, Inputs}
use neuro_kinetic.Daemon.Command.{ingest, is_stable}
use neuro_kinetic.Daemon.Tick.{tick_limits}

module _ {S D F : Type 0} ⦃d : Double D⦄ ⦃f : Double F⦄ (casts : Casts D F) (rocks : RocksDb S)
    (fb : FloatBits F) (ldlt_solve : LdltSolve D) (nan : D) (is_nan : IsNan D nan) where
  nan_margin :
      (m : Daemon S D F) (x : Inputs D F)
      → is_stable x.command.cmd_seq1 ≡ true
      → casts.of_float x.command.obstacle_safety_margin ≡ nan
      → (tick_limits casts rocks fb ldlt_solve m x).min_obstacle_distance ≡ nan
  unfolding ingest
  nan_margin m x stable e =
      rw (stable, e, is_nan.nan-lt (d.decimal 2 2), is_nan.lt-nan (d.decimal 30 2)) refl

  nan_barrier :
      (m : Daemon S D F) (x : Inputs D F) (obs : Obstacle D)
      → (tick_limits casts rocks fb ldlt_solve m x).min_obstacle_distance ≡ nan
      → compute_obstacle_barrier
          (tick_limits casts rocks fb ldlt_solve m x)
          m.state.end_effector_pos
          obs
        ≡ nan
  unfolding compute_obstacle_barrier
  nan_barrier m x obs e =
      let reach = norm 3 (difference m.state.end_effector_pos obs.position) in
      ap (λ b. d.sub reach (d.add obs.radius b)) e
      ∙ ap (d.sub reach) (is_nan.add-nan obs.radius)
      ∙ is_nan.sub-nan reach

  nan_smallest :
      (m : Daemon S D F) (x : Inputs D F) (least : D) (obstacles : List (Obstacle D))
      → (tick_limits casts rocks fb ldlt_solve m x).min_obstacle_distance ≡ nan
      → smallest_margin
          (tick_limits casts rocks fb ldlt_solve m x)
          m.state.end_effector_pos
          least
          obstacles
        ≡ least
  unfolding smallest_margin
  nan_smallest m x least [] e = refl
  nan_smallest m x least (obs ∷ obstacles) e =
      rw (nan_barrier m x obs e, is_nan.nan-lt least) (nan_smallest m x least obstacles e)

  -- The clamp does not catch NaN: if a tick reads a NaN margin at a sequence number that is even and
  -- not 0, then no obstacle restrains joint 5 below its torque ceiling, however near it is, and the
  -- margin that the kernel computes is the one without obstacles, 100.
  pub nan_margin_disarms_barrier :
      (m : Daemon S D F) (x : Inputs D F) (obs : Obstacle D)
      → is_stable x.command.cmd_seq1 ≡ true
      → casts.of_float x.command.obstacle_safety_margin ≡ nan
      → let limits = tick_limits casts rocks fb ldlt_solve m x in
        (obstacle_bound limits m.state obs ≡ d.neg (m.limits.torque_max 5))
        × (smallest_margin limits m.state.end_effector_pos (d.decimal 1000 1) m.obstacles
            ≡ d.decimal 1000 1)
  nan_margin_disarms_barrier m x obs stable e =
      let margin = nan_margin m x stable e in
      (
        rw (nan_barrier m x obs margin, is_nan.nan-lt (d.decimal 5 2)) refl,
        nan_smallest m x (d.decimal 1000 1) m.obstacles margin,
      )
