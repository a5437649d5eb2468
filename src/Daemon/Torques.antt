-- ===== src/Daemon/Torques.antt =====
-- How large the torques of a round can be, after any rounds.
use neuro_kinetic.Base.{
  ℕ, ◌<◌, ◌≡◌, refl, false, Option, List, ◌⊎◌, inl, inr, Bool-cases, arith, ap, sym, subst, ◌∙◌,
}
use neuro_kinetic.Double.{Double, nought}
use neuro_kinetic.Double.Laws.{IsOrdered, IsArithmetic}
use neuro_kinetic.Vector.{Vector, dof}
use neuro_kinetic.Kernel.{LdltSolve, update_limits, KinematicLimits, ControlBarrierKernel}
use neuro_kinetic.Kernel.Limits.Bounds.{allowed-IsWithin}
use neuro_kinetic.Kernel.Rows.{max_torque, min_torque}
use neuro_kinetic.Kernel.Filter.Outcome.{is_sane, filter_torques-sane, filter_torques-insane}
use neuro_kinetic.Kernel.Filter.Held.{IsUnderCeiling, IsAllowed, solution-IsHeld}
use neuro_kinetic.Recorder.Bytes.{FloatBits}
use neuro_kinetic.Recorder.Store.{RocksDb}
use neuro_kinetic.Daemon.{Casts, Daemon, Inputs}
use neuro_kinetic.Daemon.Tick.{
  tick, run, publish, tick_limits, tick_nominal, tick_result, value_or_stop,
}
use neuro_kinetic.Daemon.Start.{boot}
use neuro_kinetic.Daemon.Frozen.{boot-IsPlaced}

module _ {S D F : Type 0} ⦃d : Double D⦄ ⦃f : Double F⦄ (casts : Casts D F) (rocks : RocksDb S)
    (fb : FloatBits F) (ldlt_solve : LdltSolve D) where
  -- the torques that a round applies
  abbrev pub tick_torque : Daemon S D F → Inputs D F → Vector D
  tick_torque m x = (value_or_stop casts (tick_result casts rocks fb ldlt_solve m x)).safe_torque

  -- the value does not lie outside the range from -87 to 87
  abbrev pub IsBounded : D → Type 0
  IsBounded t = (d.lt t (d.neg (d.decimal 870 1)) ≡ false) × (d.lt (d.decimal 870 1) t ≡ false)

  module _ (order : IsOrdered D) (laws : IsArithmetic D) (m : Daemon S D F) (x : Inputs D F) where
    abbrev limits : KinematicLimits D
    limits = tick_limits casts rocks fb ldlt_solve m x

    abbrev kernel : ControlBarrierKernel D
    kernel = update_limits m.kernel limits

    abbrev nominal : Vector D
    nominal = tick_nominal casts rocks fb ldlt_solve m x

    -- under the ceiling, or the commanded one and past what the joint's limits allow by no more than 1e-4
    abbrev IsHeld : ℕ → Vector D → Type 0
    IsHeld i torque =
        IsUnderCeiling limits m.state torque i
        ⊎ ((torque i ≡ nominal i) × IsAllowed limits m.state torque i)

    zero-IsHeld : (i : ℕ) → limits.torque_max i ≡ d.decimal 870 1 → IsHeld i (λ _. nought)
    zero-IsHeld i ceiling = inl (
        rw ceiling (
          rw (← (order.decimal_scale 0 0 (omega arith))) (order.le_decimal 870 0 1 (omega arith)),
          order.neg_decimal 0 0 870 1,
        ))

    tick_torque-IsHeld :
        (i : ℕ) → i < dof → limits.torque_max i ≡ d.decimal 870 1 → IsHeld i (tick_torque m x)
    unfolding update_limits
    tick_torque-IsHeld i lt ceiling = elim (Bool-cases (is_sane m.state nominal)) [
      | inl sane ↦
          let range : d.lt (limits.torque_max i) (d.neg (limits.torque_max i)) ≡ false =
            rw ceiling (order.neg_decimal 870 1 870 1) in
          subst (λ r. IsHeld i (value_or_stop casts r).safe_torque)
            (sym (
              filter_torques-sane ldlt_solve kernel m.state nominal m.obstacles x.solve_time_us
                sane))
            (solution-IsHeld order laws ldlt_solve kernel m.state nominal m.obstacles
              x.solve_time_us i lt range sane)
      | inr insane ↦
          subst (λ r. IsHeld i (value_or_stop casts r).safe_torque)
            (sym (
              (filter_torques-insane ldlt_solve kernel m.state nominal m.obstacles x.solve_time_us)
                insane))
            (zero-IsHeld i ceiling)
    ]

  -- The torques of a whole run are bounded: whatever the rounds read, after any number of them the next
  -- round applies to each joint a torque that is neither above 87 nor below -87, or else the torque that
  -- the round was commanded (0 under a fail-safe), which then goes past the two torques that the joint's
  -- limits allow by no more than 1e-4; those two are neither above 87 nor below -87. The torque is what
  -- the round publishes. NaN, which the linear solver may give, is neither above nor below a bound.
  pub run_torques_held :
      IsOrdered D
      → IsArithmetic D
      → (opened : Option S) (start_ns : ℕ) (xs : List (Inputs D F)) (x : Inputs D F) (i : ℕ)
      → i < dof
      → let m = run casts rocks fb ldlt_solve (boot opened start_ns) xs in
        let torque = tick_torque m x i in
        let limits = tick_limits casts rocks fb ldlt_solve m x in
        ((tick casts rocks fb ldlt_solve m x).telemetry.applied_torques i ≡ casts.to_float torque)
        × (IsBounded torque
            ⊎ ((torque ≡ tick_nominal casts rocks fb ldlt_solve m x i)
                × IsBounded (max_torque limits m.state i)
                × IsBounded (min_torque limits m.state i)
                × (d.lt (d.decimal 1 4) (d.sub torque (max_torque limits m.state i)) ≡ false)
                × (d.lt (d.decimal 1 4) (d.sub (min_torque limits m.state i) torque) ≡ false)))
  unfolding tick publish
  run_torques_held order laws opened start_ns xs x i lt =
      let m = run casts rocks fb ldlt_solve (boot opened start_ns) xs in
      let limits = tick_limits casts rocks fb ldlt_solve m x in
      let torque = tick_torque m x i in
      let p = boot-IsPlaced casts rocks fb ldlt_solve opened start_ns xs in
      let ceiling : limits.torque_max i ≡ d.decimal 870 1 =
        ap (λ l. l.torque_max i) (p.same_limits x) in
      (
        refl,
        elim (tick_torque-IsHeld order laws m x i lt ceiling) [
          | inl (high, low) ↦ inl (
            ap (λ c. d.lt torque (d.neg c)) (sym ceiling) ∙ low,
            ap (λ c. d.lt c torque) (sym ceiling) ∙ high,
          )
          | inr (commanded, (upper, lower)) ↦ inr (
            commanded,
            (allowed-IsWithin order limits i (d.sub (limits.q_max i) (m.state.q i)) ceiling).0,
            (allowed-IsWithin order limits i (d.sub (m.state.q i) (limits.q_min i)) ceiling).1,
            upper,
            lower,
          )
        ],
      )
