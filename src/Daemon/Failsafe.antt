-- ===== src/Daemon/Failsafe.antt =====
-- What a tick does when it must not follow the command.
use neuro_kinetic.Base.{ℕ, ◌<◌, ◌≡◌, refl, Bool, true, false, ◌||◌, arith, →all_below}
use neuro_kinetic.Double.{Double, nought}
use neuro_kinetic.Double.Laws.{IsOrdered, IsArithmetic}
use neuro_kinetic.Vector.{dof, all_finite}
use neuro_kinetic.Kernel.{SafetyOutput, value, LdltSolve, update_limits}
use neuro_kinetic.Kernel.Rows.Spec.{IsJointMet, IsObstacleMet}
use neuro_kinetic.Kernel.Filter.Outcome.{is_sane, filter_torques-insane, safe_command_unchanged}
use neuro_kinetic.Recorder.Bytes.{FloatBits}
use neuro_kinetic.Recorder.Store.{RocksDb}
use neuro_kinetic.Daemon.{Casts, Daemon, Inputs}
use neuro_kinetic.Daemon.Command.{ingest, is_estop, admitted, zero_torque}
use neuro_kinetic.Daemon.Tick.{
  integrate, tick_watchdog, tick_limits, tick_nominal, tick_result, tick, publish,
  record_intervention,
}

module _ {S D F : Type 0} ⦃d : Double D⦄ ⦃f : Double F⦄ (casts : Casts D F) (rocks : RocksDb S)
    (fb : FloatBits F) (ldlt_solve : LdltSolve D) (m : Daemon S D F) (x : Inputs D F) where
  -- The kernel fails safe: if the joint state, or the torques that the tick admits, are not finite,
  -- then the tick applies zero torques, reports an error and an intervention, and integrates the state
  -- under zero torques.
  pub kernel_error_applies_zero :
      is_sane m.state (tick_nominal casts rocks fb ldlt_solve m x) ≡ false
      → let done = tick casts rocks fb ldlt_solve m x in
        (done.telemetry.applied_torques ≡ (λ i. casts.to_float nought))
        × (done.telemetry.error_code ≡ 1)
        × (done.telemetry.cbf_intervention ≡ 1)
        × (done.state ≡ integrate casts m.state (λ i. nought))
  unfolding tick publish
  kernel_error_applies_zero insane =
      rw
        ((filter_torques-insane ldlt_solve
            (update_limits m.kernel (tick_limits casts rocks fb ldlt_solve m x)) m.state
            (tick_nominal casts rocks fb ldlt_solve m x) m.obstacles x.solve_time_us)
          insane)
        (refl, refl, refl, refl)

  -- the watchdog is tripped, or the flags that were read carry the emergency stop
  abbrev pub is_stopped : Bool
  is_stopped =
      (tick_watchdog casts rocks fb ldlt_solve m x).watchdog_tripped
      || is_estop (ingest casts.of_float x.command).flags

  stopped-zero :
      is_stopped ≡ true → tick_nominal casts rocks fb ldlt_solve m x ≡ zero_torque casts.of_float
  unfolding admitted
  stopped-zero h = rw h

  -- the tick does what the kernel's answer says, if that is zero torques without an intervention
  quiet-tick :
      (out : SafetyOutput D)
      → tick_result casts rocks fb ldlt_solve m x ≡ value out
      → out.safe_torque ≡ (λ j. nought)
      → out.intervention_triggered ≡ false
      → let done = tick casts rocks fb ldlt_solve m x in
        (done.telemetry.applied_torques ≡ (λ i. casts.to_float nought))
        × (done.telemetry.error_code ≡ 0)
        × (done.telemetry.cbf_intervention ≡ 0)
        × (done.recorder ≡ m.recorder)
  unfolding tick publish record_intervention
  quiet-tick out is_out same quiet =
      (rw (is_out, same) refl, rw is_out refl, rw (is_out, quiet) refl, rw (is_out, quiet) refl)

  module _ (order : IsOrdered D) (laws : IsArithmetic D) where
    -- The fail-safe stops the arm where the barriers allow it: if the watchdog trips in the tick or the
    -- emergency stop is read, the joint state is finite, and zero torques keep to what the joint limits
    -- and the first obstacle allow (but for 1e-4), then the tick applies zero torques, reports neither
    -- an error nor an intervention, and records nothing.
    pub failsafe_applies_zero :
        is_stopped ≡ true
        → all_finite m.state.q ≡ true
        → all_finite m.state.q_dot ≡ true
        → ((i : ℕ)
            → i < dof
            → IsJointMet (tick_limits casts rocks fb ldlt_solve m x) m.state (λ j. nought) i)
        → IsObstacleMet
            (tick_limits casts rocks fb ldlt_solve m x)
            m.state
            (λ j. nought)
            m.obstacles
        → let done = tick casts rocks fb ldlt_solve m x in
          (done.telemetry.applied_torques ≡ (λ i. casts.to_float nought))
          × (done.telemetry.error_code ≡ 0)
          × (done.telemetry.cbf_intervention ≡ 0)
          × (done.recorder ≡ m.recorder)
    unfolding update_limits
    failsafe_applies_zero stop q_finite v_finite joints obstacle =
        let kernel = update_limits m.kernel (tick_limits casts rocks fb ldlt_solve m x) in
        let zero_finite : all_finite {D = D} ⦃d = d⦄ (λ j. nought) ≡ true =
          →all_below dof (λ i. d.is_finite nought) (λ i lt. laws.zero_finite) in
        let (out, is_out, same, quiet) =
          safe_command_unchanged order laws ldlt_solve kernel m.state (λ j. nought) m.obstacles
            x.solve_time_us (ground arith) joints obstacle in
        quiet-tick out (rw (stopped-zero stop) is_out) same quiet
