-- ===== src/Daemon/Tests/Torques.antt =====
-- The rounds of Daemon/Sample: the torques that are applied, and the barrier.
use neuro_kinetic.Base.{ℕ, ◌<◌, ◌≡◌, refl, false, some, [], ◌∷◌, arith, zero, suc}
use neuro_kinetic.Double.{nought}
use neuro_kinetic.Double.Micro.{Micro, micro_double, Micro-IsOrdered, Micro-IsArithmetic}
use neuro_kinetic.Vector.{dof, dot, norm}
use neuro_kinetic.Kernel.Limits.{
  compute_obstacle_barrier, max_allowed_torque, min_allowed_torque, smallest_margin,
}
use neuro_kinetic.Kernel.Rows.Spec.{IsJointMet}
use neuro_kinetic.Recorder.Store.{memory_db}
use neuro_kinetic.Daemon.{Inputs}
use neuro_kinetic.Daemon.Heartbeat.{check_heartbeat}
use neuro_kinetic.Daemon.Command.{ingest}
use neuro_kinetic.Daemon.Tick.{tick, run, tick_limits}
use neuro_kinetic.Daemon.Start.{boot}
use neuro_kinetic.Daemon.Failsafe.{failsafe_applies_zero}
use neuro_kinetic.Double.Nan.{nan_double}
use neuro_kinetic.Base.{◌⊎◌}
use neuro_kinetic.Kernel.Rows.{max_torque, min_torque, obstacle_row}
use neuro_kinetic.Daemon.Start.{start_state, start_obstacles}
use neuro_kinetic.Daemon.Frozen.{limits_of, barrier_frozen}
use neuro_kinetic.Daemon.Torques.{tick_torque, IsBounded, run_torques_held}
use neuro_kinetic.Daemon.Sample.{same, micro_bits, divide, blank, started, command, round}
use neuro_kinetic.Daemon.Tick.{tick_nominal}
open micro_double use {decimal, div}

-- what failsafe_applies_zero asks at the start: zero torques are allowed there
resting :
    (x : Inputs Micro Micro) (i : ℕ)
    → i < dof
    → IsJointMet
        (tick_limits same memory_db micro_bits divide started x)
        started.state
        (λ j. nought)
        i
unfolding boot max_allowed_torque min_allowed_torque
resting x zero h = (refl, refl)
resting x (suc zero) h = (refl, refl)
resting x (suc (suc zero)) h = (refl, refl)
resting x (suc (suc (suc zero))) h = (refl, refl)
resting x (suc (suc (suc (suc zero)))) h = (refl, refl)
resting x (suc (suc (suc (suc (suc zero))))) h = (refl, refl)
resting x (suc (suc (suc (suc (suc (suc zero)))))) h = (refl, refl)
resting x (suc (suc (suc (suc (suc (suc (suc i))))))) h = absurd (omega arith)

failsafe_applies_zero_example :
    let done = tick same memory_db micro_bits divide started (round 1 1 (command 2)) in
    (done.telemetry.applied_torques ≡ (λ i. nought))
    × (done.telemetry.error_code ≡ 0)
    × (done.telemetry.cbf_intervention ≡ 0)
    × (done.recorder ≡ started.recorder)
unfolding boot compute_obstacle_barrier norm dot ingest check_heartbeat
failsafe_applies_zero_example =
    failsafe_applies_zero same memory_db micro_bits divide started (round 1 1 (command 2))
      Micro-IsOrdered Micro-IsArithmetic refl refl refl (resting (round 1 1 (command 2))) refl

-- the third round, in which the command of 30 Nm is read
run_torques_held_example :
    let m =
      run same memory_db micro_bits divide
        (boot (some blank) 0)
        (round 2 7 (command 0) ∷ round 4 8 (command 0) ∷ []) in
    let x = round 6 9 (command 0) in
    let torque = tick_torque same memory_db micro_bits divide m x 5 in
    let limits = tick_limits same memory_db micro_bits divide m x in
    ((tick same memory_db micro_bits divide m x).telemetry.applied_torques 5 ≡ torque)
    × (IsBounded same memory_db micro_bits divide torque
        ⊎ ((torque ≡ tick_nominal same memory_db micro_bits divide m x 5)
            × IsBounded same memory_db micro_bits divide (max_torque limits m.state 5)
            × IsBounded same memory_db micro_bits divide (min_torque limits m.state 5)
            × (micro_double.lt (decimal 1 4) (micro_double.sub torque (max_torque limits m.state 5))
                ≡ false)
            × (micro_double.lt (decimal 1 4) (micro_double.sub (min_torque limits m.state 5) torque)
                ≡ false)))
run_torques_held_example =
    run_torques_held same memory_db micro_bits divide Micro-IsOrdered Micro-IsArithmetic
      (some blank) 0 (round 2 7 (command 0) ∷ round 4 8 (command 0) ∷ []) (round 6 9 (command 0)) 5
      (omega arith)

barrier_frozen_example :
    let m =
      run same memory_db micro_bits divide (boot (some blank) 0) (round 2 7 (command 0) ∷ []) in
    let x = round 4 8 (command 0) in
    let limits = tick_limits same memory_db micro_bits divide m x in
    (m.state.end_effector_pos ≡ start_state.end_effector_pos)
    × (obstacle_row limits m.state m.obstacles
        ≡ obstacle_row (limits_of same memory_db micro_bits divide x) start_state start_obstacles)
    × (smallest_margin limits m.state.end_effector_pos (decimal 1000 1) m.obstacles
        ≡ smallest_margin
            (limits_of same memory_db micro_bits divide x)
            start_state.end_effector_pos
            (decimal 1000 1)
            start_obstacles)
barrier_frozen_example =
    barrier_frozen same memory_db micro_bits divide (some blank) 0 (round 2 7 (command 0) ∷ [])
      (round 4 8 (command 0))
