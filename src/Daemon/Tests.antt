-- ===== src/Daemon/Tests.antt =====
-- The rounds of Daemon/Sample: commands, heartbeats and counters.
mod Nan
mod Torques
use neuro_kinetic.Base.{
  ℕ, List, ◌/◌, ◌-◌, ◌+◌, ◌%◌, ◌^◌, ◌*◌, ◌<◌, ◌≤◌, ◌≡◌, refl, true, false, ◌&&◌, some, [], ◌∷◌,
  arith, if◌then◌else◌, ltb, not, ◌||◌,
}
use neuro_kinetic.Double.Micro.{micro_double, Micro-IsOrdered}
use neuro_kinetic.Recorder.Store.{memory_db}
use neuro_kinetic.Daemon.{Daemon}
use neuro_kinetic.Daemon.Heartbeat.{armed_at, watch, tripped_iff_silent, silence_trips}
use neuro_kinetic.Daemon.Command.{zero_torque, admitted, is_estop}
use neuro_kinetic.Daemon.Admission.{is_consistent, admitted_lem}
use neuro_kinetic.Daemon.Tick.{run, tick_nominal}
use neuro_kinetic.Daemon.Start.{boot}
use neuro_kinetic.Daemon.Counters.{run_counts}
use neuro_kinetic.Daemon.Rounds.{lost_heartbeat_stops, boot-IsGuarded, IsGuarded}
use neuro_kinetic.Daemon.Sample.{same, micro_bits, divide, blank, started, command, round}
open micro_double use {decimal, div}

admitted_lem_example : admitted same.of_float false (command 1) ≡ (
    if is_consistent same.of_float (command 1) && not (false || is_estop 1)
    then (λ i. (command 1).nominal_torques i)
    else zero_torque same.of_float)
admitted_lem_example = admitted_lem same.of_float false (command 1)

abbrev beats : List (ℕ × ℕ)
beats = (0, 1) ∷ (3_000_000, 2) ∷ (5_000_000, 2) ∷ (154_000_000, 2) ∷ []

tripped_iff_silent_example :
    (watch (armed_at 0) beats).watchdog_tripped
    ≡ (ltb 150 ((154_000_000 - 3_000_000) / 1_000_000) && ltb 0 2)
tripped_iff_silent_example =
    tripped_iff_silent 0 beats (omega arith, (omega arith, (omega arith, (omega arith, tt))))

silence_trips_example :
    (5 + 151_000_000 ≤ 151_000_005
      → (watch (armed_at 0) ((5, 1) ∷ (151_000_005, 1) ∷ [])).watchdog_tripped ≡ true)
    × (151_000_005 < 5 + 151_000_000
        → (watch (armed_at 0) ((5, 1) ∷ (151_000_005, 1) ∷ [])).watchdog_tripped ≡ false)
silence_trips_example =
    silence_trips (armed_at 0) 5 1 ((151_000_005, 1) ∷ []) (omega arith) (omega arith)
      (omega arith, tt) (refl, tt)

run_counts_example :
    let done = run same memory_db micro_bits divide started (round 1 1 (command 1) ∷ []) in
    (done.tick_count ≡ 1 % 2 ^ 64)
    × (done.heartbeat_cpp ≡ 1 % 2 ^ 64)
    × (done.telemetry.seq ≡ (2 * 1) % 2 ^ 64)
    × (done.telemetry.seq % 2 ≡ 0)
run_counts_example =
    run_counts same memory_db micro_bits divide (some blank) 1_000_000 (round 1 1 (command 1) ∷ [])

lost_heartbeat_stops_example :
    tick_nominal same memory_db micro_bits divide
      (run same memory_db micro_bits divide started
        (round 1 1 (command 1) ∷ round 100 1 (command 1) ∷ []))
      (round 152 1 (command 1))
    ≡ zero_torque same.of_float
unfolding boot
lost_heartbeat_stops_example =
    lost_heartbeat_stops same memory_db micro_bits divide started (round 1 1 (command 1))
      (round 100 1 (command 1) ∷ []) (round 152 1 (command 1)) (omega arith) (omega arith)
      (omega arith, (omega arith, tt)) (refl, (refl, tt)) (omega arith)

boot-IsGuarded_example :
    IsGuarded same memory_db micro_bits divide
      (run same memory_db micro_bits divide started (round 1 1 (command 1) ∷ []))
boot-IsGuarded_example =
    boot-IsGuarded same memory_db micro_bits divide Micro-IsOrdered (some blank) 1_000_000
      (round 1 1 (command 1) ∷ [])
