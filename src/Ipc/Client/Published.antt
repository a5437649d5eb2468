-- ===== src/Ipc/Client/Published.antt =====
-- What the client sees of a round of the daemon's loop.
use neuro_kinetic.Base.{
  ℕ, ◌+◌, ◌%◌, ◌^◌, ◌<◌, ◌≡◌, refl, Bool, true, false, not, ◌==◌, if◌then◌else◌, length, arith, ◌∙◌,
  some, entries,
}
use neuro_kinetic.Base.Text.{Bytes}
use neuro_kinetic.Base.Word.{add64}
use neuro_kinetic.Double.{Double}
use neuro_kinetic.Vector.{dof}
use neuro_kinetic.Kernel.{LdltSolve}
use neuro_kinetic.Recorder.Bytes.{FloatBits, IsBitCast}
use neuro_kinetic.Recorder.Store.{RocksDb}
use neuro_kinetic.Ipc.Layout.{write_slot, segment_size}
use neuro_kinetic.Ipc.Client.{Telemetry, copy_of, is_taken, send_heartbeat, read_telemetry}
use neuro_kinetic.Ipc.Client.Compat.{InRange, telemetry_of, client_reads_telemetry}
use neuro_kinetic.Daemon.{Casts, Daemon, Inputs}
use neuro_kinetic.Daemon.Command.{is_stable}
use neuro_kinetic.Daemon.Tick.{
  tick, publish, bit, has_value, value_or_stop, integrate, tick_result, tick_watchdog,
}

module _ {S D F : Type 0} ⦃d : Double D⦄ ⦃f : Double F⦄ (casts : Casts D F) (rocks : RocksDb S)
    (fb : FloatBits F) (ldlt_solve : LdltSolve D) where
  open casts use {to_float}

  -- what a round does, as the client is to see it
  abbrev pub report : Daemon S D F → Inputs D F → Telemetry F
  report m x =
      let result = tick_result casts rocks fb ldlt_solve m x in
      let safety = value_or_stop casts result in
      let state = integrate casts m.state safety.safe_torque in
      record {
        sequence = m.telemetry.seq + 2;
        timestamp_ns = x.current_ts;
        positions = entries (λ i. to_float (state.q i)) 0 dof;
        velocities = entries (λ i. to_float (state.q_dot i)) 0 dof;
        torques = entries (λ i. to_float (safety.safe_torque i)) 0 dof;
        barrier_margin = to_float safety.barrier_margin;
        clamped = safety.intervention_triggered;
        error_code = some (if has_value casts result then 0 else 1);
        watchdog_tripped = (tick_watchdog casts rocks fb ldlt_solve m x).watchdog_tripped;
      }

module _ {S D F : Type 0} ⦃d : Double D⦄ ⦃f : Double F⦄ (casts : Casts D F) (rocks : RocksDb S)
    (fb : FloatBits F) (laws : IsBitCast F fb) (ldlt_solve : LdltSolve D) where
  bit-lt : (b : Bool) → bit casts b < 2 ^ 32
  bit-lt b = ground arith

  bit-is_set : (b : Bool) → not (bit casts b == 0) ≡ b
  bit-is_set true = refl
  bit-is_set false = refl

  error-bit : (b : Bool) → bit casts (if b then false else true) ≡ (if b then 0 else 1)
  error-bit true = refl
  error-bit false = refl

  tick-InRange :
      (m : Daemon S D F) (x : Inputs D F)
      → x.current_ts < 2 ^ 64
      → InRange (tick casts rocks fb ldlt_solve m x).telemetry
  unfolding tick publish
  tick-InRange m x small = record {
    seq_in = omega arith;
    timestamp_in = small;
    intervention_in = bit-lt _;
    error_in = bit-lt _;
    tripped_in = bit-lt _;
  }

  tick-stable :
      (m : Daemon S D F) (x : Inputs D F)
      → m.telemetry.seq % 2 ≡ 0
      → m.telemetry.seq + 2 < 2 ^ 64
      → is_stable (tick casts rocks fb ldlt_solve m x).telemetry.seq ≡ true
  unfolding tick publish
  tick-stable m x even room = ground arith

  telemetry_of-tick :
      (m : Daemon S D F) (x : Inputs D F)
      → m.telemetry.seq + 2 < 2 ^ 64
      → telemetry_of (tick casts rocks fb ldlt_solve m x).telemetry
        ≡ report casts rocks fb ldlt_solve m x
  unfolding tick publish
  telemetry_of-tick m x room =
      let result = tick_result casts rocks fb ldlt_solve m x in
      let safety = value_or_stop casts result in
      let next : add64 m.telemetry.seq 2 ≡ m.telemetry.seq + 2 = omega arith in
      λ i. record (report casts rocks fb ldlt_solve m x) {
        sequence = next i;
        clamped = bit-is_set safety.intervention_triggered i;
        error_code = some (error-bit (has_value casts result) i);
        watchdog_tripped =
            bit-is_set (tick_watchdog casts rocks fb ldlt_solve m x).watchdog_tripped i;
      }

  -- From the kernel to the client: if the telemetry in shared memory has an even sequence number with
  -- room for one more, then after a round of the daemon's loop a client that first meets a number that
  -- it takes in one of its ten copies, and meets there what the round stored, returns the next even
  -- number, the round's time stamp, the integrated positions and velocities, the torques that the
  -- kernel answered, zero torques with an error code of 1 if it failed, and whether it intervened and
  -- the watchdog is tripped.
  pub client_reads_tick :
      (m : Daemon S D F) (x : Inputs D F) (zero_float : F) (buf before_daemon : Bytes)
      (counter k : ℕ) (others : Bytes → ℕ → Bytes)
      → m.telemetry.seq % 2 ≡ 0
      → m.telemetry.seq + 2 < 2 ^ 64
      → x.current_ts < 2 ^ 64
      → k < 10
      → ((j : ℕ) → j < k → is_taken fb (copy_of fb (others (send_heartbeat buf counter) j)) ≡ false)
      → others (send_heartbeat buf counter) k
        ≡ write_slot fb before_daemon (tick casts rocks fb ldlt_solve m x).telemetry
      → length before_daemon ≡ segment_size
      → (read_telemetry fb zero_float buf counter others).1 ≡ report casts rocks fb ldlt_solve m x
  client_reads_tick m x zero_float buf old counter k others even room small h before stored size =
      client_reads_telemetry fb laws zero_float buf old counter k others
        (tick casts rocks fb ldlt_solve m x).telemetry h before stored size (tick-InRange m x small)
        (tick-stable m x even room)
      ∙ telemetry_of-tick m x room
