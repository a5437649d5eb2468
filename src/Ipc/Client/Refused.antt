-- ===== src/Ipc/Client/Refused.antt =====
-- A command of the client that `struct.pack` refuses.
use neuro_kinetic.Base.{ℕ, ◌+◌, ◌*◌, ◌<◌, ◌≤◌, ◌^◌, ◌≡◌, refl, true, false, length, arith, ap, ◌∙◌}
use neuro_kinetic.Base.Text.{Bytes}
use neuro_kinetic.Recorder.Bytes.{FloatBits, to_bytes, of_bytes, of_bytes-to_bytes, length-to_bytes}
use neuro_kinetic.Ipc.Memory.{load, load-above, load-store}
use neuro_kinetic.Ipc.Layout.{read_command, read_heartbeat, segment_size}
use neuro_kinetic.Ipc.Client.{
  PythonFloats, overflows_any, send_heartbeat, pack_command, dispatch_vla_torque, cmd_offset,
  heartbeat_py_offset,
}

pub heartbeat-above :
    (b : Bytes) (counter o n : ℕ) → 24 ≤ o → load (send_heartbeat b counter) o n ≡ load b o n
unfolding send_heartbeat
heartbeat-above b counter o n h =
    load-above b heartbeat_py_offset (to_bytes 8 (counter + 1)) o n
      (omega (arith, length-to_bytes 8 (counter + 1)))

module _ {F : Type 0} (fb : FloatBits F) where
  -- a heartbeat leaves the command alone
  pub read_command-heartbeat :
      (b : Bytes) (counter : ℕ) → read_command fb (send_heartbeat b counter) ≡ read_command fb b
  unfolding read_command
  read_command-heartbeat b counter =
      let above = heartbeat-above b counter in
      λ k. record {
        cmd_seq1 = of_bytes (above cmd_offset 8 (omega arith) k);
        nominal_torques = λ i. fb.of_bits (of_bytes (above (264 + 4 * i) 4 (omega arith) k));
        command_flags = of_bytes (above 328 4 (omega arith) k);
        obstacle_safety_margin = fb.of_bits (of_bytes (above 320 4 (omega arith) k));
        cmd_seq2 = of_bytes (above cmd_offset 8 (omega arith) k);
      }

heartbeat_read :
    (b : Bytes) (counter : ℕ)
    → length b ≡ segment_size
    → counter + 1 < 2 ^ 64
    → read_heartbeat (send_heartbeat b counter) ≡ counter + 1
unfolding read_heartbeat send_heartbeat to_bytes
heartbeat_read b counter size small =
    ap of_bytes (
      load-store b heartbeat_py_offset (to_bytes 8 (counter + 1)) 0 8
        (omega (arith, length-to_bytes 8 (counter + 1)))
        (omega (arith, length-to_bytes 8 (counter + 1))))
    ∙ of_bytes-to_bytes 8 (counter + 1) small

module _ {P F : Type 0} (python : PythonFloats P F) (fb : FloatBits F) (zero_double : P) where
  pub dispatch-raises :
      (buf : Bytes) (counter : ℕ) (torques : ℕ → P) (safety_margin gamma : P)
      → overflows_any python fb torques safety_margin gamma ≡ true
      → dispatch_vla_torque python fb zero_double buf counter torques safety_margin gamma
        ≡ (send_heartbeat buf counter, false)
  unfolding dispatch_vla_torque pack_command
  dispatch-raises buf counter torques safety_margin gamma large = ground arith

  -- If a torque, the margin or gamma is too large for a float, the client stores no command but its
  -- heartbeat all the same: the daemon sees a client that is alive, and the torques, the flags, the
  -- margin and the sequence numbers of the command before. The segment has its 384 bytes and the
  -- heartbeat's counter has room.
  pub refused_command_kept :
      (buf : Bytes) (counter : ℕ) (torques : ℕ → P) (safety_margin gamma : P)
      → length buf ≡ segment_size
      → counter + 1 < 2 ^ 64
      → overflows_any python fb torques safety_margin gamma ≡ true
      → let (after, stored) =
          dispatch_vla_torque python fb zero_double buf counter torques safety_margin gamma in
        (stored ≡ false)
        × (read_heartbeat after ≡ counter + 1)
        × (read_command fb after ≡ read_command fb buf)
  refused_command_kept buf counter torques safety_margin gamma size beats large =
      rw (dispatch-raises buf counter torques safety_margin gamma large)
        (refl, heartbeat_read buf counter size beats, read_command-heartbeat fb buf counter)
