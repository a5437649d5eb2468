-- ===== src/Server/Sent.antt =====
-- The segment after a heartbeat or a command of one of the clients, as the daemon reads it.
use neuro_kinetic.Base.{
  ℕ, ◌+◌, ◌<◌, ◌≤◌, ◌^◌, ◌≡◌, true, false, length, arith, ap, sym, ◌∙◌, if◌then◌else◌, inl, inr,
  Bool-cases,
}
use neuro_kinetic.Base.Text.{Bytes}
use neuro_kinetic.Vector.{dof}
use neuro_kinetic.Recorder.Bytes.{FloatBits, IsBitCast, to_bytes, of_bytes, length-to_bytes}
use neuro_kinetic.Ipc.Memory.{load, length-store}
use neuro_kinetic.Ipc.Layout.{read_command, segment_size}
use neuro_kinetic.Ipc.Client.{
  PythonFloats, overflows_any, send_heartbeat, dispatch_vla_torque, cmd_offset, heartbeat_py_offset,
}
use neuro_kinetic.Ipc.Client.Refused.{heartbeat-above, dispatch-raises}
use neuro_kinetic.Ipc.Client.Dispatch.{
  dispatched, dispatch-rounded, beaten, curr_seq, payload, length-payload, length-beaten,
  daemon_reads_command, torque, next_seq-stable,
}
use neuro_kinetic.Daemon.Command.{CommandRead, is_stable, is_estop}

-- the sequence number of the command
abbrev pub seq_of : Bytes → ℕ
seq_of b = of_bytes (load b cmd_offset 8)

pub seq-heartbeat : (b : Bytes) (counter : ℕ) → seq_of (send_heartbeat b counter) ≡ seq_of b
seq-heartbeat b counter = ap of_bytes (heartbeat-above b counter cmd_offset 8 (omega arith))

pub length-heartbeat :
    (b : Bytes) (counter : ℕ)
    → length b ≡ segment_size
    → length (send_heartbeat b counter) ≡ segment_size
unfolding send_heartbeat
length-heartbeat b counter size =
    length-store b heartbeat_py_offset (to_bytes 8 (counter + 1))
      (omega (arith, length-to_bytes 8 (counter + 1)))
    ∙ size

-- the daemon takes these torques and this margin
pub record IsCommand {F : Type 0} (c : CommandRead F) (torques : ℕ → F) (margin : F) : Type 0 where
  pub stable : is_stable c.cmd_seq1 ≡ true
  pub same_seq : c.cmd_seq2 ≡ c.cmd_seq1
  pub not_stopped : is_estop c.command_flags ≡ false
  pub same_torques : (i : ℕ) → i < dof → c.nominal_torques i ≡ torques i
  pub same_margin : c.obstacle_safety_margin ≡ margin

module _ {F : Type 0} (fb : FloatBits F) (laws : IsBitCast F fb) (zero_float : F) (b : Bytes)
    (counter : ℕ) (torques : ℕ → F) (margin gamma : F) where
  abbrev pub sent : Bytes
  sent = dispatched fb laws zero_float b counter torques margin gamma

  pub length-sent : length b ≡ segment_size → length sent ≡ segment_size
  length-sent size =
      let beaten_size = length-beaten fb laws zero_float b counter torques margin gamma size in
      length-store (beaten b counter) cmd_offset
        (payload fb laws zero_float b counter torques margin gamma)
        (omega
          (arith, length-payload fb laws zero_float b counter torques margin gamma, beaten_size))
      ∙ beaten_size

  module _ (size : length b ≡ segment_size) (room : seq_of b + 2 < 2 ^ 64) where
    small : curr_seq b counter + 2 < 2 ^ 64
    small = omega (arith, seq-heartbeat b counter)

    pub seq-sent : seq_of sent ≤ seq_of b + 2
    unfolding read_command
    seq-sent =
        let (seq1, _, _, _) =
          daemon_reads_command fb laws zero_float b counter torques margin gamma size small in
        grind (arith, seq1, seq-heartbeat b counter)

    pub sent-IsCommand : IsCommand (read_command fb sent) torques margin
    sent-IsCommand =
        let (seq1, seq2, flags, taken) =
          daemon_reads_command fb laws zero_float b counter torques margin gamma size small in
        record {
          stable = ap is_stable seq1 ∙ next_seq-stable (curr_seq b counter);
          same_seq = seq2 ∙ sym seq1;
          not_stopped = ap is_estop flags;
          same_torques = torque fb laws zero_float b counter torques margin gamma size;
          same_margin = taken;
        }

module _ {P F : Type 0} (python : PythonFloats P F) (fb : FloatBits F) (laws : IsBitCast F fb)
    (zero_double : P) (b : Bytes) (counter : ℕ) (torques : ℕ → P) (margin gamma : P) where
  open python use {to_float}

  -- the segment with the command, its numbers rounded
  abbrev pub sent_rounded : Bytes
  sent_rounded =
      sent fb laws (to_float zero_double) b counter (λ i. to_float (torques i)) (to_float margin)
        (to_float gamma)

  pub dispatched_lem :
      seq_of b + 2 < 2 ^ 64
      → dispatch_vla_torque python fb zero_double b counter torques margin gamma ≡ (
          if overflows_any python fb torques margin gamma
          then (send_heartbeat b counter, false)
          else (sent_rounded, true))
  dispatched_lem room = elim (Bool-cases (overflows_any python fb torques margin gamma)) [
    | inl large ↦
        rw (large) (dispatch-raises python fb zero_double b counter torques margin gamma large)
    | inr fits ↦ rw (fits) (
        dispatch-rounded python fb laws zero_double b counter torques margin gamma
          (omega (arith, seq-heartbeat b counter)) fits)
  ]
