-- ===== src/Server/LastCommand.antt =====
-- What the segment holds while heartbeats and commands of the clients change it.
use neuro_kinetic.Base.{
  ℕ, suc, ◌+◌, ◌*◌, ◌<◌, ◌^◌, ◌≡◌, Bool, true, false, if◌then◌else◌, subst, Option, none, some,
  length, arith, sym, inl, inr, Bool-cases,
}
use neuro_kinetic.Base.Text.{Bytes}
use neuro_kinetic.Recorder.Bytes.{FloatBits, IsBitCast}
use neuro_kinetic.Ipc.Layout.{read_command, segment_size}
use neuro_kinetic.Ipc.Client.{PythonFloats, overflows_any, send_heartbeat, dispatch_vla_torque}
use neuro_kinetic.Daemon.Command.{CommandRead}
use neuro_kinetic.Ipc.Client.Refused.{read_command-heartbeat}
use neuro_kinetic.Server.Sent.{
  seq_of, seq-heartbeat, length-heartbeat, length-sent, seq-sent, sent-IsCommand, sent_rounded,
  dispatched_lem, IsCommand,
}

-- the torques and the margin of a command, if there was one
abbrev pub LastCommand : Type 0 → Type 0
LastCommand P = Option ((ℕ → P) × P)

module _ {P F : Type 0} (python : PythonFloats P F) where
  open python use {to_float}

  -- the daemon takes the last command, its numbers rounded
  unfoldable pub IsLast : LastCommand P → CommandRead F → Type 0
  IsLast none c = Unit
  IsLast (some (torques, margin)) c = IsCommand c (λ i. to_float (torques i)) (to_float margin)

module _ {P F : Type 0} (python : PythonFloats P F) (fb : FloatBits F) where
  -- the last command after a call of `dispatch_vla_torque`
  abbrev pub commanded : LastCommand P → (ℕ → P) → P → P → LastCommand P
  commanded last torques margin gamma =
      if overflows_any python fb torques margin gamma then last else some (torques, margin)

  -- the segment has its size, the last command, and room for the numbers of `n` further ones
  pub record Holds (n : ℕ) (b : Bytes) (last : LastCommand P) : Type 0 where
    pub size : length b ≡ segment_size
    pub seq_room : seq_of b + 2 * n < 2 ^ 64
    pub last_so : IsLast python last (read_command fb b)

  pub heartbeat-Holds :
      (n : ℕ) (b : Bytes) (counter : ℕ) (last : LastCommand P)
      → Holds n b last
      → Holds n (send_heartbeat b counter) last
  heartbeat-Holds n b counter last h = record {
    size = length-heartbeat b counter h.size;
    seq_room = omega (arith, h.seq_room, seq-heartbeat b counter);
    last_so = subst (IsLast python last) (sym (read_command-heartbeat fb b counter)) h.last_so;
  }

  pub heartbeat_if-Holds :
      (stored : Bool) (n : ℕ) (b : Bytes) (counter : ℕ) (last : LastCommand P)
      → Holds n b last
      → Holds n (if stored then send_heartbeat b counter else b) last
  heartbeat_if-Holds true n b counter last h = heartbeat-Holds n b counter last h
  heartbeat_if-Holds false n b counter last h = h

  pub fewer-Holds :
      (n : ℕ) (b : Bytes) (last : LastCommand P) → Holds (suc n) b last → Holds n b last
  fewer-Holds n b last h = record {
    size = h.size;
    seq_room = omega (arith, h.seq_room);
    last_so = h.last_so;
  }

  module _ (laws : IsBitCast F fb) (zero_double : P) (n : ℕ) (b : Bytes) (counter : ℕ)
      (last : LastCommand P) (torques : ℕ → P) (margin gamma : P) where
    open python use {to_float}

    sent-Holds :
        Holds (suc n) b last
        → Holds n
            (sent_rounded python fb laws zero_double b counter torques margin gamma)
            (some (torques, margin))
    unfolding IsLast
    sent-Holds h =
        let zero_float = to_float zero_double in
        let floats = λ (i : ℕ). to_float (torques i) in
        let m = to_float margin in
        let g = to_float gamma in
        let room : seq_of b + 2 < 2 ^ 64 = omega (arith, h.seq_room) in
        record {
          size = length-sent fb laws zero_float b counter floats m g h.size;
          seq_room =
              omega
                (arith, h.seq_room, seq-sent fb laws zero_float b counter floats m g h.size room);
          last_so = sent-IsCommand fb laws zero_float b counter floats m g h.size room;
        }

    pub dispatch-Holds :
        Holds (suc n) b last
        → Holds n
            (dispatch_vla_torque python fb zero_double b counter torques margin gamma).0
            (commanded last torques margin gamma)
    dispatch-Holds h =
        let room : seq_of b + 2 < 2 ^ 64 = omega (arith, h.seq_room) in
        elim (Bool-cases (overflows_any python fb torques margin gamma)) [
          | inl large ↦
              rw
                (
                  dispatched_lem python fb laws zero_double b counter torques margin gamma room,
                  large,
                )
                (heartbeat-Holds n b counter last (fewer-Holds n b last h))
          | inr fits ↦
              rw
                (
                  dispatched_lem python fb laws zero_double b counter torques margin gamma room,
                  fits,
                )
                (sent-Holds h)
        ]
