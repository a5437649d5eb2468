-- ===== src/Daemon/Command.antt =====
-- realtime_daemon.cpp: how a tick takes its command from shared memory.
use neuro_kinetic.Base.{ℕ, ◌/◌, ◌%◌, Bool, not, ◌&&◌, ◌||◌, ◌==◌, if◌then◌else◌}
use neuro_kinetic.Double.{Double, nought, clamp}
use neuro_kinetic.Vector.{Vector}

-- The loads of one tick in their order: the sequence number, the fields, the sequence number again.
pub record CommandRead (F : Type 0) : Type 0 where
  pub cmd_seq1 : ℕ
  pub nominal_torques : ℕ → F
  pub command_flags : ℕ
  pub obstacle_safety_margin : F
  pub cmd_seq2 : ℕ

-- `flags & 2`
abbrev pub is_estop : ℕ → Bool
is_estop flags = flags / 2 % 2 == 1

-- `(cmd_seq1 & 1) == 0 && cmd_seq1 != 0`
abbrev pub is_stable : ℕ → Bool
is_stable seq = seq % 2 == 0 && not (seq == 0)

-- the three variables that a tick sets from the command
pub record Ingested (D F : Type 0) : Type 0 where
  pub nominal_torque : Vector D
  pub flags : ℕ
  pub dynamic_margin : F

module _ {D F : Type 0} ⦃d : Double D⦄ ⦃f : Double F⦄ (of_float : F → D) where
  abbrev pub zero_torque : Vector D
  zero_torque i = nought

  unfoldable pub ingest : CommandRead F → Ingested D F
  ingest c =
      if is_stable c.cmd_seq1
      then record {
        nominal_torque =
            if c.cmd_seq1 == c.cmd_seq2 then (λ i. of_float (c.nominal_torques i)) else zero_torque;
        flags = c.command_flags;
        dynamic_margin = c.obstacle_safety_margin;
      }
      else record { nominal_torque = zero_torque; flags = 0; dynamic_margin = f.decimal 8 2 }

  -- `std::clamp(static_cast<double>(dynamic_margin), 0.02, 0.30)`
  abbrev pub safe_margin : F → D
  safe_margin m = clamp (of_float m) (d.decimal 2 2) (d.decimal 30 2)

  -- the torques that the kernel is given
  unfoldable pub admitted : Bool → CommandRead F → Vector D
  unfolding ingest
  admitted watchdog_tripped c =
      let got = ingest c in
      if watchdog_tripped || is_estop got.flags then zero_torque else got.nominal_torque
