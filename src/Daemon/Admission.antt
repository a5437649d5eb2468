-- ===== src/Daemon/Admission.antt =====
-- Which command reaches the kernel.
use neuro_kinetic.Base.{◌≡◌, Bool, true, false, not, ◌&&◌, ◌||◌, ◌==◌, if◌then◌else◌, arith}
use neuro_kinetic.Double.{Double}
use neuro_kinetic.Double.Laws.{IsOrdered, clamp_within}
use neuro_kinetic.Daemon.Command.{
  CommandRead, is_estop, is_stable, zero_torque, ingest, safe_margin, admitted,
}

module _ {D F : Type 0} ⦃d : Double D⦄ ⦃f : Double F⦄ (of_float : F → D) where
  -- a read that began and ended at one even sequence number above 0
  abbrev pub is_consistent : CommandRead F → Bool
  is_consistent c = is_stable c.cmd_seq1 && c.cmd_seq1 == c.cmd_seq2

  -- The kernel is given the commanded torques exactly if the sequence number is even, not 0 and the
  -- same after the read as before, the watchdog is not tripped and the emergency stop is not set; in
  -- every other case it is given zero torques.
  pub admitted_lem :
      (tripped : Bool) (c : CommandRead F)
      → admitted of_float tripped c ≡ (
          if is_consistent c && not (tripped || is_estop c.command_flags)
          then (λ i. of_float (c.nominal_torques i))
          else zero_torque of_float)
  unfolding admitted ingest
  admitted_lem tripped c = ground arith

  -- The margin to obstacles does not lie outside the range from 0.02 to 0.30, whatever was read.
  pub safe_margin_within :
      IsOrdered D
      → (m : F)
      → (d.lt (safe_margin of_float m) (d.decimal 2 2) ≡ false)
        × (d.lt (d.decimal 30 2) (safe_margin of_float m) ≡ false)
  safe_margin_within order m =
      clamp_within order (of_float m) _ _ (order.le_decimal 30 2 2 (omega arith))

  -- A torn read drops the torques but not the rest: where the sequence number is even and not 0 before
  -- the read and another one behind it, the torques are zero, and the flags and the margin are taken as
  -- they were read.
  torn_read_keeps_margin :
      (c : CommandRead F)
      → is_stable c.cmd_seq1 ≡ true
      → (c.cmd_seq1 == c.cmd_seq2) ≡ false
      → ((ingest of_float c).nominal_torque ≡ zero_torque of_float)
        × ((ingest of_float c).flags ≡ c.command_flags)
        × ((ingest of_float c).dynamic_margin ≡ c.obstacle_safety_margin)
  unfolding ingest
  torn_read_keeps_margin c even changed = ground arith
