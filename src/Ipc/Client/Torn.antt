-- ===== src/Ipc/Client/Torn.antt =====
-- A command that the daemon loads while the client is still storing it.
use neuro_kinetic.Base.{
  ℕ, ◌+◌, ◌*◌, ◌<◌, ◌≤◌, ◌^◌, ◌≡◌, false, if◌then◌else◌, ltb, length, take, length-take, arith, inl,
  inr, Bool-cases, ltb→lt, ap, sym, subst, ◌∙◌,
}
use neuro_kinetic.Base.Text.{Bytes}
use neuro_kinetic.Double.{Double, nought}
use neuro_kinetic.Vector.{dof}
use neuro_kinetic.Recorder.Bytes.{
  FloatBits, IsBitCast, to_bytes, of_bytes, span_bytes, of_bytes-to_bytes, length-to_bytes,
}
use neuro_kinetic.Ipc.Memory.{load, store, load-store, load-above, load-take}
use neuro_kinetic.Ipc.Layout.{read_command, segment_size}
use neuro_kinetic.Ipc.Client.{
  PythonFloats, overflows_any, dispatching, next_seq, command_bytes, send_heartbeat, cmd_offset,
  heartbeat_py_offset,
}
use neuro_kinetic.Ipc.Client.Dispatch.{
  dispatching-rounded, beaten, curr_seq, payload, length-payload, length-beaten, payload_torque,
  next_seq-stable, whole_command,
}
use neuro_kinetic.Daemon.Command.{is_estop, admitted}

module _ {F : Type 0} (fb : FloatBits F) (laws : IsBitCast F fb) (zero_float : F) (buf : Bytes)
    (counter : ℕ) (torques : ℕ → F) (safety_margin gamma : F) where
  open fb use {of_bits}

  abbrev whole : Bytes
  whole = payload fb laws zero_float buf counter torques safety_margin gamma

  abbrev part : ℕ → Bytes
  part n = store (beaten buf counter) cmd_offset (take n whole)

  length-part_stored : (n : ℕ) → n ≤ 92 → length (take n whole) ≡ n
  length-part_stored n h = omega (
    arith,
    length-take n whole,
    length-payload fb laws zero_float buf counter torques safety_margin gamma,
  )

  -- a load of what is stored already
  stored :
      (n o k : ℕ)
      → length buf ≡ segment_size
      → n ≤ 92
      → o + k ≤ n
      → load (part n) (cmd_offset + o) k ≡ load whole o k
  stored n o k size h within =
      load-store (beaten buf counter) cmd_offset (take n whole) o k
        (omega (
          arith,
          length-part_stored n h,
          length-beaten fb laws zero_float buf counter torques safety_margin gamma size,
        ))
        (omega (arith, length-part_stored n h))
      ∙ load-take whole n o k within

  -- a load of what is not stored yet
  not_stored :
      (n o k : ℕ) → n ≤ 92 → n ≤ o → load (part n) (cmd_offset + o) k ≡ load buf (cmd_offset + o) k
  unfolding send_heartbeat
  not_stored n o k h above =
      load-above (beaten buf counter) cmd_offset (take n whole) (cmd_offset + o) k
        (omega (arith, length-part_stored n h))
      ∙ load-above buf heartbeat_py_offset (to_bytes 8 (counter + 1)) (cmd_offset + o) k
          (omega (arith, length-to_bytes 8 (counter + 1)))

  part_torque :
      (k i : ℕ)
      → length buf ≡ segment_size
      → k ≤ dof
      → i < dof
      → (read_command fb (part (8 + 4 * k))).nominal_torques i
        ≡ (if ltb i k then torques i else (read_command fb buf).nominal_torques i)
  unfolding read_command
  part_torque k i size k_in i_in =
      let at : 256 + 8 + 4 * i ≡ cmd_offset + (8 + 4 * i) = omega arith in
      elim (Bool-cases (ltb i k)) [
        | inl before ↦
            let lt = ltb→lt i k before in
            rw (before, at)
              (ap (λ t. of_bits (of_bytes t))
                  (stored (8 + 4 * k) (8 + 4 * i) 4 size (omega arith) (omega arith))
                ∙ payload_torque fb laws zero_float buf counter torques safety_margin gamma i i_in)
        | inr behind ↦
            rw (behind, at)
              (ap (λ t. of_bits (of_bytes t))
                (not_stored (8 + 4 * k) (8 + 4 * i) 4 (omega arith) (ground arith)))
      ]

  part_seq :
      (k : ℕ)
      → length buf ≡ segment_size
      → curr_seq buf counter + 2 < 2 ^ 64
      → k ≤ dof
      → of_bytes (load (part (8 + 4 * k)) (cmd_offset + 0) 8) ≡ next_seq (curr_seq buf counter)
  unfolding command_bytes to_bytes span_bytes
  part_seq k size small k_in =
      ap of_bytes (stored (8 + 4 * k) 0 8 size (omega arith) (omega arith))
      ∙ of_bytes-to_bytes 8 (next_seq (curr_seq buf counter)) (ground arith)

  part_flags :
      (k : ℕ)
      → k ≤ dof
      → (read_command fb (part (8 + 4 * k))).command_flags ≡ (read_command fb buf).command_flags
  unfolding read_command
  part_flags k k_in = ap of_bytes (not_stored (8 + 4 * k) 72 4 (omega arith) (omega arith))

module _ {D P F : Type 0} ⦃d : Double D⦄ ⦃p : Double P⦄ ⦃f : Double F⦄ (of_float : F → D)
    (python : PythonFloats P F) (fb : FloatBits F) (laws : IsBitCast F fb) (buf : Bytes)
    (counter : ℕ) (torques : ℕ → P) (safety_margin gamma : P) where
  open python use {to_float}

  -- The client gives a command its new even sequence number with the first bytes of the copy: if the
  -- daemon loads the command when the number and the first k torques are stored, the watchdog is not
  -- tripped, the command before asked for no emergency stop, and no number of the new one is too large
  -- for a float, then it takes the read for consistent and gives the kernel k torques of the new
  -- command, rounded, with the other ones of the command before.
  pub torn_command_admitted :
      (k i : ℕ)
      → length buf ≡ segment_size
      → curr_seq buf counter + 2 < 2 ^ 64
      → overflows_any python fb torques safety_margin gamma ≡ false
      → is_estop (read_command fb buf).command_flags ≡ false
      → k ≤ dof
      → i < dof
      → let b = dispatching python fb nought buf counter torques safety_margin gamma (8 + 4 * k) in
        admitted of_float false (read_command fb b) i
        ≡ of_float
            (if ltb i k then to_float (torques i) else (read_command fb buf).nominal_torques i)
  unfolding read_command
  torn_command_admitted k i size small fits calm k_in i_in =
      let zero_float = to_float nought in
      let floats = λ (j : ℕ). to_float (torques j) in
      let margin = to_float safety_margin in
      let last = to_float gamma in
      let b = part fb laws zero_float buf counter floats margin last (8 + 4 * k) in
      let seq = part_seq fb laws zero_float buf counter floats margin last k size small k_in in
      let flags = part_flags fb laws zero_float buf counter floats margin last k k_in in
      subst
        (λ v.
          admitted of_float false (read_command fb v) i
          ≡ of_float
              (if ltb i k then to_float (torques i) else (read_command fb buf).nominal_torques i))
        (sym (
          dispatching-rounded python fb laws nought buf counter torques safety_margin gamma
            (8 + 4 * k) small fits))
        ((whole_command of_float false (read_command fb b) (next_seq (curr_seq buf counter)) i
            (next_seq-stable (curr_seq buf counter)) seq seq (ap is_estop flags ∙ calm)).0
          ∙ ap of_float
              (part_torque fb laws zero_float buf counter floats margin last k i size k_in i_in))
