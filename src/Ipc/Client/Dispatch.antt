-- ===== src/Ipc/Client/Dispatch.antt =====
-- What a command of the client is to the daemon.
use neuro_kinetic.Base.{
  none, some, take, ltb, ℕ, zero, suc, ◌+◌, ◌*◌, ◌<◌, ◌≤◌, ◌^◌, ◌≡◌, refl, Bool, true, false,
  if◌then◌else◌, length, arith, ap, ◌∙◌,
}
use neuro_kinetic.Base.Text.{Bytes}
use neuro_kinetic.Double.{Double, nought}
use neuro_kinetic.Vector.{dof}
use neuro_kinetic.Recorder.Bytes.{
  FloatBits, IsBitCast, to_bytes, of_bytes, span_bytes, of_bytes-to_bytes, length-to_bytes,
  float_back,
}
use neuro_kinetic.Ipc.Memory.{load, store, load-store, load-below, length-store}
use neuro_kinetic.Ipc.Layout.{read_command, read_heartbeat, segment_size}
use neuro_kinetic.Ipc.Client.{
  PythonFloats, overflows_any, command_bytes, pack_command, send_heartbeat, dispatch_vla_torque,
  dispatching, next_seq, cmd_offset, heartbeat_py_offset,
}
use neuro_kinetic.Daemon.Command.{CommandRead, is_estop, ingest, is_stable, admitted}

module _ (buf : Bytes) (counter : ℕ) where
  -- the segment with the new heartbeat, and the sequence number that the client reads there
  abbrev pub beaten : Bytes
  beaten = send_heartbeat buf counter

  abbrev pub curr_seq : ℕ
  curr_seq = of_bytes (load beaten cmd_offset 8)

module _ {F : Type 0} (fb : FloatBits F) (laws : IsBitCast F fb) (zero_float : F) (buf : Bytes)
    (counter : ℕ) (torques : ℕ → F) (safety_margin gamma : F) where
  open fb use {of_bits}

  abbrev pub payload : Bytes
  payload =
      command_bytes fb zero_float (next_seq (curr_seq buf counter)) torques safety_margin gamma

  -- the segment with the command
  abbrev pub dispatched : Bytes
  dispatched = store (beaten buf counter) cmd_offset payload

  pub length-payload : length payload ≡ 92
  unfolding command_bytes to_bytes span_bytes
  length-payload = refl

  pub length-beaten : length buf ≡ segment_size → length (beaten buf counter) ≡ segment_size
  unfolding send_heartbeat
  length-beaten size =
      length-store buf heartbeat_py_offset (to_bytes 8 (counter + 1))
        (omega (arith, length-to_bytes 8 (counter + 1)))
      ∙ size

  -- a member of the command that the daemon loads
  member :
      length buf ≡ segment_size
      → (o n : ℕ) → o + n ≤ 92
      → load dispatched (cmd_offset + o) n ≡ load payload o n
  member size o n h =
      load-store (beaten buf counter) cmd_offset payload o n
        (omega (arith, length-payload, length-beaten size)) (omega (arith, length-payload))

  pub payload_torque :
      (i : ℕ) → i < dof → of_bits (of_bytes (load payload (8 + 4 * i) 4)) ≡ torques i
  unfolding command_bytes to_bytes span_bytes
  payload_torque zero h = float_back fb laws (torques 0)
  payload_torque (suc zero) h = float_back fb laws (torques 1)
  payload_torque (suc (suc zero)) h = float_back fb laws (torques 2)
  payload_torque (suc (suc (suc zero))) h = float_back fb laws (torques 3)
  payload_torque (suc (suc (suc (suc zero)))) h = float_back fb laws (torques 4)
  payload_torque (suc (suc (suc (suc (suc zero))))) h = float_back fb laws (torques 5)
  payload_torque (suc (suc (suc (suc (suc (suc zero)))))) h = float_back fb laws (torques 6)
  payload_torque (suc (suc (suc (suc (suc (suc (suc i))))))) h = absurd (omega arith)

  pub torque :
      length buf ≡ segment_size
      → (i : ℕ) → i < dof
      → (read_command fb dispatched).nominal_torques i ≡ torques i
  unfolding read_command
  torque size i h =
      let e : 256 + 8 + 4 * i ≡ cmd_offset + (8 + 4 * i) = omega arith in
      ap (λ a. of_bits (of_bytes (load dispatched a 4))) e
      ∙ ap (λ t. of_bits (of_bytes t)) (member size (8 + 4 * i) 4 (omega arith))
      ∙ payload_torque i h

  -- the daemon's loads after a command of the client
  pub daemon_reads_command :
      length buf ≡ segment_size
      → curr_seq buf counter + 2 < 2 ^ 64
      → let c = read_command fb dispatched in
        (c.cmd_seq1 ≡ next_seq (curr_seq buf counter))
        × (c.cmd_seq2 ≡ next_seq (curr_seq buf counter))
        × (c.command_flags ≡ 1)
        × (c.obstacle_safety_margin ≡ safety_margin)
  unfolding read_command command_bytes to_bytes span_bytes
  daemon_reads_command size small =
      let seq =
        ap of_bytes (member size 0 8 (omega arith))
        ∙ of_bytes-to_bytes 8 (next_seq (curr_seq buf counter)) (ground arith) in
      (
        seq,
        seq,
        ap of_bytes (member size 72 4 (omega arith)) ∙ of_bytes-to_bytes 4 1 (omega arith),
        ap (λ t. of_bits (of_bytes t)) (member size 64 4 (omega arith))
            ∙ float_back fb laws safety_margin,
      )

  pub daemon_reads_heartbeat :
      length buf ≡ segment_size → counter + 1 < 2 ^ 64 → read_heartbeat dispatched ≡ counter + 1
  unfolding read_heartbeat send_heartbeat to_bytes
  daemon_reads_heartbeat size small =
      ap of_bytes
        (load-below (beaten buf counter) cmd_offset payload heartbeat_py_offset 8 (omega arith))
      ∙ ap of_bytes (
          load-store buf heartbeat_py_offset (to_bytes 8 (counter + 1)) 0 8
            (omega (arith, length-to_bytes 8 (counter + 1)))
            (omega (arith, length-to_bytes 8 (counter + 1))))
      ∙ of_bytes-to_bytes 8 (counter + 1) small

-- the sequence number of a command is one that the daemon takes
pub next_seq-stable : (n : ℕ) → is_stable (next_seq n) ≡ true
next_seq-stable n = ground arith

module _ {D F : Type 0} ⦃d : Double D⦄ ⦃f : Double F⦄ (of_float : F → D) where
  -- a command without a torn read or an emergency stop
  pub whole_command :
      (tripped : Bool) (c : CommandRead F) (n i : ℕ)
      → is_stable n ≡ true
      → c.cmd_seq1 ≡ n
      → c.cmd_seq2 ≡ n
      → is_estop c.command_flags ≡ false
      → (admitted of_float tripped c i
          ≡ (if tripped then nought else of_float (c.nominal_torques i)))
        × ((ingest of_float c).dynamic_margin ≡ c.obstacle_safety_margin)
  unfolding ingest admitted
  whole_command tripped c n i stable seq1 seq2 flags = ground arith

module _ {P F : Type 0} (python : PythonFloats P F) (fb : FloatBits F) (laws : IsBitCast F fb)
    (zero_double : P) (buf : Bytes) (counter : ℕ) (torques : ℕ → P) (safety_margin gamma : P) where
  open python use {to_float}

  -- the command with its numbers rounded
  abbrev pub rounded : Bytes
  rounded =
      payload fb laws (to_float zero_double) buf counter (λ i. to_float (torques i))
        (to_float safety_margin) (to_float gamma)

  pub pack-rounded :
      curr_seq buf counter + 2 < 2 ^ 64
      → overflows_any python fb torques safety_margin gamma ≡ false
      → pack_command python fb zero_double
          (next_seq (curr_seq buf counter))
          torques
          safety_margin
          gamma
        ≡ some rounded
  unfolding pack_command
  pack-rounded small fits =
      let room : ltb (next_seq (curr_seq buf counter)) (2 ^ 64) ≡ true = ground arith in
      rw (room, fits)

  -- a command whose numbers are not too large is stored
  pub dispatch-rounded :
      curr_seq buf counter + 2 < 2 ^ 64
      → overflows_any python fb torques safety_margin gamma ≡ false
      → dispatch_vla_torque python fb zero_double buf counter torques safety_margin gamma
        ≡ (store (beaten buf counter) cmd_offset rounded, true)
  unfolding dispatch_vla_torque
  dispatch-rounded small fits =
      ap
        (λ o. elim o [
          | none ↦ (beaten buf counter, false)
          | some bytes ↦ (store (beaten buf counter) cmd_offset bytes, true)
        ])
        (pack-rounded small fits)

  pub dispatching-rounded :
      (n : ℕ)
      → curr_seq buf counter + 2 < 2 ^ 64
      → overflows_any python fb torques safety_margin gamma ≡ false
      → dispatching python fb zero_double buf counter torques safety_margin gamma n
        ≡ store (beaten buf counter) cmd_offset (take n rounded)
  unfolding dispatching
  dispatching-rounded n small fits =
      ap
        (λ o. elim o [
          | none ↦ beaten buf counter
          | some bytes ↦ store (beaten buf counter) cmd_offset (take n bytes)
        ])
        (pack-rounded small fits)

module _ {D P F : Type 0} ⦃d : Double D⦄ ⦃p : Double P⦄ ⦃f : Double F⦄ (of_float : F → D)
    (python : PythonFloats P F) (fb : FloatBits F) (laws : IsBitCast F fb) (buf : Bytes)
    (counter : ℕ) (torques : ℕ → P) (safety_margin gamma : P) where
  open python use {to_float}

  -- From the client to the kernel: whatever the segment's 384 bytes were before, if no other process
  -- stores between the client's copy and the daemon's loads, the two counters have room, and none of
  -- the numbers is too large for a float, then the command is stored, the daemon reads the client's
  -- heartbeat, admits the torques of all seven joints unless the watchdog is tripped, and takes the
  -- safety margin, all of them rounded to floats and not changed otherwise.
  pub dispatched_torques_admitted :
      (tripped : Bool) (i : ℕ)
      → length buf ≡ segment_size
      → curr_seq buf counter + 2 < 2 ^ 64
      → counter + 1 < 2 ^ 64
      → overflows_any python fb torques safety_margin gamma ≡ false
      → i < dof
      → let (after, stored) =
          dispatch_vla_torque python fb nought buf counter torques safety_margin gamma in
        let c = read_command fb after in
        (stored ≡ true)
        × (read_heartbeat after ≡ counter + 1)
        × (admitted of_float tripped c i
            ≡ (if tripped then nought else of_float (to_float (torques i))))
        × ((ingest of_float c).dynamic_margin ≡ to_float safety_margin)
  dispatched_torques_admitted tripped i size small beats fits h =
      let zero_float = to_float nought in
      let floats = λ (k : ℕ). to_float (torques k) in
      let margin = to_float safety_margin in
      let c =
        read_command fb
          (dispatched fb laws zero_float buf counter floats margin (to_float gamma)) in
      let (seq1, seq2, flags, taken_so) =
        daemon_reads_command fb laws zero_float buf counter floats margin (to_float gamma) size
          small in
      let whole = torque fb laws zero_float buf counter floats margin (to_float gamma) size i h in
      let (given, taken) =
        whole_command of_float tripped c (next_seq (curr_seq buf counter)) i
          (next_seq-stable (curr_seq buf counter)) seq1 seq2 (ap is_estop flags) in
      rw (dispatch-rounded python fb laws nought buf counter torques safety_margin gamma small fits)
        (
          refl,
          daemon_reads_heartbeat fb laws zero_float buf counter floats margin (to_float gamma) size
              beats,
          given ∙ ap (λ t. if tripped then nought else of_float t) whole,
          taken ∙ taken_so,
        )
