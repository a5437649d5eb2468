-- ===== src/Ipc/Client.antt =====
-- runtime/shm_client.py: the Python client of the shared segment, on its bytes. Its constants and its
-- formats are written here as they stand there.
pub mod Compat
pub mod Dispatch
pub mod Published
pub mod Refused
pub mod Sample
pub mod Torn
mod Tests
use neuro_kinetic.Base.{
  ℕ, zero, suc, ◌+◌, ◌*◌, ◌%◌, ◌^◌, ltb, ◌||◌, true, Bool, not, ◌==◌, if◌then◌else◌, List, [], ◌∷◌,
  ◌++◌, take, drop, replicate, entries, ◌&&◌, false, Option, some, none,
}
use neuro_kinetic.Base.Text.{Bytes}
use neuro_kinetic.Vector.{dof}
use neuro_kinetic.Recorder.Bytes.{FloatBits, to_bytes, of_bytes, span_bytes}
use neuro_kinetic.Ipc.Memory.{load, store}

abbrev pub heartbeat_py_offset : ℕ
heartbeat_py_offset = 16

abbrev pub telem_offset : ℕ
telem_offset = 64

abbrev pub cmd_offset : ℕ
cmd_offset = 256

abbrev pub shm_total_size : ℕ
shm_total_size = 384

-- `struct.calcsize("=QQ7f7f7ffIII16s")`
abbrev pub telem_size : ℕ
telem_size = 132

-- What `read_telemetry` returns; the key of an error code is there or is not.
pub record Telemetry (F : Type 0) : Type 0 where
  pub sequence : ℕ
  pub timestamp_ns : ℕ
  pub positions : List F
  pub velocities : List F
  pub torques : List F
  pub barrier_margin : F
  pub clamped : Bool
  pub error_code : Option ℕ
  pub watchdog_tripped : Bool

unfoldable pub send_heartbeat : Bytes → ℕ → Bytes
send_heartbeat buf counter = store buf heartbeat_py_offset (to_bytes 8 (counter + 1))

-- the next even number
abbrev pub next_seq : ℕ → ℕ
next_seq curr_seq = if curr_seq % 2 == 0 then curr_seq + 2 else curr_seq + 1

module _ {F : Type 0} (fb : FloatBits F) where
  open fb use {bits, of_bits}

  -- `n` values of the format `f`
  unfoldable pub unpack_floats : ℕ → Bytes → List F
  unpack_floats zero raw = []
  unpack_floats (suc n) raw = of_bits (of_bytes (take 4 raw)) ∷ unpack_floats n (drop 4 raw)

  -- `struct.unpack(TELEM_FORMAT, raw)`, and the values that `read_telemetry` takes of it
  unfoldable pub unpack : Bytes → Telemetry F
  unfolding unpack_floats
  unpack raw = record {
    sequence = of_bytes (load raw 0 8);
    timestamp_ns = of_bytes (load raw 8 8);
    positions = unpack_floats dof (load raw 16 28);
    velocities = unpack_floats dof (load raw 44 28);
    torques = unpack_floats dof (load raw 72 28);
    barrier_margin = of_bits (of_bytes (load raw 100 4));
    clamped = not (of_bytes (load raw 104 4) == 0);
    error_code = some (of_bytes (load raw 108 4));
    watchdog_tripped = not (of_bytes (load raw 112 4) == 0);
  }

  -- the copy of the slot that a round of the loop takes
  abbrev pub copy_of : Bytes → Telemetry F
  copy_of buf = unpack (load buf telem_offset telem_size)

  -- neither `seq1 % 2 != 0` nor `seq1 == 0`
  abbrev pub is_taken : Telemetry F → Bool
  is_taken t = t.sequence % 2 == 0 && not (t.sequence == 0)

  -- what is returned when no round took its copy; `nought` is 0.0
  abbrev pub no_telemetry : F → Telemetry F
  no_telemetry nought = record {
    sequence = 0;
    timestamp_ns = 0;
    positions = replicate dof nought;
    velocities = replicate dof nought;
    torques = replicate dof nought;
    barrier_margin = nought;
    clamped = false;
    error_code = none;
    watchdog_tripped = false;
  }

  -- The loop of `read_telemetry` for `n` rounds, where round `k` finds the segment `found k`.
  unfoldable pub rounds : F → ℕ → (ℕ → Bytes) → Telemetry F
  rounds nought zero found = no_telemetry nought
  rounds nought (suc n) found =
      let later = rounds nought n (λ k. found (suc k)) in
      if is_taken (copy_of (found 0)) then copy_of (found 0) else later

  -- `read_telemetry`: the segment behind the heartbeat, and what is returned. `others` says what the
  -- daemon has made of that segment by each round.
  unfoldable pub read_telemetry : F → Bytes → ℕ → (Bytes → ℕ → Bytes) → Bytes × Telemetry F
  unfolding send_heartbeat rounds unpack
  read_telemetry nought buf counter others =
      let beaten = send_heartbeat buf counter in (beaten, rounds nought 10 (others beaten))

  abbrev pub floats : (ℕ → F) → Bytes
  floats v = span_bytes fb (entries v 0 dof)

  -- the bytes that `struct.pack(CMD_FORMAT, …)` gives, of numbers that are rounded already
  unfoldable pub command_bytes : F → ℕ → (ℕ → F) → F → F → Bytes
  command_bytes nought final_seq torques safety_margin gamma =
      to_bytes 8 final_seq
      ++ (floats torques
          ++ (floats (λ i. nought)
              ++ (to_bytes 4 (bits safety_margin)
                  ++ (to_bytes 4 (bits gamma) ++ (to_bytes 4 1 ++ replicate 16 0)))))

-- `struct.pack` with the format `f`: a Python float, which is a double, is rounded to a float, and raises
-- `OverflowError` if it is too large for one.
pub record PythonFloats (P F : Type 0) : Type 0 where
  pub to_float : P → F
  pub overflows : P → Bool

module _ {P F : Type 0} (python : PythonFloats P F) (fb : FloatBits F) where
  open python use {to_float, overflows}

  -- one of the first `n` numbers is too large
  abbrev pub overflows_below : ℕ → (ℕ → P) → Bool
  overflows_below zero torques = false
  overflows_below (suc n) torques = overflows_below n torques || overflows (torques n)

  abbrev pub overflows_any : (ℕ → P) → P → P → Bool
  overflows_any torques safety_margin gamma =
      overflows_below dof torques || (overflows safety_margin || overflows gamma)

  -- `struct.pack(CMD_FORMAT, …)`, which raises if the sequence number does not fit `Q` either; `nought`
  -- is 0.0
  unfoldable pub pack_command : P → ℕ → (ℕ → P) → P → P → Option Bytes
  pack_command nought final_seq torques safety_margin gamma =
      if not (ltb final_seq (2 ^ 64)) || overflows_any torques safety_margin gamma
      then none
      else some (
          command_bytes fb (to_float nought) final_seq (λ i. to_float (torques i))
            (to_float safety_margin) (to_float gamma))

  -- `dispatch_vla_torque`: the segment, and whether the command was stored; else `struct.pack` has
  -- raised, behind the heartbeat.
  unfoldable pub dispatch_vla_torque : P → Bytes → ℕ → (ℕ → P) → P → P → Bytes × Bool
  unfolding pack_command send_heartbeat
  dispatch_vla_torque nought buf counter torques safety_margin gamma =
      let beaten = send_heartbeat buf counter in
      let curr_seq = of_bytes (load beaten cmd_offset 8) in
      elim (pack_command nought (next_seq curr_seq) torques safety_margin gamma) [
        | none ↦ (beaten, false)
        | some payload ↦ (store beaten cmd_offset payload, true)
      ]

  -- The segment when `dispatch_vla_torque` has stored the first `n` bytes of its copy, from the lowest
  -- address on.
  unfoldable pub dispatching : P → Bytes → ℕ → (ℕ → P) → P → P → ℕ → Bytes
  unfolding pack_command send_heartbeat
  dispatching nought buf counter torques safety_margin gamma n =
      let beaten = send_heartbeat buf counter in
      let curr_seq = of_bytes (load beaten cmd_offset 8) in
      elim (pack_command nought (next_seq curr_seq) torques safety_margin gamma) [
        | none ↦ beaten
        | some payload ↦ store beaten cmd_offset (take n payload)
      ]
