-- ===== src/Ipc/Client/Compat.antt =====
-- The client and the daemon agree on the segment.
use neuro_kinetic.Base.{
  ℕ, ◌+◌, ◌<◌, ◌≤◌, ◌^◌, ◌≡◌, refl, not, ◌==◌, List, [], ◌∷◌, length, arith, ap, ◌∙◌, entries, zero,
  suc, true, false, some,
}
use neuro_kinetic.Daemon.Command.{is_stable}
use neuro_kinetic.Base.Text.{Bytes}
use neuro_kinetic.Vector.{dof}
use neuro_kinetic.Recorder.Bytes.{
  FloatBits, IsBitCast, to_bytes, of_bytes, span_bytes, of_bytes-to_bytes, float_back,
}
use neuro_kinetic.Ipc.{TelemetrySlot}
use neuro_kinetic.Ipc.Memory.{load, store_all-loads, load-load}
use neuro_kinetic.Ipc.Layout.{
  write_slot, slot_stores, segment_size, telemetry_at, command_at, heartbeat_python_at,
}
use neuro_kinetic.Ipc.Client.{
  unpack, unpack_floats, Telemetry, copy_of, is_taken, rounds, send_heartbeat, read_telemetry,
  telem_offset, telem_size, cmd_offset, shm_total_size, heartbeat_py_offset,
}

same_offsets :
    (◌≡◌ {A = ℕ} heartbeat_python_at heartbeat_py_offset)
    × (◌≡◌ {A = ℕ} telemetry_at telem_offset)
    × (◌≡◌ {A = ℕ} command_at cmd_offset)
    × (◌≡◌ {A = ℕ} segment_size shm_total_size)
same_offsets = (refl, refl, refl, refl)

-- the integers of a slot fit their types
pub record InRange {F : Type 0} (s : TelemetrySlot F) : Type 0 where
  pub seq_in : s.seq < 2 ^ 64
  pub timestamp_in : s.timestamp_ns < 2 ^ 64
  pub intervention_in : s.cbf_intervention < 2 ^ 32
  pub error_in : s.error_code < 2 ^ 32
  pub tripped_in : s.watchdog_tripped < 2 ^ 32

-- what the client makes of a slot
abbrev pub telemetry_of : {F : Type 0} → TelemetrySlot F → Telemetry F
telemetry_of s = record {
  sequence = s.seq;
  timestamp_ns = s.timestamp_ns;
  positions = entries s.joint_positions 0 dof;
  velocities = entries s.joint_velocities 0 dof;
  torques = entries s.applied_torques 0 dof;
  barrier_margin = s.barrier_margin;
  clamped = not (s.cbf_intervention == 0);
  error_code = some s.error_code;
  watchdog_tripped = not (s.watchdog_tripped == 0);
}

module _ {F : Type 0} (fb : FloatBits F) (laws : IsBitCast F fb) where
  unpack_floats-span : (xs : List F) → unpack_floats fb (length xs) (span_bytes fb xs) ≡ xs
  unfolding unpack_floats span_bytes to_bytes
  unpack_floats-span [] = refl
  unpack_floats-span (x ∷ xs) = λ i. float_back fb laws x i ∷ unpack_floats-span xs i

  -- a member of the copy that the client takes
  copied :
      (b : Bytes) (o n : ℕ) {bs : Bytes}
      → o + n ≤ telem_size
      → load b (telem_offset + o) n ≡ bs
      → load (load b telem_offset telem_size) o n ≡ bs
  copied b o n h e = load-load b telem_offset telem_size o n h ∙ e

  copy_of-write_slot :
      (buf : Bytes) (s : TelemetrySlot F)
      → length buf ≡ segment_size
      → InRange s
      → copy_of fb (write_slot fb buf s) ≡ telemetry_of s
  unfolding unpack write_slot to_bytes span_bytes
  copy_of-write_slot buf s size r =
      let b = write_slot fb buf s in
      let (seq, (stamp, (qs, (vs, (us, (margin, (cbf, (err, (dog, _))))))))) =
        store_all-loads buf 0 (slot_stores fb s) (omega arith) in
      λ i. record {
        sequence =
            (ap of_bytes (copied b 0 8 (omega arith) seq) ∙ of_bytes-to_bytes 8 s.seq r.seq_in) i;
        timestamp_ns =
            (ap of_bytes (copied b 8 8 (omega arith) stamp)
                ∙ of_bytes-to_bytes 8 s.timestamp_ns r.timestamp_in)
              i;
        positions =
            (ap (unpack_floats fb dof) (copied b 16 28 (omega arith) qs)
                ∙ unpack_floats-span (entries s.joint_positions 0 dof))
              i;
        velocities =
            (ap (unpack_floats fb dof) (copied b 44 28 (omega arith) vs)
                ∙ unpack_floats-span (entries s.joint_velocities 0 dof))
              i;
        torques =
            (ap (unpack_floats fb dof) (copied b 72 28 (omega arith) us)
                ∙ unpack_floats-span (entries s.applied_torques 0 dof))
              i;
        barrier_margin =
            (ap (λ t. fb.of_bits (of_bytes t)) (copied b 100 4 (omega arith) margin)
                ∙ float_back fb laws s.barrier_margin)
              i;
        clamped =
            (ap (λ t. not (of_bytes t == 0)) (copied b 104 4 (omega arith) cbf)
                ∙ ap (λ n. not (n == 0)) (of_bytes-to_bytes 4 s.cbf_intervention r.intervention_in))
              i;
        error_code = some (
            (ap of_bytes (copied b 108 4 (omega arith) err)
                ∙ of_bytes-to_bytes 4 s.error_code r.error_in)
              i);
        watchdog_tripped =
            (ap (λ t. not (of_bytes t == 0)) (copied b 112 4 (omega arith) dog)
                ∙ ap (λ n. not (n == 0)) (of_bytes-to_bytes 4 s.watchdog_tripped r.tripped_in))
              i;
      }

  -- the first copy that is taken is returned
  rounds_take :
      (zero_float : F) (n k : ℕ) (found : ℕ → Bytes)
      → k < n
      → ((j : ℕ) → j < k → is_taken fb (copy_of fb (found j)) ≡ false)
      → is_taken fb (copy_of fb (found k)) ≡ true
      → rounds fb zero_float n found ≡ copy_of fb (found k)
  unfolding rounds
  rounds_take zero_float zero k found h before taken = absurd (omega arith)
  rounds_take zero_float (suc n) zero found h before taken = rw (taken) refl
  rounds_take zero_float (suc n) (suc k) found h before taken = rw (before 0 (omega arith)) (
      rounds_take zero_float n k (λ j. found (suc j)) (omega arith)
        (λ j l. before (suc j) (omega arith)) taken)

  -- The client reads the telemetry that the daemon publishes: if the first k of its ten copies have an
  -- odd sequence number or 0, and before the next one the daemon has stored the members of a slot, with
  -- an even number above 0, at the offsets that C++ gives them, whatever the segment's 384 bytes were
  -- then, the client, with its own offsets and its own format, returns every member as it was.
  pub client_reads_telemetry :
      (zero_float : F) (buf before_daemon : Bytes) (counter k : ℕ) (others : Bytes → ℕ → Bytes)
      (s : TelemetrySlot F)
      → k < 10
      → ((j : ℕ) → j < k → is_taken fb (copy_of fb (others (send_heartbeat buf counter) j)) ≡ false)
      → others (send_heartbeat buf counter) k ≡ write_slot fb before_daemon s
      → length before_daemon ≡ segment_size
      → InRange s
      → is_stable s.seq ≡ true
      → (read_telemetry fb zero_float buf counter others).1 ≡ telemetry_of s
  unfolding read_telemetry
  client_reads_telemetry zero_float buf old counter k others s h before stored size r stable =
      let found = others (send_heartbeat buf counter) in
      let copy = ap (copy_of fb) stored ∙ copy_of-write_slot old s size r in
      rounds_take zero_float 10 k found h before (ap (is_taken fb) copy ∙ stable) ∙ copy
