-- ===== src/Ipc/Layout.antt =====
-- shm_layout.hpp: where the members of the shared segment lie, by the rules of C++ for structures: each
-- member at the next multiple of its alignment, and the size a multiple of the structure's.
use neuro_kinetic.Base.{ℕ, ◌+◌, ◌-◌, ◌*◌, ◌/◌, List, [], ◌∷◌, entries, get_or}
use neuro_kinetic.Base.Text.{Bytes}
use neuro_kinetic.Vector.{dof}
use neuro_kinetic.Recorder.Bytes.{FloatBits, to_bytes, of_bytes, span_bytes}
use neuro_kinetic.Ipc.{TelemetrySlot}
use neuro_kinetic.Ipc.Memory.{load, store_all}
use neuro_kinetic.Daemon.Command.{CommandRead}

pub record Member : Type 0 where
  pub size : ℕ
  pub align : ℕ

abbrev pub u64_member : Member
u64_member = record { size = 8; align = 8 }

-- `uint32_t` and `float`
abbrev pub u32_member : Member
u32_member = record { size = 4; align = 4 }

-- `float[DOF]`
abbrev pub floats_member : Member
floats_member = record { size = dof * 4; align = 4 }

abbrev pub padding_member : Member
padding_member = record { size = 16; align = 1 }

abbrev pub round_up : ℕ → ℕ → ℕ
round_up align n = (n + (align - 1)) / align * align

-- the offsets of the members, of which the first one comes at `at` or behind it
abbrev pub offsets : ℕ → List Member → List ℕ
offsets at [] = []
offsets at (m ∷ ms) = round_up m.align at ∷ offsets (round_up m.align at + m.size) ms

-- where the last member ends
abbrev pub end_of : ℕ → List Member → ℕ
end_of at [] = at
end_of at (m ∷ ms) = end_of (round_up m.align at + m.size) ms

-- `struct alignas(64) TelemetrySlot`
abbrev pub telemetry_members : List Member
telemetry_members =
    u64_member ∷ u64_member ∷ floats_member ∷ floats_member ∷ floats_member ∷ u32_member
    ∷ u32_member ∷ u32_member ∷ u32_member ∷ padding_member ∷ []

-- `struct alignas(64) CommandSlot`
abbrev pub command_members : List Member
command_members =
    u64_member ∷ floats_member ∷ floats_member ∷ u32_member ∷ u32_member ∷ u32_member
    ∷ padding_member ∷ []

-- a slot as a member of the segment
abbrev pub slot_member : List Member → Member
slot_member members = record { size = round_up 64 (end_of 0 members); align = 64 }

-- `struct alignas(64) SharedMemorySegment`
abbrev pub segment_members : List Member
segment_members =
    u32_member
    ∷ u64_member
    ∷ u64_member
    ∷ slot_member telemetry_members
    ∷ slot_member command_members
    ∷ []

abbrev pub segment_size : ℕ
segment_size = round_up 64 (end_of 0 segment_members)

-- the offset of the `k`-th member
abbrev pub offset_of : List Member → ℕ → ℕ
offset_of members k = get_or (offsets 0 members) k 0

abbrev pub heartbeat_python_at : ℕ
heartbeat_python_at = offset_of segment_members 2

abbrev pub telemetry_at : ℕ
telemetry_at = offset_of segment_members 3

abbrev pub command_at : ℕ
command_at = offset_of segment_members 4

-- each of some offsets with the bytes that go there; the padding gets none
abbrev pub place : ℕ → List ℕ → List Bytes → List (ℕ × Bytes)
place base [] values = []
place base (o ∷ os) [] = []
place base (o ∷ os) (v ∷ values) = (base + o, v) ∷ place base os values

-- the daemon's load of the heartbeat
unfoldable pub read_heartbeat : Bytes → ℕ
read_heartbeat buf = of_bytes (load buf heartbeat_python_at 8)

module _ {F : Type 0} (fb : FloatBits F) where
  open fb use {bits, of_bits}

  abbrev pub floats : (ℕ → F) → Bytes
  floats v = span_bytes fb (entries v 0 dof)

  -- The members of the telemetry slot in memory.
  abbrev pub slot_values : TelemetrySlot F → List Bytes
  slot_values s =
      to_bytes 8 s.seq
      ∷ to_bytes 8 s.timestamp_ns
      ∷ floats s.joint_positions
      ∷ floats s.joint_velocities
      ∷ floats s.applied_torques
      ∷ to_bytes 4 (bits s.barrier_margin)
      ∷ to_bytes 4 s.cbf_intervention
      ∷ to_bytes 4 s.error_code
      ∷ to_bytes 4 s.watchdog_tripped
      ∷ []

  abbrev pub slot_stores : TelemetrySlot F → List (ℕ × Bytes)
  slot_stores s = place telemetry_at (offsets 0 telemetry_members) (slot_values s)

  -- The stores of a publication, in the segment.
  unfoldable pub write_slot : Bytes → TelemetrySlot F → Bytes
  write_slot buf s = store_all buf (slot_stores s)

  abbrev pub u32_at : Bytes → ℕ → ℕ
  u32_at buf at = of_bytes (load buf at 4)

  -- The daemon's loads of a command, with no store of another process between them.
  unfoldable pub read_command : Bytes → CommandRead F
  read_command buf =
      let at = λ (k : ℕ). command_at + offset_of command_members k in
      record {
        cmd_seq1 = of_bytes (load buf (at 0) 8);
        nominal_torques = λ i. of_bits (u32_at buf (at 1 + 4 * i));
        command_flags = u32_at buf (at 5);
        obstacle_safety_margin = of_bits (u32_at buf (at 3));
        cmd_seq2 = of_bytes (load buf (at 0) 8);
      }
