-- ===== src/Recorder.antt =====
-- src/storage: the flight recorder and the reader of its incidents. RocksDB is a parameter.
pub mod Decimal
pub mod Bytes
pub mod Store
pub mod Log
pub mod Reader
use neuro_kinetic.Base.{ℕ}

-- `struct InterventionRecord`, over the type of `float`
pub record InterventionRecord (F : Type 0) : Type 0 where
  pub sequence_number : ℕ
  pub timestamp_ns : ℕ
  pub barrier_margin : F
  pub commanded_joint5_torque : F
  pub safe_joint5_torque : F
  pub active_mask : ℕ

-- the column families that the recorder opens
pub data ColumnFamily : Type 0 where
  default_family cf_cbf_interventions cf_flight_telemetry : ColumnFamily
