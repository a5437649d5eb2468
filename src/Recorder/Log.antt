-- ===== src/Recorder/Log.antt =====
-- flight_recorder.cpp: `class FlightRecorder`.
use neuro_kinetic.Base.{ℕ, Bool, false, if◌then◌else◌, Option, none, some, List, [], ◌∷◌, ◌++◌}
use neuro_kinetic.Recorder.{InterventionRecord, ColumnFamily}
use neuro_kinetic.Recorder.Decimal.{padded}
use neuro_kinetic.Recorder.Bytes.{FloatBits, encode, to_bytes, span_bytes}
use neuro_kinetic.Recorder.Store.{Bytes, RocksDb}

-- A null pointer is `none`.
pub record FlightRecorder (S : Type 0) : Type 0 where
  pub db : Option S
  pub cf_interventions : Option ColumnFamily
  pub cf_telemetry : Option ColumnFamily

-- "INTERVENE-" and "TELEM-"
abbrev pub intervene_prefix : List ℕ
intervene_prefix = b'I' ∷ b'N' ∷ b'T' ∷ b'E' ∷ b'R' ∷ b'V' ∷ b'E' ∷ b'N' ∷ b'E' ∷ b'-' ∷ []

abbrev pub telem_prefix : List ℕ
telem_prefix = b'T' ∷ b'E' ∷ b'L' ∷ b'E' ∷ b'M' ∷ b'-' ∷ []

abbrev pub intervention_key : ℕ → Bytes
intervention_key timestamp_ns = intervene_prefix ++ padded timestamp_ns

abbrev pub telemetry_key : ℕ → Bytes
telemetry_key seq = telem_prefix ++ padded seq

module _ {S : Type 0} where
  -- The constructor; `opened` is what `DB::Open` gives, `none` for a status that is not ok.
  unfoldable pub open_recorder : Option S → FlightRecorder S
  open_recorder none = record { db = none; cf_interventions = none; cf_telemetry = none }
  open_recorder (some s) = record {
    db = some s;
    cf_interventions = some ColumnFamily.cf_cbf_interventions;
    cf_telemetry = some ColumnFamily.cf_flight_telemetry;
  }

module _ {S F : Type 0} (rocks : RocksDb S) (fb : FloatBits F) where
  open rocks use {put, flush_wal, flush as flush_db}

  -- `log_cbf_intervention` on the pointers of the recorder
  abbrev log_open :
      FlightRecorder S
      → InterventionRecord F
      → Option S
      → Option ColumnFamily
      → Bool × FlightRecorder S
  log_open r rec none cf = (false, r)
  log_open r rec (some s) none = (false, r)
  log_open r rec (some s) (some cf) =
      let (s', ok) = put s cf (intervention_key rec.timestamp_ns) (encode fb rec) in
      (ok, record r { db = some (if ok then flush_wal s' else s') })

  unfoldable pub log_cbf_intervention :
      FlightRecorder S → InterventionRecord F → Bool × FlightRecorder S
  log_cbf_intervention r rec = log_open r rec r.db r.cf_interventions

  abbrev frame_payload : ℕ → ℕ → List F → List F → Bytes
  frame_payload seq ts_ns positions torques =
      to_bytes 8 seq ++ (to_bytes 8 ts_ns ++ (span_bytes fb positions ++ span_bytes fb torques))

  abbrev frame_open :
      FlightRecorder S → ℕ → Bytes → Option S → Option ColumnFamily → Bool × FlightRecorder S
  frame_open r seq payload none cf = (false, r)
  frame_open r seq payload (some s) none = (false, r)
  frame_open r seq payload (some s) (some cf) =
      let (s', ok) = put s cf (telemetry_key seq) payload in (ok, record r { db = some s' })

  unfoldable pub log_telemetry_frame :
      FlightRecorder S → ℕ → ℕ → List F → List F → Bool × FlightRecorder S
  log_telemetry_frame r seq ts_ns positions torques =
      frame_open r seq (frame_payload seq ts_ns positions torques) r.db r.cf_telemetry

  abbrev flush_open : FlightRecorder S → Option S → Option ColumnFamily → FlightRecorder S
  flush_open r none cf = r
  flush_open r (some s) none = r
  flush_open r (some s) (some cf) = record r { db = some (flush_db s cf) }

  unfoldable pub flush : FlightRecorder S → FlightRecorder S
  flush r = flush_open r r.db r.cf_interventions

  -- The destructor: the database that it leaves, if one is open. `db_` is closed behind its body.
  unfoldable pub destroy : FlightRecorder S → Option S
  unfolding flush
  destroy r = elim r.db [ none ↦ none | some s ↦ (flush r).db ]
