-- ===== src/Recorder/Reader/Tests.antt =====
-- The recorder and its reader on a store in memory.
use neuro_kinetic.Base.{ℕ, ◌+◌, ◌≡◌, refl, true, some, [], ◌∷◌, ◌++◌, length, arith}
use neuro_kinetic.Recorder.{InterventionRecord}
use neuro_kinetic.Recorder.Decimal.{padded, digits}
use neuro_kinetic.Recorder.Decimal.Order.{lex_lt, padded_order}
use neuro_kinetic.Recorder.Bytes.{encode, decode, decode-encode}
use neuro_kinetic.Recorder.Store.{Memory, memory_db, memory-IsStore, insert}
use neuro_kinetic.Recorder.Log.{
  open_recorder, intervention_key, intervene_prefix, log_cbf_intervention,
}
use neuro_kinetic.Recorder.Bytes.Sample.{
  Sample, nought, third, one, sample_bits, sample_bits-IsBitCast,
}
use neuro_kinetic.Recorder.Reader.Latest.{logged, same_timestamp_overwrites}

abbrev incident : ℕ → InterventionRecord Sample
incident t = record {
  sequence_number = t + 1;
  timestamp_ns = t;
  barrier_margin = nought;
  commanded_joint5_torque = one;
  safe_joint5_torque = third;
  active_mask = 1;
}

abbrev blank : Memory
blank = record { interventions = []; telemetry = []; other = [] }

-- the store in which one incident, at 999 ns, is logged
abbrev stored : Memory
stored = record blank {
  interventions = (intervention_key 999, encode sample_bits (incident 999)) ∷ [];
}

padded-1000 :
    padded 1000
    ≡ b'0' ∷ b'0' ∷ b'0' ∷ b'0' ∷ b'0' ∷ b'0' ∷ b'0' ∷ b'0' ∷ b'0' ∷ b'0' ∷ b'0' ∷ b'0' ∷ b'0'
      ∷ b'0' ∷ b'0' ∷ b'0' ∷ b'1' ∷ b'0' ∷ b'0' ∷ b'0' ∷ []
unfolding padded digits
padded-1000 = refl

log_returns_true :
    (log_cbf_intervention memory_db sample_bits (open_recorder (some blank)) (incident 999)).0
    ≡ true
unfolding log_cbf_intervention open_recorder
log_returns_true = refl

padded_order_example :
    lex_lt (intervene_prefix ++ padded 999) (intervene_prefix ++ padded 1000) ≡ true
padded_order_example = padded_order intervene_prefix 999 1000 (omega arith) (omega arith)

decode-encode_example :
    (length (encode sample_bits (incident 999)) ≡ 32)
    × (decode sample_bits (encode sample_bits (incident 999)) ≡ incident 999)
decode-encode_example = decode-encode sample_bits sample_bits-IsBitCast (incident 999) (omega arith)

same_timestamp_overwrites_example :
    logged memory_db sample_bits
      (log_cbf_intervention memory_db sample_bits (open_recorder (some stored)) (incident 999)).1
    ≡ insert (intervention_key 999) (encode sample_bits (incident 999)) []
unfolding log_cbf_intervention open_recorder
same_timestamp_overwrites_example =
    same_timestamp_overwrites memory_db sample_bits memory-IsStore blank stored (incident 999)
      (incident 999) refl refl refl
