-- ===== src/Telemetry/Worker/Totals.antt =====
-- What the counters of the worker say of the frames that it recorded.
use neuro_kinetic.Base.{
  ℕ, zero, suc, ◌+◌, ◌%◌, ◌^◌, ◌≡◌, ◌≤◌, ◌<◌, ◌==◌, refl, if◌then◌else◌, List, [], ◌∷◌, ◌++◌,
  length, map, arith, ap, ◌∙◌,
}
use neuro_kinetic.Base.Word.{add64}
use neuro_kinetic.Double.{Double}
use neuro_kinetic.Double.Laws.{IsMonotone}
use neuro_kinetic.Ring.{KinematicTelemetryFrame}
use neuro_kinetic.Recorder.Bytes.{FloatBits}
use neuro_kinetic.Telemetry.{Numbers, TelemetryWorker, Export, trace_event, json_event}
use neuro_kinetic.Telemetry.Histogram.{
  counted, increment_at, bucket_of, cumulative, count_within, cumulative-new, count_within-5,
}
use neuro_kinetic.Telemetry.Worker.{flag, new_worker, record_frame, export_safety_event, scrape}
use neuro_kinetic.Telemetry.Worker.Drain.{record_all}

module _ {F : Type 0} where
  abbrev pub durations : List (KinematicTelemetryFrame F) → List F
  durations frames = map (λ x. x.loop_duration_us) frames

  length-durations : (xs : List (KinematicTelemetryFrame F)) → length (durations xs) ≡ length xs
  length-durations [] = refl
  length-durations (x ∷ xs) = ap suc (length-durations xs)

  -- how many frames have bit `k` of their flags set
  unfoldable pub count_flagged : ℕ → List (KinematicTelemetryFrame F) → ℕ
  count_flagged k [] = 0
  count_flagged k (x ∷ frames) = (if flag k x.safety_flags then 1 else 0) + count_flagged k frames

  -- the events of the frames whose flags are not 0: each one as a trace, then as a log line
  unfoldable pub events : List (KinematicTelemetryFrame F) → List (Export F)
  events [] = []
  events (x ∷ frames) =
      (if x.safety_flags == 0 then [] else trace_event x ∷ json_event x ∷ []) ++ events frames

module _ {D F : Type 0} ⦃d : Double D⦄ ⦃f : Double F⦄ (numbers : Numbers D F)
    (fb : FloatBits F) where
  module _ (w : TelemetryWorker F) (x : KinematicTelemetryFrame F) where
    pub record_frame-samples : (record_frame numbers fb w x).0.loop_samples ≡ add64 w.loop_samples 1
    unfolding record_frame export_safety_event
    record_frame-samples = ground arith

    record_frame-buckets :
        (record_frame numbers fb w x).0.loop_buckets
        ≡ increment_at w.loop_buckets (bucket_of x.loop_duration_us)
    unfolding record_frame export_safety_event
    record_frame-buckets = ground arith

    record_frame-violations :
        (k : ℕ)
        → k < 3
        → (record_frame numbers fb w x).0.safety_violations k ≡ (
            if flag k x.safety_flags
            then add64 (w.safety_violations k) 1
            else w.safety_violations k)
    unfolding record_frame export_safety_event
    record_frame-violations zero h = ground arith
    record_frame-violations (suc zero) h = ground arith
    record_frame-violations (suc (suc zero)) h = ground arith
    record_frame-violations (suc (suc (suc k))) h = absurd (omega arith)

    pub record_frame-sent :
        (record_frame numbers fb w x).1
        ≡ (if x.safety_flags == 0 then [] else trace_event x ∷ json_event x ∷ [])
    unfolding record_frame export_safety_event
    record_frame-sent = ground arith

  pub samples-record_all :
      (w : TelemetryWorker F) (xs : List (KinematicTelemetryFrame F))
      → w.loop_samples < 2 ^ 64
      → (record_all numbers fb w xs).0.loop_samples ≡ (w.loop_samples + length xs) % 2 ^ 64
  unfolding record_all
  samples-record_all w [] h = omega arith
  samples-record_all w (x ∷ xs) h =
      let step = record_frame-samples w x in
      omega
        (arith, step, samples-record_all (record_frame numbers fb w x).0 xs (omega (arith, step)))

  buckets-record_all :
      (w : TelemetryWorker F) (xs : List (KinematicTelemetryFrame F))
      → (record_all numbers fb w xs).0.loop_buckets ≡ counted w.loop_buckets (durations xs)
  unfolding record_all counted
  buckets-record_all w [] = refl
  buckets-record_all w (x ∷ xs) =
      buckets-record_all (record_frame numbers fb w x).0 xs
      ∙ ap (λ b. counted b (durations xs)) (record_frame-buckets w x)

  violations-record_all :
      (w : TelemetryWorker F) (xs : List (KinematicTelemetryFrame F)) (k : ℕ)
      → k < 3
      → w.safety_violations k < 2 ^ 64
      → (record_all numbers fb w xs).0.safety_violations k
        ≡ (w.safety_violations k + count_flagged k xs) % 2 ^ 64
  unfolding record_all count_flagged
  violations-record_all w [] k h small = omega arith
  violations-record_all w (x ∷ xs) k h small = ground (
    arith,
    record_frame-violations w x k h,
    violations-record_all (record_frame numbers fb w x).0 xs k h,
  )

  -- The worker exports every frame whose flags are not 0, and no other one, in the order in which it
  -- records them: as a trace first and then as a log line.
  pub record_all-exports :
      (w : TelemetryWorker F) (xs : List (KinematicTelemetryFrame F))
      → (record_all numbers fb w xs).1 ≡ events xs
  unfolding record_all events
  record_all-exports w [] = refl
  record_all-exports w (x ∷ xs) =
      rw (record_frame-sent w x, record_all-exports (record_frame numbers fb w x).0 xs) refl

  module _ (mono : IsMonotone F) (blank : KinematicTelemetryFrame F)
      (xs : List (KinematicTelemetryFrame F)) where
    -- A scrape is a histogram as Prometheus reads it: once a new worker has recorded some frames, the
    -- bucket of each bound counts the frames whose duration is at most that bound, the last bucket and
    -- the count are the number of all frames, NaN included, and the counter of each kind of violation
    -- is the number of frames with its flag; all of them modulo 2^64.
    pub scrape_counts :
        (index k : ℕ)
        → index ≤ 5
        → k < 3
        → let out = scrape numbers fb (record_all numbers fb (new_worker blank) xs).0 in
          (out.loop_duration_bucket index ≡ count_within index (durations xs) % 2 ^ 64)
          × (out.loop_duration_bucket 5 ≡ out.loop_duration_count)
          × (out.loop_duration_count ≡ length xs % 2 ^ 64)
          × (out.safety_violations_total k ≡ count_flagged k xs % 2 ^ 64)
    unfolding scrape
    scrape_counts index k h hk =
        let w = new_worker blank in
        let buckets = buckets-record_all w xs in
        let samples = samples-record_all w xs (omega arith) in
        let bucket : (i : ℕ)
            → i ≤ 5
            → cumulative (record_all numbers fb w xs).0.loop_buckets i
              ≡ count_within i (durations xs) % 2 ^ 64 =
          λ i le. ap (λ b. cumulative b i) buckets ∙ cumulative-new mono (durations xs) i le in
        (
          bucket index h,
          omega (
            arith,
            bucket 5 (omega arith),
            samples,
            count_within-5 (durations xs),
            length-durations xs,
          ),
          omega (arith, samples),
          omega (arith, violations-record_all w xs k hk (omega arith)),
        )
