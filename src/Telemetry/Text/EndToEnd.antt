-- ===== src/Telemetry/Text/EndToEnd.antt =====
-- From the frames that a worker records to what a scraper reads.
use neuro_kinetic.Base.{
  ℕ, zero, suc, ◌%◌, ◌^◌, ◌<◌, ◌≤◌, ◌≡◌, refl, some, List, ◌++◌, length, arith, ap, ◌∙◌,
}
use neuro_kinetic.Base.Text.{Bytes, codes}
use neuro_kinetic.Double.{Double}
use neuro_kinetic.Double.Laws.{IsMonotone}
use neuro_kinetic.Ring.{KinematicTelemetryFrame}
use neuro_kinetic.Recorder.Bytes.{FloatBits}
use neuro_kinetic.Recorder.Decimal.{to_decimal}
use neuro_kinetic.Telemetry.{Numbers}
use neuro_kinetic.Telemetry.Histogram.{count_within}
use neuro_kinetic.Telemetry.Worker.{Scrape, new_worker, scrape}
use neuro_kinetic.Telemetry.Worker.Drain.{record_all}
use neuro_kinetic.Telemetry.Worker.Totals.{durations, count_flagged, scrape_counts}
use neuro_kinetic.Telemetry.Exposition.{render, samples}
use neuro_kinetic.Telemetry.Http.{response_heads, read_message, strip}
use neuro_kinetic.Telemetry.Http.Framing.{read-message}
use neuro_kinetic.Telemetry.Text.{Printer, IsPrinter, bucket_name, scrape_lines, scrape_response}
use neuro_kinetic.Telemetry.Text.Reading.{count_of, count_of-render, find, scrape_lines-IsLine}

-- the label of the `index`-th bound
abbrev pub bound_name : ℕ → Bytes
bound_name zero = codes "50"
bound_name (suc zero) = codes "100"
bound_name (suc (suc zero)) = codes "250"
bound_name (suc (suc (suc zero))) = codes "500"
bound_name (suc (suc (suc (suc zero)))) = codes "1000"
bound_name (suc (suc (suc (suc (suc index))))) = codes "+Inf"

-- the label of bit `k`
abbrev pub violation_name : ℕ → Bytes
violation_name zero = codes "estop"
violation_name (suc zero) = codes "kinematic_singularity"
violation_name (suc (suc k)) = codes "velocity_clamp"

abbrev pub duration_bucket : ℕ → Bytes
duration_bucket index = bucket_name (codes "neurokinetic_loop_duration_us") (bound_name index)

abbrev pub violations_total : ℕ → Bytes
violations_total k =
    codes "neurokinetic_safety_violations_total{type=\"" ++ (violation_name k ++ codes "\"}")

module _ {D F : Type 0} (printer : Printer D F) where
  find-bucket :
      (s : Scrape D F) (index : ℕ)
      → index ≤ 5
      → find (duration_bucket index) (samples (scrape_lines printer s))
        ≡ some (to_decimal (s.loop_duration_bucket index))
  unfolding scrape_lines
  find-bucket s zero h = refl
  find-bucket s (suc zero) h = refl
  find-bucket s (suc (suc zero)) h = refl
  find-bucket s (suc (suc (suc zero))) h = refl
  find-bucket s (suc (suc (suc (suc zero)))) h = refl
  find-bucket s (suc (suc (suc (suc (suc zero))))) h = refl
  find-bucket s (suc (suc (suc (suc (suc (suc index)))))) h = absurd (omega arith)

  find-violations :
      (s : Scrape D F) (k : ℕ)
      → k < 3
      → find (violations_total k) (samples (scrape_lines printer s))
        ≡ some (to_decimal (s.safety_violations_total k))
  unfolding scrape_lines
  find-violations s zero h = refl
  find-violations s (suc zero) h = refl
  find-violations s (suc (suc zero)) h = refl
  find-violations s (suc (suc (suc k))) h = absurd (omega arith)

  find-count :
      (s : Scrape D F)
      → find (codes "neurokinetic_loop_duration_us_count") (samples (scrape_lines printer s))
        ≡ some (to_decimal s.loop_duration_count)
  unfolding scrape_lines
  find-count s = refl

module _ {D F : Type 0} ⦃d : Double D⦄ ⦃f : Double F⦄ (numbers : Numbers D F) (fb : FloatBits F)
    (printer : Printer D F) (blank : KinematicTelemetryFrame F)
    (xs : List (KinematicTelemetryFrame F)) where
  -- what a scrape has to report once a new worker has recorded the frames, and its text
  abbrev pub reported : Scrape D F
  reported = scrape numbers fb (record_all numbers fb (new_worker blank) xs).0

  abbrev pub body : Bytes
  body = render (scrape_lines printer reported)

  -- From the frames to the scraper: once a new worker has recorded some frames, a client that goes by
  -- the announced length takes the whole body of the answer, and finds there under the name of the
  -- count the number of the frames, under that of a bucket the number of the frames whose duration is
  -- within its bound, and under that of a violation the number of the frames with its flag, all modulo
  -- 2^64. The printed numbers have no line feeds, and the body is shorter than 2^64 bytes.
  pub scrape_reads :
      IsPrinter D F printer
      → IsMonotone F
      → (index k : ℕ) → index ≤ 5
      → k < 3
      → length body < 2 ^ 64
      → (read_message 5 0 (scrape_response printer reported) ≡ some body)
        × (count_of (codes "neurokinetic_loop_duration_us_count") body ≡ some (length xs % 2 ^ 64))
        × (count_of (duration_bucket index) body
            ≡ some (count_within index (durations xs) % 2 ^ 64))
        × (count_of (violations_total k) body ≡ some (count_flagged k xs % 2 ^ 64))
  unfolding scrape_response strip
  scrape_reads one_line mono index k h hk small =
      let (bucket, same, count, violations) = scrape_counts numbers fb mono blank xs index k h hk in
      let fits = scrape_lines-IsLine printer one_line reported in
      let lines = scrape_lines printer reported in
      (
        read-message response_heads body refl small,
        count_of-render lines _ _ fits (omega (arith, count)) (find-count printer reported)
            ∙ ap some count,
        count_of-render lines _ _ fits (omega (arith, bucket))
              (find-bucket printer reported index h)
            ∙ ap some bucket,
        count_of-render lines _ _ fits (omega (arith, violations))
              (find-violations printer reported k hk)
            ∙ ap some violations,
      )
