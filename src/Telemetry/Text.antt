-- ===== src/Telemetry/Text.antt =====
-- telemetry_worker.cpp and metrics.cpp: the texts that they write. How a floating-point number is
-- printed is a parameter.
pub mod Reading
pub mod EndToEnd
pub mod Prometheus
mod Tests
use neuro_kinetic.Base.{ℕ, ◌+◌, ◌%◌, ◌^◌, ◌≡◌, refl, List, [], ◌∷◌, ◌++◌, All}
use neuro_kinetic.Base.Text.{Bytes, codes, Lacks, line_feed}
use neuro_kinetic.Base.Word.{add64}
use neuro_kinetic.Double.{Double}
use neuro_kinetic.Ring.{KinematicTelemetryFrame}
use neuro_kinetic.Recorder.Decimal.{to_decimal}
use neuro_kinetic.Telemetry.{Numbers, Export, trace_event, json_event}
use neuro_kinetic.Telemetry.Histogram.{cumulative}
use neuro_kinetic.Telemetry.Worker.{Scrape}
use neuro_kinetic.Telemetry.Metrics.{Metrics, HistogramText, histogram}
use neuro_kinetic.Telemetry.Exposition.{Line, comment, sample, render}
use neuro_kinetic.Telemetry.Http.{message, response_heads, log_heads, trace_heads}

-- `std::ostream << double`, `std::ostream << float` and `std::to_string(float)`
pub record Printer (D F : Type 0) : Type 0 where
  pub show_double : D → Bytes
  pub show_float : F → Bytes
  pub to_string : F → Bytes

-- A number is printed on one line.
pub record IsPrinter (D F : Type 0) (printer : Printer D F) : Type 0 where
  pub show_double_line : (x : D) → Lacks line_feed (printer.show_double x)
  pub show_float_line : (x : F) → Lacks line_feed (printer.show_float x)

-- a count behind its name
abbrev pub count_line : Bytes → ℕ → Line
count_line name n = sample name (to_decimal n)

-- the six lines of the buckets; the names of the bounds stand in the code
abbrev pub bucket_lines : (Bytes → Bytes) → (ℕ → ℕ) → List Line
bucket_lines name bucket =
    count_line (name (codes "50")) (bucket 0)
    ∷ count_line (name (codes "100")) (bucket 1)
    ∷ count_line (name (codes "250")) (bucket 2)
    ∷ count_line (name (codes "500")) (bucket 3)
    ∷ count_line (name (codes "1000")) (bucket 4)
    ∷ count_line (name (codes "+Inf")) (bucket 5)
    ∷ []

-- `<name>_bucket{le="<bound>"}`
abbrev pub bucket_name : Bytes → Bytes → Bytes
bucket_name name le = name ++ (codes "_bucket{le=\"" ++ (le ++ codes "\"}"))

module _ {D F : Type 0} (printer : Printer D F) where
  open printer use {show_double, show_float, to_string}

  -- The lines that `metrics_loop` writes into `body`.
  unfoldable pub scrape_lines : Scrape D F → List Line
  scrape_lines s =
      let duration = codes "neurokinetic_loop_duration_us" in
      let violations = codes "neurokinetic_safety_violations_total" in
      comment (codes " TYPE neurokinetic_loop_duration_us histogram")
      ∷ count_line (duration ++ codes "_count") s.loop_duration_count
      ∷ sample (duration ++ codes "_sum") (show_double s.loop_duration_sum)
      ∷ (bucket_lines (bucket_name duration) s.loop_duration_bucket
          ++ (comment (codes " TYPE neurokinetic_condition_number gauge")
              ∷ sample (codes "neurokinetic_condition_number") (show_float s.condition_number)
              ∷ comment (codes " TYPE neurokinetic_torque_saturation_ratio gauge")
              ∷ sample (codes "neurokinetic_torque_saturation_ratio")
                  (show_float s.torque_saturation_ratio)
              ∷ comment (codes " TYPE neurokinetic_safety_violations_total counter")
              ∷ count_line (violations ++ codes "{type=\"estop\"}") (s.safety_violations_total 0)
              ∷ count_line (violations ++ codes "{type=\"kinematic_singularity\"}")
                  (s.safety_violations_total 1)
              ∷ count_line (violations ++ codes "{type=\"velocity_clamp\"}")
                  (s.safety_violations_total 2)
              ∷ comment (codes " TYPE neurokinetic_telemetry_drops_total counter")
              ∷ count_line (codes "neurokinetic_telemetry_drops_total") s.telemetry_drops_total
              ∷ []))

  -- `response` of `metrics_loop`
  unfoldable pub scrape_response : Scrape D F → Bytes
  scrape_response s = message response_heads (render (scrape_lines s))

  -- `body` of `send_json_event`
  unfoldable pub json_body : KinematicTelemetryFrame F → Bytes
  json_body frame =
      codes
        "{\"streams\":[{\"stream\":{\"service\":\"neurokinetic\",\"event\":\"SAFETY_LIMIT_BREACH\"},\"values\":[[\""
      ++ (to_decimal frame.timestamp_ns
          ++ (codes "\",\"{\\\"flags\\\":"
              ++ (to_decimal frame.safety_flags
                  ++ (codes ",\\\"loop_duration_us\\\":"
                      ++ (to_string frame.loop_duration_us ++ codes "}\"]]}]}")))))

  -- `body` of `send_trace_event`; the end is computed in 64 bits
  unfoldable pub trace_body : KinematicTelemetryFrame F → Bytes
  trace_body frame =
      codes
        "{\"resourceSpans\":[{\"resource\":{\"attributes\":[{\"key\":\"service.name\",\"value\":{\"stringValue\":\"neurokinetic\"}}]},\"scopeSpans\":[{\"spans\":[{\"name\":\"SAFETY_LIMIT_BREACH\",\"kind\":1,\"startTimeUnixNano\":\""
      ++ (to_decimal frame.timestamp_ns
          ++ (codes "\",\"endTimeUnixNano\":\""
              ++ (to_decimal (add64 frame.timestamp_ns 1000)
                  ++ (codes
                        "\",\"attributes\":[{\"key\":\"safety_flags\",\"value\":{\"intValue\":\""
                      ++ (to_decimal frame.safety_flags ++ codes "\"}}]}]}]}]}")))))

  -- `request` of the two functions, where the connection is made
  unfoldable pub export_request : Export F → Bytes
  export_request (trace_event frame) = message trace_heads (trace_body frame)
  export_request (json_event frame) = message log_heads (json_body frame)

  -- what `export_request` carries
  abbrev pub export_body : Export F → Bytes
  export_body (trace_event frame) = trace_body frame
  export_body (json_event frame) = json_body frame

  -- what the lambda `histogram` of `prometheus_text` writes
  abbrev pub histogram_lines : Bytes → (ℕ → ℕ) → D → List Line
  histogram_lines name buckets sum =
      comment (codes " TYPE " ++ (name ++ codes " histogram"))
      ∷ (bucket_lines (bucket_name name) (histogram buckets).bucket
          ++ (count_line (name ++ codes "_count") (histogram buckets).count
              ∷ sample (name ++ codes "_sum") (show_double sum)
              ∷ []))

module _ {D F : Type 0} ⦃d : Double D⦄ (numbers : Numbers D F) (printer : Printer D F) where
  -- The lines of `prometheus_text`.
  unfoldable pub metrics_lines : Metrics → List Line
  metrics_lines m =
      let milli = λ (sum : ℕ). d.div (numbers.of_u64 sum) (d.decimal 10000 1) in
      histogram_lines printer (codes "neurokinetic_loop_execution_duration_us") m.loop_buckets
        (milli m.loop_sum_milli_us)
      ++ (histogram_lines printer (codes "neurokinetic_kinematics_solve_duration_us")
            m.solve_buckets (milli m.solve_sum_milli_us)
          ++ (comment (codes " TYPE neurokinetic_deadline_misses_total counter")
              ∷ count_line (codes "neurokinetic_deadline_misses_total") m.deadline_misses
              ∷ comment (codes " TYPE neurokinetic_emergency_stops_total counter")
              ∷ count_line (codes "neurokinetic_emergency_stops_total") m.emergency_stops
              ∷ []))

  -- `prometheus_text`
  unfoldable pub prometheus_text : Metrics → Bytes
  unfolding metrics_lines
  prometheus_text m = render (metrics_lines m)
