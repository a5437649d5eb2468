-- ===== src/Telemetry/Text/Tests.antt =====
-- The texts over numbers in millionths.
use neuro_kinetic.Base.{ℕ, ◌%◌, ◌^◌, ◌≡◌, refl, some, List, [], ◌∷◌, ◌++◌, arith}
use neuro_kinetic.Base.Int.{pos_part}
use neuro_kinetic.Base.Text.{codes}
use neuro_kinetic.Double.{nought}
use neuro_kinetic.Double.Micro.{Micro, micro_double, Micro-IsMonotone}
use neuro_kinetic.Ring.{KinematicTelemetryFrame, dropped}
use neuro_kinetic.Recorder.Bytes.{FloatBits}
use neuro_kinetic.Recorder.Decimal.{to_decimal, digits}
use neuro_kinetic.Recorder.Decimal.Parse.{to_decimal-Lacks}
use neuro_kinetic.Telemetry.{Numbers}
use neuro_kinetic.Telemetry.Histogram.{count_within, bucket_of, cumulative}
use neuro_kinetic.Telemetry.Worker.{scrape, record_frame, export_safety_event}
use neuro_kinetic.Telemetry.Worker.Drain.{record_all}
use neuro_kinetic.Telemetry.Worker.Totals.{durations, count_flagged}
use neuro_kinetic.Telemetry.Metrics.{
  Event, loop_execution, kinematics_solve, deadline_miss, new_metrics, observe_all, loop_durations,
  solve_durations,
}
use neuro_kinetic.Telemetry.Http.{message, response_heads, read_message}
use neuro_kinetic.Telemetry.Text.{
  Printer, IsPrinter, bucket_name, scrape_lines, scrape_response, prometheus_text, json_body,
}
use neuro_kinetic.Telemetry.Text.Reading.{count_of}
use neuro_kinetic.Telemetry.Text.EndToEnd.{
  reported, body, duration_bucket, violations_total, scrape_reads,
}
use neuro_kinetic.Telemetry.Text.Prometheus.{loop_name, solve_name, metrics_reads}
open micro_double use {decimal}

abbrev numbers : Numbers Micro Micro
numbers = record { to_u64 = λ x. 0; double_to_u64 = λ x. 0; of_u64 = λ n. decimal n 0 }

abbrev micro_bits : FloatBits Micro
micro_bits = record { bits = λ x. pos_part x.units; of_bits = λ w. decimal w 6 }

-- a number printed in millionths
abbrev millionths : Printer Micro Micro
millionths = record {
  show_double = λ x. to_decimal (pos_part x.units);
  show_float = λ x. to_decimal (pos_part x.units);
  to_string = λ x. to_decimal (pos_part x.units);
}

millionths-IsPrinter : IsPrinter Micro Micro millionths
millionths-IsPrinter = record {
  show_double_line = λ x. to_decimal-Lacks (pos_part x.units);
  show_float_line = λ x. to_decimal-Lacks (pos_part x.units);
}

abbrev frame : ℕ → ℕ → KinematicTelemetryFrame Micro
frame duration flags = record {
  timestamp_ns = 77;
  loop_duration_us = decimal duration 0;
  condition_number = nought;
  max_torque_saturation_ratio = decimal 5 1;
  safety_flags = flags;
}

abbrev two_frames : List (KinematicTelemetryFrame Micro)
two_frames = frame 100 0 ∷ frame 101 5 ∷ []

-- the literals of the code, as one text
response_text :
    message response_heads (codes "ok")
    ≡ codes
        "HTTP/1.1 200 OK\r\nContent-Type: text/plain; version=0.0.4\r\nContent-Length: 2\r\nConnection: close\r\n\r\nok"
unfolding message to_decimal digits
response_text = refl

event_text :
    json_body millionths (frame 3 2)
    ≡ codes
        "{\"streams\":[{\"stream\":{\"service\":\"neurokinetic\",\"event\":\"SAFETY_LIMIT_BREACH\"},\"values\":[[\"77\",\"{\\\"flags\\\":2,\\\"loop_duration_us\\\":3000000}\"]]}]}"
unfolding json_body to_decimal digits
event_text = refl

scrape_reads_example :
    let text = body numbers micro_bits millionths (frame 0 0) two_frames in
    (read_message 5 0
        (scrape_response millionths (reported numbers micro_bits millionths (frame 0 0) two_frames))
      ≡ some text)
    × (count_of (codes "neurokinetic_loop_duration_us_count") text ≡ some (2 % 2 ^ 64))
    × (count_of (duration_bucket 1) text ≡ some (count_within 1 (durations two_frames) % 2 ^ 64))
    × (count_of (violations_total 2) text ≡ some (count_flagged 2 two_frames % 2 ^ 64))
unfolding scrape_lines scrape record_all record_frame export_safety_event cumulative bucket_of
    to_decimal digits dropped
scrape_reads_example =
    scrape_reads numbers micro_bits millionths (frame 0 0) two_frames millionths-IsPrinter
      Micro-IsMonotone 1 2 (omega arith) (omega arith) (omega arith)

abbrev calls : List (Event Micro)
calls =
    loop_execution (decimal 40 0)
    ∷ kinematics_solve (decimal 700 0)
    ∷ deadline_miss
    ∷ loop_execution (decimal 2000 0)
    ∷ []

metrics_reads_example :
    let text = prometheus_text numbers millionths (observe_all numbers new_metrics calls) in
    (count_of (bucket_name loop_name (codes "500")) text
      ≡ some (count_within 3 (loop_durations calls) % 2 ^ 64))
    × (count_of (loop_name ++ codes "_count") text ≡ some (2 % 2 ^ 64))
    × (count_of (bucket_name solve_name (codes "500")) text
        ≡ some (count_within 3 (solve_durations calls) % 2 ^ 64))
    × (count_of (solve_name ++ codes "_count") text ≡ some (1 % 2 ^ 64))
    × (count_of (codes "neurokinetic_deadline_misses_total") text ≡ some (1 % 2 ^ 64))
    × (count_of (codes "neurokinetic_emergency_stops_total") text ≡ some (0 % 2 ^ 64))
metrics_reads_example =
    metrics_reads numbers millionths millionths-IsPrinter Micro-IsMonotone calls 3 (omega arith)
