-- ===== src/Telemetry/Sockets/Tests.antt =====
-- The worker's threads with some answers of the system.
use neuro_kinetic.Base.{ℕ, zero, suc, ◌≡◌, refl, false, none, some, List, [], ◌∷◌}
use neuro_kinetic.Base.Text.{codes}
use neuro_kinetic.Double.{nought}
use neuro_kinetic.Double.Micro.{Micro, micro_double}
use neuro_kinetic.Ring.{KinematicTelemetryFrame}
use neuro_kinetic.Recorder.Bytes.{FloatBits}
use neuro_kinetic.Recorder.Decimal.{to_decimal, digits}
use neuro_kinetic.Telemetry.{Numbers}
use neuro_kinetic.Telemetry.Worker.{Scrape, new_worker}
use neuro_kinetic.Telemetry.Worker.Drain.{record_all}
use neuro_kinetic.Telemetry.Text.{Printer}
use neuro_kinetic.Telemetry.Sockets.{Answer, Turn, printed, send_all, send_json_event}
use neuro_kinetic.Telemetry.Sockets.Balance.{open_after, sends_balanced}

-- every number is printed as 1.5
abbrev fixed : Printer Micro Micro
fixed = record {
  show_double = λ x. codes "1.5";
  show_float = λ x. codes "1.5";
  to_string = λ x. codes "1.500000";
}

abbrev numbers : Numbers Micro Micro
numbers = record { to_u64 = λ x. 0; double_to_u64 = λ x. 0; of_u64 = λ n. nought }

abbrev micro_bits : FloatBits Micro
micro_bits = record { bits = λ x. 0; of_bits = λ w. nought }

abbrev at_start : Scrape Micro Micro
at_start = record {
  loop_duration_count = 3;
  loop_duration_sum = nought;
  loop_duration_bucket = λ i. i;
  condition_number = nought;
  torque_saturation_ratio = nought;
  safety_violations_total = λ k. 0;
  telemetry_drops_total = 0;
}

-- a time-out, a client that is answered, and one that takes ten bytes
abbrev turns : List (Turn Micro Micro)
turns =
    record { client = none; send_takes = 0; numbers = at_start }
    ∷ record { client = some 5; send_takes = 4000; numbers = at_start }
    ∷ record { client = some 5; send_takes = 10; numbers = at_start }
    ∷ []

abbrev frame : ℕ → KinematicTelemetryFrame Micro
frame flags = record {
  timestamp_ns = 77;
  loop_duration_us = nought;
  condition_number = nought;
  max_torque_saturation_ratio = nought;
  safety_flags = flags;
}

-- the trace server cannot be reached, and then there is no socket
abbrev poor : ℕ → Answer
poor zero = record { socket = some 7; is_connected = false; send_takes = 0 }
poor (suc k) = record { socket = none; is_connected = false; send_takes = 0 }

console_text :
    send_json_event fixed (poor 1) (frame 4)
    ≡ printed (codes "{\"event\":\"SAFETY_LIMIT_BREACH\",\"timestamp_ns\":77,\"flags\":4}\n") ∷ []
unfolding send_json_event to_decimal digits
console_text = refl

sends_balanced_example :
    open_after (0 ∷ []) (
      send_all fixed poor
        (record_all numbers micro_bits (new_worker (frame 0)) (frame 0 ∷ frame 4 ∷ [])).1)
    ≡ some (0 ∷ [])
sends_balanced_example =
    sends_balanced fixed (0 ∷ []) poor
      (record_all numbers micro_bits (new_worker (frame 0)) (frame 0 ∷ frame 4 ∷ [])).1
