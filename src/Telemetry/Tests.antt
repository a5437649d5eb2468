-- ===== src/Telemetry/Tests.antt =====
-- The worker and the metrics over numbers in millionths.
use neuro_kinetic.Base.{ℕ, ◌≡◌, ◌/◌, refl, false, List, [], ◌∷◌, arith}
use neuro_kinetic.Base.Int.{pos_part}
use neuro_kinetic.Double.{nought}
use neuro_kinetic.Double.Micro.{Micro, micro_double}
use neuro_kinetic.Ring.{SpscRingBuffer, KinematicTelemetryFrame}
use neuro_kinetic.Ring as Ring
use neuro_kinetic.Ring.Bounds.{contents}
use neuro_kinetic.Recorder.Bytes.{FloatBits}
use neuro_kinetic.Telemetry.{Numbers, TelemetryWorker}
use neuro_kinetic.Telemetry.Histogram.{bucket_of}
use neuro_kinetic.Telemetry.Worker.{
  queue_capacity, new_worker, start, try_push, record_frame, stop, export_safety_event, drain_rest,
}
use neuro_kinetic.Telemetry.Worker.Drain.{record_all, stop_drains}
use neuro_kinetic.Telemetry.Worker.Totals.{events}
use neuro_kinetic.Telemetry.Metrics.{Event, loop_execution, kinematics_solve, deadline_miss}
open micro_double use {decimal}

abbrev numbers : Numbers Micro Micro
numbers = record {
  to_u64 = λ x. pos_part x.units / 1_000_000;
  double_to_u64 = λ x. pos_part x.units / 1_000_000;
  of_u64 = λ n. decimal n 0;
}

abbrev micro_bits : FloatBits Micro
micro_bits = record { bits = λ x. pos_part x.units; of_bits = λ w. decimal w 6 }

abbrev frame : ℕ → ℕ → KinematicTelemetryFrame Micro
frame duration flags = record {
  timestamp_ns = 0;
  loop_duration_us = decimal duration 0;
  condition_number = nought;
  max_torque_saturation_ratio = decimal 5 1;
  safety_flags = flags;
}

abbrev two_frames : List (KinematicTelemetryFrame Micro)
two_frames = frame 100 0 ∷ frame 101 5 ∷ []

-- a worker that runs, with both frames in its queue
abbrev running_worker : TelemetryWorker Micro
running_worker =
    (try_push (try_push (start (new_worker (frame 0 0))).1 (frame 100 0)).1 (frame 101 5)).1

-- 100 falls into the bucket of its own bound, 101 into the next one.
two_buckets :
    (bucket_of {D = Micro} (decimal 100 0) ≡ 1) × (bucket_of {D = Micro} (decimal 101 0) ≡ 2)
unfolding bucket_of
two_buckets = (refl, refl)

stop_sends : (stop numbers micro_bits running_worker).1 ≡ events two_frames
unfolding stop drain_rest start try_push record_frame export_safety_event events Ring.try_pop
    Ring.try_push
stop_sends = refl

stop_drains_example :
    (q : SpscRingBuffer (KinematicTelemetryFrame Micro)) × (contents queue_capacity q ≡ [])
    × (q.drops ≡ 0)
    × (stop numbers micro_bits running_worker
        ≡ record_all numbers micro_bits
            (record running_worker { running = false; queue = q })
            (contents queue_capacity running_worker.queue))
unfolding start try_push Ring.try_push
stop_drains_example = stop_drains numbers micro_bits running_worker refl (omega arith)

abbrev calls : List (Event Micro)
calls =
    loop_execution (decimal 40 0)
    ∷ kinematics_solve (decimal 700 0)
    ∷ deadline_miss
    ∷ loop_execution (decimal 2000 0)
    ∷ []
