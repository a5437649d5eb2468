-- ===== src/Telemetry/Worker.antt =====
-- telemetry_worker.cpp: `class TelemetryWorker`, without its sockets and the texts that go through
-- them, which Telemetry.Sockets and Telemetry.Text have.
pub mod Drain
pub mod Totals
pub mod Accounts
pub mod Exports
use neuro_kinetic.Base.{
  ℕ, zero, suc, ◌+◌, ◌*◌, ◌/◌, ◌%◌, ◌==◌, Bool, true, false, not, if◌then◌else◌, Option, none, some,
  List, [], ◌∷◌, ◌++◌,
}
use neuro_kinetic.Base.Word.{add64}
use neuro_kinetic.Double.{Double}
use neuro_kinetic.Ring.{SpscRingBuffer, KinematicTelemetryFrame, fresh, dropped}
use neuro_kinetic.Ring as Ring
use neuro_kinetic.Recorder.Bytes.{FloatBits}
use neuro_kinetic.Telemetry.{Numbers, TelemetryWorker, Export, trace_event, json_event}
use neuro_kinetic.Telemetry.Histogram.{bucket_of, increment_at, cumulative}

-- the capacity of `queue_`
abbrev pub queue_capacity : ℕ
queue_capacity = 4096

-- bit `k` of a word
abbrev pub flag : ℕ → ℕ → Bool
flag zero flags = flags % 2 == 1
flag (suc k) flags = flag k (flags / 2)

-- `fetch_add(1)` of the counter of bit `k`, if a frame has it
abbrev pub count_flag : ℕ → ℕ → (ℕ → ℕ) → ℕ → ℕ
count_flag k flags counters = if flag k flags then increment_at counters k else counters

module _ {F : Type 0} where
  -- the constructor; a frame of zeros is in every slot
  abbrev pub new_worker : KinematicTelemetryFrame F → TelemetryWorker F
  new_worker blank = record {
    queue = fresh blank;
    running = false;
    loop_samples = 0;
    loop_sum_us = 0;
    loop_buckets = λ _. 0;
    condition_number_bits = 0;
    torque_ratio_bits = 0;
    safety_violations = λ _. 0;
    exported_events = 0;
  }

  -- The result is whether this call starts the threads.
  unfoldable pub start : TelemetryWorker F → Bool × TelemetryWorker F
  start w = if w.running then (false, w) else (true, record w { running = true })

  unfoldable pub try_push : TelemetryWorker F → KinematicTelemetryFrame F → Bool × TelemetryWorker F
  try_push w frame =
      let (done, queue) = Ring.try_push queue_capacity w.queue frame in
      (done, record w { queue = queue })

  unfoldable pub export_safety_event :
      TelemetryWorker F → KinematicTelemetryFrame F → TelemetryWorker F × List (Export F)
  export_safety_event w frame = (
    record w { exported_events = add64 w.exported_events 1 },
    trace_event frame ∷ json_event frame ∷ [],
  )

-- The numbers that `metrics_loop` answers a scrape with.
pub record Scrape (D F : Type 0) : Type 0 where
  pub loop_duration_count : ℕ
  pub loop_duration_sum : D
  pub loop_duration_bucket : ℕ → ℕ
  pub condition_number : F
  pub torque_saturation_ratio : F
  pub safety_violations_total : ℕ → ℕ
  pub telemetry_drops_total : ℕ

module _ {D F : Type 0} ⦃d : Double D⦄ ⦃f : Double F⦄ (numbers : Numbers D F)
    (fb : FloatBits F) where
  open f use {mul, decimal}

  -- what `record` does before it looks at the flags
  abbrev pub record_sample : TelemetryWorker F → KinematicTelemetryFrame F → TelemetryWorker F
  record_sample w frame = record w {
    loop_samples = add64 w.loop_samples 1;
    loop_sum_us =
        add64 w.loop_sum_us (numbers.to_u64 (mul frame.loop_duration_us (decimal 10000 1)));
    loop_buckets = increment_at w.loop_buckets (bucket_of frame.loop_duration_us);
    condition_number_bits = fb.bits frame.condition_number;
    torque_ratio_bits = fb.bits frame.max_torque_saturation_ratio;
  }

  -- `record`
  unfoldable pub record_frame :
      TelemetryWorker F → KinematicTelemetryFrame F → TelemetryWorker F × List (Export F)
  record_frame w frame =
      let sampled = record_sample w frame in
      let flags = frame.safety_flags in
      if flags == 0
      then (sampled, [])
      else export_safety_event
          (record sampled {
            safety_violations =
                count_flag 2 flags (count_flag 1 flags (count_flag 0 flags w.safety_violations));
          })
          frame

  -- One turn of the first loop of `drain_loop`.
  unfoldable pub drain_turn : TelemetryWorker F → TelemetryWorker F × List (Export F)
  drain_turn w =
      let (out, queue) = Ring.try_pop queue_capacity w.queue in
      elim out [ none ↦ (w, []) | some frame ↦ record_frame (record w { queue = queue }) frame ]

  -- The second loop of `drain_loop`, for as many turns as the first argument says.
  unfoldable pub drain_rest : ℕ → TelemetryWorker F → TelemetryWorker F × List (Export F)
  drain_rest zero w = (w, [])
  drain_rest (suc turns) w =
      let (out, queue) = Ring.try_pop queue_capacity w.queue in
      elim out [
        | none ↦ (w, [])
        | some frame ↦
            let (recorded, sent) = record_frame (record w { queue = queue }) frame in
            let (done, later) = drain_rest turns recorded in (done, sent ++ later)
      ]

  -- `stop`, where the producer has stopped before: `join` waits for the second loop.
  unfoldable pub stop : TelemetryWorker F → TelemetryWorker F × List (Export F)
  stop w = if w.running then drain_rest queue_capacity (record w { running = false }) else (w, [])

  unfoldable pub scrape : TelemetryWorker F → Scrape D F
  scrape w = record {
    loop_duration_count = w.loop_samples;
    loop_duration_sum = d.div (numbers.of_u64 w.loop_sum_us) (d.decimal 10000 1);
    loop_duration_bucket = cumulative w.loop_buckets;
    condition_number = fb.of_bits w.condition_number_bits;
    torque_saturation_ratio = fb.of_bits w.torque_ratio_bits;
    safety_violations_total = w.safety_violations;
    telemetry_drops_total = dropped w.queue;
  }
