-- ===== src/Telemetry/Text/Prometheus.antt =====
-- From the calls of the metrics to what a reader finds in `prometheus_text`.
use neuro_kinetic.Base.{
  ℕ, zero, suc, ◌%◌, ◌^◌, ◌≤◌, ◌≡◌, refl, some, List, ◌++◌, length, arith, ap, ◌∙◌,
}
use neuro_kinetic.Base.Text.{Bytes, codes}
use neuro_kinetic.Double.{Double}
use neuro_kinetic.Double.Laws.{IsMonotone}
use neuro_kinetic.Recorder.Decimal.{to_decimal}
use neuro_kinetic.Telemetry.{Numbers}
use neuro_kinetic.Telemetry.Histogram.{count_within, cumulative}
use neuro_kinetic.Telemetry.Metrics.{
  Metrics, Event, new_metrics, observe_all, loop_durations, solve_durations, misses, stops,
  prometheus_histograms, counters-observe_all,
}
use neuro_kinetic.Telemetry.Exposition.{samples}
use neuro_kinetic.Telemetry.Text.{Printer, IsPrinter, bucket_name, metrics_lines, prometheus_text}
use neuro_kinetic.Telemetry.Text.Reading.{count_of, count_of-render, find, metrics_lines-IsLine}
use neuro_kinetic.Telemetry.Text.EndToEnd.{bound_name}

abbrev pub loop_name : Bytes
loop_name = codes "neurokinetic_loop_execution_duration_us"

abbrev pub solve_name : Bytes
solve_name = codes "neurokinetic_kinematics_solve_duration_us"

module _ {D F : Type 0} ⦃d : Double D⦄ (numbers : Numbers D F) (printer : Printer D F) where
  -- The two buckets of one bound, and the four plain counts, are found under their names.
  find-buckets :
      (m : Metrics) (index : ℕ)
      → index ≤ 5
      → let found = samples (metrics_lines numbers printer m) in
        let at = bound_name index in
        (find (bucket_name loop_name at) found
          ≡ some (to_decimal (cumulative m.loop_buckets index)))
        × (find (bucket_name solve_name at) found
            ≡ some (to_decimal (cumulative m.solve_buckets index)))
  unfolding metrics_lines
  find-buckets m zero h = (refl, refl)
  find-buckets m (suc zero) h = (refl, refl)
  find-buckets m (suc (suc zero)) h = (refl, refl)
  find-buckets m (suc (suc (suc zero))) h = (refl, refl)
  find-buckets m (suc (suc (suc (suc zero)))) h = (refl, refl)
  find-buckets m (suc (suc (suc (suc (suc zero))))) h = (refl, refl)
  find-buckets m (suc (suc (suc (suc (suc (suc index)))))) h = absurd (omega arith)

  find-counts :
      (m : Metrics)
      → let found = samples (metrics_lines numbers printer m) in
        (find (loop_name ++ codes "_count") found ≡ some (to_decimal (cumulative m.loop_buckets 5)))
        × (find (solve_name ++ codes "_count") found
            ≡ some (to_decimal (cumulative m.solve_buckets 5)))
        × (find (codes "neurokinetic_deadline_misses_total") found
            ≡ some (to_decimal m.deadline_misses))
        × (find (codes "neurokinetic_emergency_stops_total") found
            ≡ some (to_decimal m.emergency_stops))
  unfolding metrics_lines
  find-counts m = (refl, refl, refl, refl)

  -- From the calls to the text: after any sequence of calls on new metrics, a reader of
  -- `prometheus_text` finds in either histogram, under the label of a bound, the number of that
  -- histogram's values within the bound, and under its count the number of all of them, and it finds
  -- the numbers of deadline misses and of emergency stops; all modulo 2^64. The printed numbers have no
  -- line feeds.
  pub metrics_reads :
      IsPrinter D F printer
      → IsMonotone D
      → (events : List (Event D)) (index : ℕ) → index ≤ 5
      → let text = prometheus_text numbers printer (observe_all numbers new_metrics events) in
        let at = bound_name index in
        let loops = loop_durations events in
        let solves = solve_durations events in
        (count_of (bucket_name loop_name at) text ≡ some (count_within index loops % 2 ^ 64))
        × (count_of (loop_name ++ codes "_count") text ≡ some (length loops % 2 ^ 64))
        × (count_of (bucket_name solve_name at) text ≡ some (count_within index solves % 2 ^ 64))
        × (count_of (solve_name ++ codes "_count") text ≡ some (length solves % 2 ^ 64))
        × (count_of (codes "neurokinetic_deadline_misses_total") text
            ≡ some (misses events % 2 ^ 64))
        × (count_of (codes "neurokinetic_emergency_stops_total") text
            ≡ some (stops events % 2 ^ 64))
  unfolding prometheus_text
  metrics_reads one_line mono events index h =
      let m = observe_all numbers new_metrics events in
      let lines = metrics_lines numbers printer m in
      let read = λ (name : Bytes) (n : ℕ).
        count_of-render lines name n (metrics_lines-IsLine numbers printer one_line m) in
      let (loop, loops, solve, solves) = prometheus_histograms numbers mono events index h in
      let (missed, stopped) =
        counters-observe_all numbers new_metrics events (omega arith) (omega arith) in
      let (found_loop, found_solve) = find-buckets m index h in
      let (found_loops, found_solves, found_misses, found_stops) = find-counts m in
      (
        read _ _ (omega (arith, loop)) found_loop ∙ ap some loop,
        read _ _ (omega (arith, loops)) found_loops ∙ ap some loops,
        read _ _ (omega (arith, solve)) found_solve ∙ ap some solve,
        read _ _ (omega (arith, solves)) found_solves ∙ ap some solves,
        read _ _ (omega (arith, missed)) found_misses ∙ ap some (omega (arith, missed)),
        read _ _ (omega (arith, stopped)) found_stops ∙ ap some (omega (arith, stopped)),
      )
