-- ===== src/Telemetry/Metrics.antt =====
-- metrics.cpp: `class Metrics`.
use neuro_kinetic.Base.{
  ℕ, ◌%◌, ◌^◌, ◌≡◌, ◌≤◌, ◌<◌, refl, List, [], ◌∷◌, length, arith, ap, ◌∙◌, ◌+◌,
}
use neuro_kinetic.Base.Word.{add64}
use neuro_kinetic.Double.{Double, nought, maximum}
use neuro_kinetic.Double.Laws.{IsMonotone}
use neuro_kinetic.Telemetry.{Numbers}
use neuro_kinetic.Telemetry.Histogram.{
  bucket_of, increment_at, cumulative, counted, count_within, cumulative-new, count_within-5,
}

-- `class Metrics`
pub record Metrics : Type 0 where
  pub loop_buckets : ℕ → ℕ
  pub solve_buckets : ℕ → ℕ
  pub loop_sum_milli_us : ℕ
  pub solve_sum_milli_us : ℕ
  pub deadline_misses : ℕ
  pub emergency_stops : ℕ

abbrev pub new_metrics : Metrics
new_metrics = record {
  loop_buckets = λ _. 0;
  solve_buckets = λ _. 0;
  loop_sum_milli_us = 0;
  solve_sum_milli_us = 0;
  deadline_misses = 0;
  emergency_stops = 0;
}

unfoldable pub increment_deadline_misses : Metrics → Metrics
increment_deadline_misses m = record m { deadline_misses = add64 m.deadline_misses 1 }

unfoldable pub increment_emergency_stops : Metrics → Metrics
increment_emergency_stops m = record m { emergency_stops = add64 m.emergency_stops 1 }

-- A call of a client.
pub data Event (D : Type 0) : Type 0 where
  loop_execution kinematics_solve : D → Event D
  deadline_miss emergency_stop : Event D

module _ {D F : Type 0} ⦃d : Double D⦄ (numbers : Numbers D F) where
  -- `observe`: the buckets and the sum after a value
  unfoldable pub observe : (ℕ → ℕ) → ℕ → D → (ℕ → ℕ) × ℕ
  observe buckets sum value = (
    increment_at buckets (bucket_of value),
    add64 sum (numbers.double_to_u64 (d.mul (maximum nought value) (d.decimal 10000 1))),
  )

  unfoldable pub observe_loop_execution_duration_us : Metrics → D → Metrics
  unfolding observe
  observe_loop_execution_duration_us m value =
      let (buckets, sum) = observe m.loop_buckets m.loop_sum_milli_us value in
      record m { loop_buckets = buckets; loop_sum_milli_us = sum }

  unfoldable pub observe_kinematics_solve_duration_us : Metrics → D → Metrics
  unfolding observe
  observe_kinematics_solve_duration_us m value =
      let (buckets, sum) = observe m.solve_buckets m.solve_sum_milli_us value in
      record m { solve_buckets = buckets; solve_sum_milli_us = sum }

  -- the effect of a sequence of calls
  unfoldable pub observe_all : Metrics → List (Event D) → Metrics
  observe_all m [] = m
  observe_all m (loop_execution value ∷ events) =
      observe_all (observe_loop_execution_duration_us m value) events
  observe_all m (kinematics_solve value ∷ events) =
      observe_all (observe_kinematics_solve_duration_us m value) events
  observe_all m (deadline_miss ∷ events) = observe_all (increment_deadline_misses m) events
  observe_all m (emergency_stop ∷ events) = observe_all (increment_emergency_stops m) events

-- the durations of each kind among the calls, in their order
abbrev pub loop_durations : {D : Type 0} → List (Event D) → List D
loop_durations [] = []
loop_durations (loop_execution value ∷ events) = value ∷ loop_durations events
loop_durations (kinematics_solve value ∷ events) = loop_durations events
loop_durations (deadline_miss ∷ events) = loop_durations events
loop_durations (emergency_stop ∷ events) = loop_durations events

abbrev pub solve_durations : {D : Type 0} → List (Event D) → List D
solve_durations [] = []
solve_durations (loop_execution value ∷ events) = solve_durations events
solve_durations (kinematics_solve value ∷ events) = value ∷ solve_durations events
solve_durations (deadline_miss ∷ events) = solve_durations events
solve_durations (emergency_stop ∷ events) = solve_durations events

-- how many deadline misses and how many emergency stops there are
abbrev pub misses : {D : Type 0} → List (Event D) → ℕ
misses [] = 0
misses (loop_execution value ∷ events) = misses events
misses (kinematics_solve value ∷ events) = misses events
misses (deadline_miss ∷ events) = 1 + misses events
misses (emergency_stop ∷ events) = misses events

abbrev pub stops : {D : Type 0} → List (Event D) → ℕ
stops [] = 0
stops (loop_execution value ∷ events) = stops events
stops (kinematics_solve value ∷ events) = stops events
stops (deadline_miss ∷ events) = stops events
stops (emergency_stop ∷ events) = 1 + stops events

-- The numbers of a histogram in `prometheus_text`: the bucket of each label, and the count.
pub record HistogramText : Type 0 where
  pub bucket : ℕ → ℕ
  pub count : ℕ

abbrev pub histogram : (ℕ → ℕ) → HistogramText
histogram buckets = record { bucket = cumulative buckets; count = cumulative buckets 5 }

module _ {D F : Type 0} ⦃d : Double D⦄ (numbers : Numbers D F) where
  loop_buckets-observe_all :
      (m : Metrics) (events : List (Event D))
      → (observe_all numbers m events).loop_buckets ≡ counted m.loop_buckets (loop_durations events)
  unfolding observe_all observe_loop_execution_duration_us observe counted
      observe_kinematics_solve_duration_us increment_deadline_misses increment_emergency_stops
  loop_buckets-observe_all m [] = refl
  loop_buckets-observe_all m (loop_execution value ∷ events) =
      loop_buckets-observe_all (observe_loop_execution_duration_us numbers m value) events
  loop_buckets-observe_all m (kinematics_solve value ∷ events) =
      loop_buckets-observe_all (observe_kinematics_solve_duration_us numbers m value) events
  loop_buckets-observe_all m (deadline_miss ∷ events) =
      loop_buckets-observe_all (increment_deadline_misses m) events
  loop_buckets-observe_all m (emergency_stop ∷ events) =
      loop_buckets-observe_all (increment_emergency_stops m) events

  solve_buckets-observe_all :
      (m : Metrics) (events : List (Event D))
      → (observe_all numbers m events).solve_buckets
        ≡ counted m.solve_buckets (solve_durations events)
  unfolding observe_all observe_loop_execution_duration_us observe counted
      observe_kinematics_solve_duration_us increment_deadline_misses increment_emergency_stops
  solve_buckets-observe_all m [] = refl
  solve_buckets-observe_all m (loop_execution value ∷ events) =
      solve_buckets-observe_all (observe_loop_execution_duration_us numbers m value) events
  solve_buckets-observe_all m (kinematics_solve value ∷ events) =
      solve_buckets-observe_all (observe_kinematics_solve_duration_us numbers m value) events
  solve_buckets-observe_all m (deadline_miss ∷ events) =
      solve_buckets-observe_all (increment_deadline_misses m) events
  solve_buckets-observe_all m (emergency_stop ∷ events) =
      solve_buckets-observe_all (increment_emergency_stops m) events

  -- Each of the two plain counters counts its calls, modulo 2^64.
  pub counters-observe_all :
      (m : Metrics) (events : List (Event D))
      → m.deadline_misses < 2 ^ 64
      → m.emergency_stops < 2 ^ 64
      → let after = observe_all numbers m events in
        (after.deadline_misses ≡ (m.deadline_misses + misses events) % 2 ^ 64)
        × (after.emergency_stops ≡ (m.emergency_stops + stops events) % 2 ^ 64)
  unfolding observe_all observe_loop_execution_duration_us observe
      observe_kinematics_solve_duration_us increment_deadline_misses increment_emergency_stops
  counters-observe_all m [] hm hs = (omega arith, omega arith)
  counters-observe_all m (loop_execution value ∷ events) hm hs =
      counters-observe_all (observe_loop_execution_duration_us numbers m value) events hm hs
  counters-observe_all m (kinematics_solve value ∷ events) hm hs =
      counters-observe_all (observe_kinematics_solve_duration_us numbers m value) events hm hs
  counters-observe_all m (deadline_miss ∷ events) hm hs =
      let (missed, stopped) =
        counters-observe_all (increment_deadline_misses m) events (omega arith) hs in
      (omega (arith, missed), stopped)
  counters-observe_all m (emergency_stop ∷ events) hm hs =
      let (missed, stopped) =
        counters-observe_all (increment_emergency_stops m) events hm (omega arith) in
      (missed, omega (arith, stopped))

  -- The two histograms are kept apart and right: after any sequence of calls on new metrics, the
  -- bucket of each bound counts the values of its own histogram that are at most that bound, and the
  -- count is the number of all its values; all of them modulo 2^64.
  pub prometheus_histograms :
      IsMonotone D
      → (events : List (Event D)) (index : ℕ) → index ≤ 5
      → let m = observe_all numbers new_metrics events in
        ((histogram m.loop_buckets).bucket index
          ≡ count_within index (loop_durations events) % 2 ^ 64)
        × ((histogram m.loop_buckets).count ≡ length (loop_durations events) % 2 ^ 64)
        × ((histogram m.solve_buckets).bucket index
            ≡ count_within index (solve_durations events) % 2 ^ 64)
        × ((histogram m.solve_buckets).count ≡ length (solve_durations events) % 2 ^ 64)
  prometheus_histograms mono events index h =
      let loops = loop_durations events in
      let solves = solve_durations events in
      (
        ap (λ b. cumulative b index) (loop_buckets-observe_all new_metrics events)
            ∙ cumulative-new mono loops index h,
        ap (λ b. cumulative b 5) (loop_buckets-observe_all new_metrics events)
            ∙ cumulative-new mono loops 5 (omega arith)
            ∙ ap (λ n. n % 2 ^ 64) (count_within-5 loops),
        ap (λ b. cumulative b index) (solve_buckets-observe_all new_metrics events)
            ∙ cumulative-new mono solves index h,
        ap (λ b. cumulative b 5) (solve_buckets-observe_all new_metrics events)
            ∙ cumulative-new mono solves 5 (omega arith)
            ∙ ap (λ n. n % 2 ^ 64) (count_within-5 solves),
      )
