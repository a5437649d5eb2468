-- ===== src/Daemon/Heartbeat.antt =====
-- realtime_daemon.cpp: the dead-man's watchdog over the heartbeat of the Python tier.
use neuro_kinetic.Base.{
  ap, ℕ, ◌+◌, ◌-◌, ◌/◌, ◌≤◌, ◌<◌, ◌≡◌, ◌≢◌, ◌∙◌, refl, Bool, true, false, ◌&&◌, ◌==◌, ltb,
  if◌then◌else◌, List, [], ◌∷◌, arith,
}

-- Times are in nanoseconds of the steady clock.
pub record Watchdog : Type 0 where
  pub last_python_heartbeat : ℕ
  pub last_heartbeat_change_time : ℕ
  pub watchdog_tripped : Bool

abbrev pub armed_at : ℕ → Watchdog
armed_at start = record {
  last_python_heartbeat = 0;
  last_heartbeat_change_time = start;
  watchdog_tripped = false;
}

-- `duration_cast<milliseconds>` of a time that is not negative
abbrev pub silent_ms : Watchdog → ℕ → ℕ
silent_ms w now = (now - w.last_heartbeat_change_time) / 1_000_000

-- one tick, at the time `now`, that reads the heartbeat `current`
unfoldable pub check_heartbeat : Watchdog → ℕ → ℕ → Watchdog
check_heartbeat w now current =
    if current == w.last_python_heartbeat
    then (if ltb 150 (silent_ms w now) && ltb 0 w.last_python_heartbeat
        then record w { watchdog_tripped = true }
        else w)
    else record {
      last_python_heartbeat = current;
      last_heartbeat_change_time = now;
      watchdog_tripped = false;
    }

-- the ticks of a run: when each was, and the heartbeat that it read
unfoldable pub watch : Watchdog → List (ℕ × ℕ) → Watchdog
watch w [] = w
watch w ((now, current) ∷ samples) = watch (check_heartbeat w now current) samples

-- the times do not go back
abbrev pub IsMonotone : ℕ → List (ℕ × ℕ) → Type 0
IsMonotone from [] = Unit
IsMonotone from ((now, current) ∷ samples) = (from ≤ now) × IsMonotone now samples

-- the time of the last tick, and the heartbeat that it read
abbrev pub last_time : ℕ → List (ℕ × ℕ) → ℕ
last_time from [] = from
last_time from ((now, current) ∷ samples) = last_time now samples

-- At the time `now` the state of the watchdog is what its clock and heartbeat say.
pub record IsExact (now : ℕ) (w : Watchdog) : Type 0 where
  pub not_ahead : w.last_heartbeat_change_time ≤ now
  pub exact : w.watchdog_tripped ≡ (ltb 150 (silent_ms w now) && ltb 0 w.last_python_heartbeat)

check_heartbeat-IsExact :
    (w : Watchdog) (from now current : ℕ)
    → from ≤ now
    → IsExact from w
    → IsExact now (check_heartbeat w now current)
unfolding check_heartbeat
check_heartbeat-IsExact w from now current h e = ground arith

watch-IsExact :
    (w : Watchdog) (from : ℕ) (samples : List (ℕ × ℕ))
    → IsMonotone from samples
    → IsExact from w
    → IsExact (last_time from samples) (watch w samples)
unfolding watch
watch-IsExact w from [] m e = e
watch-IsExact w from ((now, current) ∷ samples) (h, m) e =
    watch-IsExact (check_heartbeat w now current) now samples m
      (check_heartbeat-IsExact w from now current h e)

-- the heartbeat that was read last, from `beat` on
abbrev pub last_beat : ℕ → List (ℕ × ℕ) → ℕ
last_beat beat [] = beat
last_beat beat ((now, current) ∷ samples) = last_beat current samples

-- when the heartbeat that was read last was first read, of the readings of it that follow one another
abbrev pub first_read : ℕ → ℕ → List (ℕ × ℕ) → ℕ
first_read since beat [] = since
first_read since beat ((now, current) ∷ samples) =
    first_read (if current == beat then since else now) current samples

check_heartbeat-heard :
    (w : Watchdog) (now current : ℕ)
    → ((check_heartbeat w now current).last_python_heartbeat ≡ current)
      × ((check_heartbeat w now current).last_heartbeat_change_time
          ≡ (if current == w.last_python_heartbeat then w.last_heartbeat_change_time else now))
unfolding check_heartbeat
check_heartbeat-heard w now current = ground arith

-- the watchdog remembers the last heartbeat and its first reading
watch-heard :
    (w : Watchdog) (samples : List (ℕ × ℕ))
    → ((watch w samples).last_python_heartbeat ≡ last_beat w.last_python_heartbeat samples)
      × ((watch w samples).last_heartbeat_change_time
          ≡ first_read w.last_heartbeat_change_time w.last_python_heartbeat samples)
unfolding watch
watch-heard w [] = (refl, refl)
watch-heard w ((now, current) ∷ samples) =
    let (beat, since) = check_heartbeat-heard w now current in
    let (last, first) = watch-heard (check_heartbeat w now current) samples in
    (
      last ∙ ap (λ b. last_beat b samples) beat,
      first ∙ (λ i. first_read (since i) (beat i) samples),
    )

-- After any ticks whose times do not go back, the watchdog is tripped exactly if the heartbeat that the
-- last tick read is above 0 and more than 150 whole milliseconds lie between its first reading, from
-- which on all ticks have read the same, and the last tick.
pub tripped_iff_silent :
    (start : ℕ) (samples : List (ℕ × ℕ))
    → IsMonotone start samples
    → (watch (armed_at start) samples).watchdog_tripped ≡ (
        ltb 150 ((last_time start samples - first_read start 0 samples) / 1_000_000)
        && ltb 0 (last_beat 0 samples))
tripped_iff_silent start samples m =
    let (last, first) = watch-heard (armed_at start) samples in
    (watch-IsExact (armed_at start) start samples m (ground arith)).exact
    ∙ (λ i. ltb 150 ((last_time start samples - first i) / 1_000_000) && ltb 0 (last i))

-- the heartbeat stays what it is through all these ticks
abbrev pub IsSilent : ℕ → List (ℕ × ℕ) → Type 0
IsSilent beat [] = Unit
IsSilent beat ((now, current) ∷ samples) = (current ≡ beat) × IsSilent beat samples

check_same :
    (w : Watchdog) (now beat : ℕ)
    → w.last_python_heartbeat ≡ beat
    → ((check_heartbeat w now beat).last_python_heartbeat ≡ beat)
      × ((check_heartbeat w now beat).last_heartbeat_change_time ≡ w.last_heartbeat_change_time)
unfolding check_heartbeat
check_same w now beat e = ground arith

watch_silent :
    (w : Watchdog) (beat : ℕ) (samples : List (ℕ × ℕ))
    → w.last_python_heartbeat ≡ beat
    → IsSilent beat samples
    → ((watch w samples).last_python_heartbeat ≡ beat)
      × ((watch w samples).last_heartbeat_change_time ≡ w.last_heartbeat_change_time)
unfolding watch
watch_silent w beat [] at s = (at, refl)
watch_silent w beat ((now, current) ∷ samples) at (e, s) =
    let (kept, since) = check_same w now beat at in
    let (last, change) = watch_silent (check_heartbeat w now beat) beat samples kept s in
    rw e (last, change ∙ since)

check_new :
    (w : Watchdog) (now beat : ℕ)
    → beat ≢ w.last_python_heartbeat
    → check_heartbeat w now beat ≡ record {
      last_python_heartbeat = beat;
      last_heartbeat_change_time = now;
      watchdog_tripped = false;
    }
unfolding check_heartbeat
check_new w now beat new = ground arith

-- The fail-safe engages: once a heartbeat above 0 has been read at the time `now`, ticks that read the
-- same heartbeat, at times that do not go back and end 151 ms or more after `now`, trip the watchdog;
-- if they end within 150 ms they leave it as it was then, not tripped.
pub silence_trips :
    (w : Watchdog) (now beat : ℕ) (samples : List (ℕ × ℕ))
    → beat ≢ w.last_python_heartbeat
    → 0 < beat
    → IsMonotone now samples
    → IsSilent beat samples
    → (now + 151_000_000 ≤ last_time now samples
        → (watch w ((now, beat) ∷ samples)).watchdog_tripped ≡ true)
      × (last_time now samples < now + 151_000_000
          → (watch w ((now, beat) ∷ samples)).watchdog_tripped ≡ false)
unfolding watch
silence_trips w now beat samples new above m s =
    let fresh : Watchdog = record {
      last_python_heartbeat = beat;
      last_heartbeat_change_time = now;
      watchdog_tripped = false;
    } in
    let (last, change) = watch_silent fresh beat samples refl s in
    let tripped = (watch-IsExact fresh now samples m (ground arith)).exact in
    rw (watch, check_new w now beat new) (ground (arith, tripped, last, change))
