-- ===== src/Daemon/Session/Interventions.antt =====
-- What a session has to report: the interventions of its rounds.
use neuro_kinetic.Base.{
  Bool, ℕ, ◌+◌, ◌≤◌, ◌<◌, ◌^◌, if◌then◌else◌, List, [], ◌∷◌, ◌++◌, All, arith, Bool-cases, inl, inr,
  ◌≡◌, true,
}
use neuro_kinetic.Double.{Double}
use neuro_kinetic.Kernel.{LdltSolve, SafetyOutput}
use neuro_kinetic.Recorder.{InterventionRecord}
use neuro_kinetic.Recorder.Bytes.{FloatBits, InRange}
use neuro_kinetic.Recorder.Store.{RocksDb}
use neuro_kinetic.Recorder.Log.{log_cbf_intervention}
use neuro_kinetic.Telemetry.{Numbers}
use neuro_kinetic.Daemon.{Casts, Daemon, Inputs}
use neuro_kinetic.Daemon.Tick.{tick, tick_watchdog, tick_nominal, tick_result, value_or_stop}
use neuro_kinetic.Daemon.Session.{Event, round, worker_turn, signal, Session, happen}

-- A round has a time that is not before `now`.
abbrev pub IsTimed : {D F : Type 0} → ℕ → Event D F → Type 0
IsTimed now (round x) = (now ≤ x.current_ts) × (x.current_ts < 2 ^ 64)
IsTimed now worker_turn = Unit
IsTimed now signal = Unit

abbrev pub time_after : {D F : Type 0} → ℕ → Event D F → ℕ
time_after now (round x) = x.current_ts + 1
time_after now worker_turn = now
time_after now signal = now

-- The clock does not stand still: each round has a later time than the one before, from `now` on.
abbrev pub IsClocked : {D F : Type 0} → ℕ → List (Event D F) → Type 0
IsClocked now [] = Unit
IsClocked now (e ∷ events) = IsTimed now e × IsClocked (time_after now e) events

module _ {F : Type 0} (fb : FloatBits F) where
  All-append :
      (a b : List (InterventionRecord F))
      → All (InRange fb) a
      → All (InRange fb) b
      → All (InRange fb) (a ++ b)
  All-append [] b all rest = rest
  All-append (x ∷ a) b (here, all) rest = (here, All-append a b all rest)

module _ {S D F : Type 0} ⦃d : Double D⦄ ⦃f : Double F⦄ (casts : Casts D F) (rocks : RocksDb S)
    (fb : FloatBits F) (ldlt_solve : LdltSolve D) where
  abbrev pub safety_of : Daemon S D F → Inputs D F → SafetyOutput D
  safety_of m x = value_or_stop casts (tick_result casts rocks fb ldlt_solve m x)

  -- what a round that intervenes has to report
  abbrev pub report_of : Daemon S D F → Inputs D F → InterventionRecord F
  report_of m x = record {
    sequence_number = m.tick_count;
    timestamp_ns = x.current_ts;
    barrier_margin = casts.to_float (safety_of m x).barrier_margin;
    commanded_joint5_torque = casts.to_float (tick_nominal casts rocks fb ldlt_solve m x 5);
    safe_joint5_torque = casts.to_float ((safety_of m x).safe_torque 5);
    active_mask = if (tick_watchdog casts rocks fb ldlt_solve m x).watchdog_tripped then 2 else 1;
  }

  abbrev pub reported : Daemon S D F → Inputs D F → List (InterventionRecord F)
  reported m x = if (safety_of m x).intervention_triggered then report_of m x ∷ [] else []

  abbrev pub reported_by : Session S D F → Event D F → List (InterventionRecord F)
  reported_by s (round x) = if s.g_running then reported s.daemon x else []
  reported_by s worker_turn = []
  reported_by s signal = []

  reported-InRange :
      (m : Daemon S D F) (x : Inputs D F)
      → m.tick_count < 2 ^ 64
      → x.current_ts < 2 ^ 64
      → All (InRange fb) (reported m x)
  reported-InRange m x small fits = elim (Bool-cases (safety_of m x).intervention_triggered) [
    | inl on ↦
        rw on (record { sequence_in = small; timestamp_in = fits; mask_in = ground arith }, tt)
    | inr off ↦ rw off tt
  ]

  -- what `log_cbf_intervention` returns, where it is called
  abbrev pub is_logged : Daemon S D F → Inputs D F → Bool
  is_logged m x =
      if (safety_of m x).intervention_triggered
      then (log_cbf_intervention rocks fb m.recorder (report_of m x)).0
      else true

  abbrev pub is_logged_by : Session S D F → Event D F → Bool
  is_logged_by s (round x) = if s.g_running then is_logged s.daemon x else true
  is_logged_by s worker_turn = true
  is_logged_by s signal = true

  reported_by-InRange :
      (now : ℕ) (s : Session S D F) (e : Event D F)
      → s.daemon.tick_count < 2 ^ 64
      → IsTimed now e
      → All (InRange fb) (reported_by s e)
  reported_by-InRange now s (round x) small (at, fits) = elim (Bool-cases s.g_running) [
    | inl on ↦ rw on (reported-InRange s.daemon x small fits)
    | inr off ↦ rw off tt
  ]
  reported_by-InRange now s worker_turn small timed = tt
  reported_by-InRange now s signal small timed = tt

module _ {S D F : Type 0} ⦃d : Double D⦄ ⦃f : Double F⦄ (casts : Casts D F) (numbers : Numbers D F)
    (rocks : RocksDb S) (fb : FloatBits F) (ldlt_solve : LdltSolve D) where
  -- Every call of `log_cbf_intervention` in the session returns `true`.
  abbrev pub IsLogged : Session S D F → List (Event D F) → Type 0
  IsLogged s [] = Unit
  IsLogged s (e ∷ events) =
      (is_logged_by casts rocks fb ldlt_solve s e ≡ true)
      × IsLogged (happen casts numbers rocks fb ldlt_solve s e) events

  -- The interventions of a session, newest first: one for each round before the first signal in which
  -- the kernel intervened, or failed.
  unfoldable pub interventions : Session S D F → List (Event D F) → List (InterventionRecord F)
  interventions s [] = []
  interventions s (e ∷ events) =
      interventions (happen casts numbers rocks fb ldlt_solve s e) events
      ++ reported_by casts rocks fb ldlt_solve s e

  happen-count :
      (s : Session S D F) (e : Event D F)
      → s.daemon.tick_count < 2 ^ 64
      → (happen casts numbers rocks fb ldlt_solve s e).daemon.tick_count < 2 ^ 64
  unfolding happen tick
  happen-count s (round x) small = ground arith
  happen-count s worker_turn small = small
  happen-count s signal small = small

  pub interventions-InRange :
      (now : ℕ) (s : Session S D F) (events : List (Event D F))
      → s.daemon.tick_count < 2 ^ 64
      → IsClocked now events
      → All (InRange fb) (interventions s events)
  unfolding interventions
  interventions-InRange now s [] small clock = tt
  interventions-InRange now s (e ∷ events) small (timed, clock) =
      let next = happen casts numbers rocks fb ldlt_solve s e in
      All-append fb (interventions next events) (reported_by casts rocks fb ldlt_solve s e)
        (interventions-InRange (time_after now e) next events (happen-count s e small) clock)
        (reported_by-InRange casts rocks fb ldlt_solve now s e small timed)
