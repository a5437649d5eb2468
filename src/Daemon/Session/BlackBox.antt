-- ===== src/Daemon/Session/BlackBox.antt =====
-- From `main` to read_incidents.cpp: what the reader shows after a session.
use neuro_kinetic.Base.{
  ℕ, ◌+◌, ◌≤◌, ◌<◌, ◌^◌, ◌≡◌, refl, true, ◌&&◌, some, List, [], ◌∷◌, ◌++◌, append_assoc, map, take,
  All, arith, ap, sym, subst, ◌∙◌, Bool-cases, inl, inr,
}
use mathlib.Core.List.{reverse, map-append}
use neuro_kinetic.Double.{Double}
use neuro_kinetic.Kernel.{LdltSolve}
use neuro_kinetic.Recorder.{ColumnFamily}
use neuro_kinetic.Recorder.Bytes.{FloatBits, IsBitCast}
use neuro_kinetic.Recorder.Store.{Bytes, RocksDb, IsStore}
use neuro_kinetic.Recorder.Log.{destroy, open_recorder}
use neuro_kinetic.Recorder.Reader.{incidents}
use neuro_kinetic.Recorder.Reader.Latest.{WasLogged}
use neuro_kinetic.Recorder.Reader.History.{
  IsStoring, entry, shown_as, log-IsStoring, flush-IsStoring, incidents-map, destroy-IsStoring,
  IsStoring-later,
}
use neuro_kinetic.Telemetry.{Numbers}
use neuro_kinetic.Daemon.{Casts, Daemon, Inputs}
use neuro_kinetic.Daemon.Tick.{tick, record_intervention}
use neuro_kinetic.Daemon.Start.{boot}
use neuro_kinetic.Daemon.Session.{
  Event, round, worker_turn, signal, Session, Host, begin, happen, happen_all, shut_down, main,
}
use neuro_kinetic.Daemon.Session.Accounts.{main_runs}
use neuro_kinetic.Daemon.Session.Interventions.{
  IsTimed, IsClocked, time_after, reported, reported_by, is_logged, is_logged_by, IsLogged,
  interventions, interventions-InRange, report_of, safety_of,
}

module _ {S D F : Type 0} ⦃d : Double D⦄ ⦃f : Double F⦄ (casts : Casts D F) (numbers : Numbers D F)
    (rocks : RocksDb S) (fb : FloatBits F) (ldlt_solve : LdltSolve D) where
  begin-count : (h : Host S D F) → (begin h).daemon.tick_count < 2 ^ 64
  unfolding begin boot
  begin-count h = omega arith

  module _ (laws : IsStore S rocks) where
    tick-IsStoring :
        (now : ℕ) (l : List (Bytes × Bytes)) (m : Daemon S D F) (x : Inputs D F)
        → now ≤ x.current_ts
        → x.current_ts < 2 ^ 64
        → is_logged casts rocks fb ldlt_solve m x ≡ true
        → IsStoring rocks fb now l m.recorder
        → IsStoring rocks fb
            (x.current_ts + 1)
            (map (entry rocks fb) (reported casts rocks fb ldlt_solve m x) ++ l)
            (tick casts rocks fb ldlt_solve m x).recorder
    unfolding tick record_intervention
    tick-IsStoring now l m x at small ok h =
        elim (Bool-cases (safety_of casts rocks fb ldlt_solve m x).intervention_triggered) [
          | inl on ↦ rw on (
              log-IsStoring rocks fb laws now l m.recorder (report_of casts rocks fb ldlt_solve m x)
                at small (rw on at ok) h)
          | inr off ↦
              rw off (IsStoring-later rocks fb now (x.current_ts + 1) l m.recorder (omega arith) h)
        ]

    happen-IsStoring :
        (now : ℕ) (l : List (Bytes × Bytes)) (s : Session S D F) (e : Event D F)
        → IsTimed now e
        → is_logged_by casts rocks fb ldlt_solve s e ≡ true
        → IsStoring rocks fb now l s.daemon.recorder
        → IsStoring rocks fb
            (time_after now e)
            (map (entry rocks fb) (reported_by casts rocks fb ldlt_solve s e) ++ l)
            (happen casts numbers rocks fb ldlt_solve s e).daemon.recorder
    unfolding happen
    happen-IsStoring now l s (round x) (at, small) ok h = elim (Bool-cases s.g_running) [
      | inl on ↦ rw on (tick-IsStoring now l s.daemon x at small (rw on at ok) h)
      | inr off ↦
          rw off
            (IsStoring-later rocks fb now (x.current_ts + 1) l s.daemon.recorder (omega arith) h)
    ]
    happen-IsStoring now l s worker_turn timed ok h = h
    happen-IsStoring now l s signal timed ok h = h

    happen_all-IsStoring :
        (now : ℕ) (l : List (Bytes × Bytes)) (s : Session S D F) (events : List (Event D F))
        → IsClocked now events
        → IsLogged casts numbers rocks fb ldlt_solve s events
        → IsStoring rocks fb now l s.daemon.recorder
        → (later : ℕ) × IsStoring rocks fb later
            (map (entry rocks fb) (interventions casts numbers rocks fb ldlt_solve s events) ++ l)
            (happen_all casts numbers rocks fb ldlt_solve s events).daemon.recorder
    unfolding happen_all interventions
    happen_all-IsStoring now l s [] clock ok h = (now, h)
    happen_all-IsStoring now l s (e ∷ events) (timed, clock) (ok, all_ok) h =
        let next = happen casts numbers rocks fb ldlt_solve s e in
        let here = map (entry rocks fb) (reported_by casts rocks fb ldlt_solve s e) in
        let (later, rest) =
          happen_all-IsStoring (time_after now e) (here ++ l) next events clock all_ok
            (happen-IsStoring now l s e timed ok h) in
        (
          later,
          subst
              (λ z.
                IsStoring rocks fb later z
                  (happen_all casts numbers rocks fb ldlt_solve next events).daemon.recorder)
              (sym (
                  append_assoc
                    (map (entry rocks fb)
                      (interventions casts numbers rocks fb ldlt_solve next events))
                    here l)
                ∙ ap (λ z. z ++ l)
                    (sym (
                      map-append (entry rocks fb)
                        (interventions casts numbers rocks fb ldlt_solve next events)
                        (reported_by casts rocks fb ldlt_solve s e))))
              rest,
        )

    begin-IsStoring :
        (h : Host S D F) (old : S) (now : ℕ)
        → h.opened ≡ some old
        → All (WasLogged now) (rocks.entries old ColumnFamily.cf_cbf_interventions)
        → IsStoring rocks fb now
            (reverse (rocks.entries old ColumnFamily.cf_cbf_interventions))
            (begin h).daemon.recorder
    unfolding begin boot
    begin-IsStoring h old now opened earlier = record {
      state = old;
      opened = ap open_recorder opened;
      newest_first = refl;
      earlier = earlier;
    }

    shut_down-IsStoring :
        (now : ℕ) (l : List (Bytes × Bytes)) (s : Session S D F)
        → IsStoring rocks fb now l s.daemon.recorder
        → IsStoring rocks fb now l (shut_down casts numbers rocks fb ldlt_solve s).daemon.recorder
    unfolding shut_down
    shut_down-IsStoring now l s h = flush-IsStoring rocks fb laws now l s.daemon.recorder h

    -- From the daemon to read_incidents: let `main` set its segment up and open the database in a state
    -- `old`, whose interventions were all logged before a time `now`, let the clock never stand still
    -- from `now` on, and let every call of `log_cbf_intervention` in the session return `true`. Then the
    -- recorder's destructor leaves a database of which read_incidents shows the interventions of the
    -- rounds before the first signal, newest first and each as it was logged, and behind them what it
    -- showed of `old`; it shows the first 50 of all these.
    pub black_box_complete :
        IsBitCast F fb
        → (h : Host S D F) (old : S) (now : ℕ) → (h.open_ok && (h.truncate_ok && h.map_ok)) ≡ true
        → h.opened ≡ some old
        → All (WasLogged now) (rocks.entries old ColumnFamily.cf_cbf_interventions)
        → IsClocked now h.events
        → IsLogged casts numbers rocks fb ldlt_solve (begin h) h.events
        → (s : Session S D F) × ((main casts numbers rocks fb ldlt_solve h).session ≡ some s)
          × (left : S) × (destroy rocks fb s.daemon.recorder ≡ some left)
          × (incidents rocks fb left
              ≡ take 50 (
                  map
                    (shown_as rocks fb)
                    (interventions casts numbers rocks fb ldlt_solve (begin h) h.events)
                  ++ incidents rocks fb old))
    black_box_complete cast h old now ok opened earlier clock logged =
        let before = happen_all casts numbers rocks fb ldlt_solve (begin h) h.events in
        let found = reverse (rocks.entries old ColumnFamily.cf_cbf_interventions) in
        let recs = interventions casts numbers rocks fb ldlt_solve (begin h) h.events in
        let (later, stored) =
          happen_all-IsStoring now found (begin h) h.events clock logged
            (begin-IsStoring h old now opened earlier) in
        let after = shut_down casts numbers rocks fb ldlt_solve before in
        let (left, is_left, shows) =
          destroy-IsStoring rocks fb laws later (map (entry rocks fb) recs ++ found)
            after.daemon.recorder
            (shut_down-IsStoring later (map (entry rocks fb) recs ++ found) before stored) in
        (
          after,
          (main_runs casts numbers rocks fb ldlt_solve h ok).1,
          left,
          is_left,
          incidents-map rocks fb cast recs old left
              (interventions-InRange casts numbers rocks fb ldlt_solve now (begin h) h.events
                (begin-count h) clock)
              shows,
        )
