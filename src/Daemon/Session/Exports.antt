-- ===== src/Daemon/Session/Exports.antt =====
-- What the telemetry worker of a session exports, from the rounds of the loop to the sockets.
use neuro_kinetic.Base.{
  ◌≡◌, refl, true, ◌&&◌, if◌then◌else◌, some, List, [], ◌∷◌, ◌++◌, append_assoc, append-nil, arith,
  ap, sym, ◌∙◌, Bool-cases, inl, inr,
}
use neuro_kinetic.Double.{Double}
use neuro_kinetic.Kernel.{LdltSolve}
use neuro_kinetic.Ring.{KinematicTelemetryFrame}
use neuro_kinetic.Recorder.Bytes.{FloatBits}
use neuro_kinetic.Recorder.Store.{RocksDb}
use neuro_kinetic.Telemetry.{Numbers, Export}
use neuro_kinetic.Telemetry.Worker.{try_push, drain_turn, start}
use neuro_kinetic.Telemetry.Worker.Totals.{events}
use neuro_kinetic.Daemon.{Casts, Daemon, Inputs}
use neuro_kinetic.Daemon.Tick.{tick, tick_frame}
use neuro_kinetic.Daemon.Start.{boot}
use neuro_kinetic.Daemon.Session.{
  Event, round, worker_turn, signal, Session, Host, begin, happen, happen_all, shut_down, main,
}
use neuro_kinetic.Daemon.Session.Accounts.{main_runs}
use neuro_kinetic.Telemetry.Worker.Exports.{
  waiting_in, events-append, IsWorking, push-waiting, turn-eq, stop-sent,
}

module _ {S D F : Type 0} ⦃d : Double D⦄ ⦃f : Double F⦄ (casts : Casts D F) (numbers : Numbers D F)
    (rocks : RocksDb S) (fb : FloatBits F) (ldlt_solve : LdltSolve D) where
  -- the frame of a round for which the ring had room
  abbrev pushed_by : Session S D F → Event D F → List (KinematicTelemetryFrame F)
  pushed_by s (round x) =
      let frame = tick_frame casts rocks fb ldlt_solve s.daemon x in
      if s.g_running
      then (if (try_push s.daemon.telemetry_worker frame).0 then frame ∷ [] else [])
      else []
  pushed_by s worker_turn = []
  pushed_by s signal = []

  -- the frames that the rounds of a session pushed with success, in their order
  unfoldable pub pushed : Session S D F → List (Event D F) → List (KinematicTelemetryFrame F)
  pushed s [] = []
  pushed s (e ∷ events) =
      pushed_by s e ++ pushed (happen casts numbers rocks fb ldlt_solve s e) events

  -- what was exported, and what the frames that wait will add
  abbrev total : Session S D F → List (Export F)
  total s = s.sent ++ events (waiting_in s.daemon.telemetry_worker)

  tick-worker :
      (m : Daemon S D F) (x : Inputs D F)
      → (tick casts rocks fb ldlt_solve m x).telemetry_worker
        ≡ (try_push m.telemetry_worker (tick_frame casts rocks fb ldlt_solve m x)).1
  unfolding tick
  tick-worker m x = refl

  happen-total :
      (s : Session S D F) (e : Event D F)
      → IsWorking numbers fb s.daemon.telemetry_worker
      → IsWorking numbers fb (happen casts numbers rocks fb ldlt_solve s e).daemon.telemetry_worker
        × (total (happen casts numbers rocks fb ldlt_solve s e) ≡ total s ++ events (pushed_by s e))
  unfolding happen events tick
  happen-total s (round x) h =
      let frame = tick_frame casts rocks fb ldlt_solve s.daemon x in
      let (working, waits) = push-waiting numbers fb s.daemon.telemetry_worker frame h in
      elim (Bool-cases s.g_running) [
        | inl on ↦ rw on (
          working,
          ap (λ q. s.sent ++ events q) waits
              ∙ ap (λ t. s.sent ++ t) (events-append (waiting_in s.daemon.telemetry_worker) _)
              ∙ sym (append_assoc s.sent (events (waiting_in s.daemon.telemetry_worker)) _),
        )
        | inr off ↦ rw off (h, sym (append-nil (total s)))
      ]
  happen-total s worker_turn h =
      let (working, same) =
        turn-eq numbers fb s.daemon.telemetry_worker (waiting_in s.daemon.telemetry_worker) h
          refl in
      (
        working,
        append_assoc s.sent (drain_turn numbers fb s.daemon.telemetry_worker).1 _
            ∙ ap (λ t. s.sent ++ t) same
            ∙ sym (append-nil (total s)),
      )
  happen-total s signal h = (h, sym (append-nil (total s)))

  happen_all-total :
      (s : Session S D F) (es : List (Event D F))
      → IsWorking numbers fb s.daemon.telemetry_worker
      → IsWorking numbers fb
          (happen_all casts numbers rocks fb ldlt_solve s es).daemon.telemetry_worker
        × (total (happen_all casts numbers rocks fb ldlt_solve s es)
            ≡ total s ++ events (pushed s es))
  unfolding happen_all pushed events
  happen_all-total s [] h = (h, sym (append-nil (total s)))
  happen_all-total s (e ∷ es) h =
      let (working, step) = happen-total s e h in
      let next = happen casts numbers rocks fb ldlt_solve s e in
      let (still, rest) = happen_all-total next es working in
      (
        still,
        rest
            ∙ ap (λ t. t ++ events (pushed next es)) step
            ∙ append_assoc (total s) (events (pushed_by s e)) (events (pushed next es))
            ∙ ap (λ t. total s ++ t) (sym (events-append (pushed_by s e) (pushed next es))),
      )

  begin-IsWorking : (h : Host S D F) → IsWorking numbers fb (begin h).daemon.telemetry_worker
  unfolding begin boot start
  begin-IsWorking h = record { valid = omega arith; running = refl }

  begin-total : (h : Host S D F) → total (begin h) ≡ []
  unfolding begin boot start events
  begin-total h = refl

  shut_down-sent :
      (s : Session S D F)
      → IsWorking numbers fb s.daemon.telemetry_worker
      → (shut_down casts numbers rocks fb ldlt_solve s).sent ≡ total s
  unfolding shut_down
  shut_down-sent s h = ap (λ t. s.sent ++ t) (stop-sent numbers fb s.daemon.telemetry_worker h)

  -- No alarm of a session is lost behind the ring: let `main` set its segment up. When it returns, the
  -- worker has exported, for every round before the first signal whose frame found room in the ring and
  -- has a flag, a trace and a log line, in the order of the rounds and nothing else, whatever turns the
  -- worker took between the rounds.
  pub flagged_rounds_exported :
      (h : Host S D F)
      → (h.open_ok && (h.truncate_ok && h.map_ok)) ≡ true
      → (s : Session S D F) × ((main casts numbers rocks fb ldlt_solve h).session ≡ some s)
        × (s.sent ≡ events (pushed (begin h) h.events))
  flagged_rounds_exported h ok =
      let before = happen_all casts numbers rocks fb ldlt_solve (begin h) h.events in
      let (working, all) = happen_all-total (begin h) h.events (begin-IsWorking h) in
      (
        shut_down casts numbers rocks fb ldlt_solve before,
        (main_runs casts numbers rocks fb ldlt_solve h ok).1,
        shut_down-sent before working
            ∙ all
            ∙ ap (λ t. t ++ events (pushed (begin h) h.events)) (begin-total h),
      )
