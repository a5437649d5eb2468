-- ===== src/Daemon/Session.antt =====
-- realtime_daemon.cpp: `main` from its start to its end, with the telemetry worker's thread beside it
-- and the signals that may arrive.
pub mod Accounts
pub mod Interventions
pub mod BlackBox
pub mod Exports
mod Tests
use neuro_kinetic.Base.{
  ℕ, Bool, true, false, not, if◌then◌else◌, Option, none, some, List, [], ◌∷◌, ◌++◌,
}
use neuro_kinetic.Double.{Double}
use neuro_kinetic.Kernel.{LdltSolve}
use neuro_kinetic.Recorder.Bytes.{FloatBits}
use neuro_kinetic.Recorder.Store.{RocksDb}
use neuro_kinetic.Recorder.Log.{flush}
use neuro_kinetic.Telemetry.{Numbers, Export}
use neuro_kinetic.Telemetry.Worker.{drain_turn, stop}
use neuro_kinetic.Daemon.{Casts, Daemon, Inputs}
use neuro_kinetic.Daemon.Tick.{tick}
use neuro_kinetic.Daemon.Start.{boot}

-- What happens next: the main thread comes to the head of its loop, the worker takes a turn of its
-- first loop, or a signal arrives.
pub data Event (D F : Type 0) : Type 0 where
  round : Inputs D F → Event D F
  worker_turn signal : Event D F

-- `sent` is what the worker has exported.
pub record Session (S D F : Type 0) : Type 0 where
  pub daemon : Daemon S D F
  pub g_running : Bool
  pub sent : List (Export F)

-- The system calls of `main`, and what it does to the parts that it owns.
pub data Call : Type 0 where
  open_shm truncate_shm map_shm construct_shm open_recorder run_loop flush_recorder stop_worker
        unmap_shm close_shm :
      Call

-- What `main` meets: whether `open`, `ftruncate` and `mmap` succeed, what `DB::Open` gives, the time at
-- which the watchdog is set up, and what happens then.
pub record Host (S D F : Type 0) : Type 0 where
  pub open_ok : Bool
  pub truncate_ok : Bool
  pub map_ok : Bool
  pub opened : Option S
  pub start_ns : ℕ
  pub events : List (Event D F)

-- the exit code of `main`, its calls in their order, and the session that it has run, if any
pub record Exit (S D F : Type 0) : Type 0 where
  pub code : ℕ
  pub calls : List Call
  pub session : Option (Session S D F)

module _ {S D F : Type 0} ⦃d : Double D⦄ ⦃f : Double F⦄ where
  -- before the loop
  unfoldable pub begin : Host S D F → Session S D F
  begin h = record { daemon = boot h.opened h.start_ns; g_running = true; sent = [] }

  -- `handle_signal`
  abbrev pub handle_signal : Session S D F → Session S D F
  handle_signal s = record s { g_running = false }

module _ {S D F : Type 0} ⦃d : Double D⦄ ⦃f : Double F⦄ (casts : Casts D F) (numbers : Numbers D F)
    (rocks : RocksDb S) (fb : FloatBits F) (ldlt_solve : LdltSolve D) where
  -- A main thread that has left its loop does not come back to it.
  unfoldable pub happen : Session S D F → Event D F → Session S D F
  happen s (round x) =
      if s.g_running then record s { daemon = tick casts rocks fb ldlt_solve s.daemon x } else s
  happen s worker_turn =
      let (worker, sent) = drain_turn numbers fb s.daemon.telemetry_worker in
      record s { daemon = record s.daemon { telemetry_worker = worker }; sent = s.sent ++ sent }
  happen s signal = handle_signal s

  unfoldable pub happen_all : Session S D F → List (Event D F) → Session S D F
  happen_all s [] = s
  happen_all s (e ∷ events) = happen_all (happen s e) events

  -- behind the loop
  unfoldable pub shut_down : Session S D F → Session S D F
  shut_down s =
      let (worker, sent) = stop numbers fb s.daemon.telemetry_worker in
      record s {
        daemon = record s.daemon {
          recorder = flush rocks fb s.daemon.recorder;
          telemetry_worker = worker;
        };
        sent = s.sent ++ sent;
      }

  -- `main`, where a signal arrives sooner or later
  unfoldable pub main : Host S D F → Exit S D F
  main h =
      if not h.open_ok
      then record { code = 1; calls = open_shm ∷ []; session = none }
      else if not h.truncate_ok
      then record { code = 1; calls = open_shm ∷ truncate_shm ∷ []; session = none }
      else if not h.map_ok
      then record { code = 1; calls = open_shm ∷ truncate_shm ∷ map_shm ∷ []; session = none }
      else record {
        code = 0;
        calls =
            open_shm ∷ truncate_shm ∷ map_shm ∷ construct_shm ∷ open_recorder ∷ run_loop
            ∷ flush_recorder ∷ stop_worker ∷ unmap_shm ∷ close_shm ∷ [];
        session = some (shut_down (happen_all (begin h) h.events));
      }
