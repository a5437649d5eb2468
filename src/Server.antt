-- ===== src/Server.antt =====
-- runtime/server.py, and the planner of runtime/vla_agent.py beside it: which commands they write into
-- the shared segment. Each of the two processes has a client of its own. The web framework around the
-- handlers is left out. A number of a request is a Python float, which is a double.
pub mod LastCommand
pub mod LastWriter
pub mod Sent
mod Tests
use neuro_kinetic.Base.{ℕ, suc, ◌+◌, Bool, ◌==◌, if◌then◌else◌, List, [], ◌∷◌}
use neuro_kinetic.Base.Text.{Bytes}
use neuro_kinetic.Double.{Double, nought}
use neuro_kinetic.Recorder.Bytes.{FloatBits}
use neuro_kinetic.Ipc.Client.{send_heartbeat, PythonFloats, dispatch_vla_torque}

-- The segment, `heartbeat_counter` of the two clients, and the two global variables of the server. The
-- server's client may be missing.
pub record World (P : Type 0) : Type 0 where
  pub segment : Bytes
  pub is_connected : Bool
  pub server_counter : ℕ
  pub planner_counter : ℕ
  pub current_safety_margin : P
  pub current_gamma : P

-- A request to the server, one round of its loop of telemetry, a read of the telemetry that the planner
-- makes before and after the setpoints of a task, or a setpoint.
pub data Request (P : Type 0) : Type 0 where
  update_barrier_tuning : P → P → Request P
  trigger_hazard trigger_reset websocket_telemetry task_telemetry : Request P
  execute_setpoint : (ℕ → P) → Request P

module _ {P : Type 0} ⦃p : Double P⦄ where
  open p use {decimal}

  -- `[0.0, 0.0, 0.0, 0.0, 0.0, 45.0, 0.0]`
  abbrev pub hazard : ℕ → P
  hazard i = if i == 5 then decimal 450 1 else nought

  abbrev pub idle : ℕ → P
  idle i = nought

module _ {P F : Type 0} ⦃p : Double P⦄ (python : PythonFloats P F) (fb : FloatBits F) where
  open p use {decimal}

  -- A call of the server's client, with the server's margin and gamma. If it raises, the handler ends
  -- there, behind the heartbeat.
  abbrev pub dispatch : World P → (ℕ → P) → World P
  dispatch w torques =
      if w.is_connected
      then record w {
        segment =
            (dispatch_vla_torque python fb nought w.segment w.server_counter torques
              w.current_safety_margin w.current_gamma).0;
        server_counter = w.server_counter + 1;
      }
      else w

  -- a round of the loop of telemetry, which writes the heartbeat of `read_telemetry`
  abbrev pub poll : World P → World P
  poll w =
      if w.is_connected
      then record w {
        segment = send_heartbeat w.segment w.server_counter;
        server_counter = w.server_counter + 1;
      }
      else w

  -- A setpoint of the planner, with the defaults of `dispatch_vla_torque`, and then the heartbeat of
  -- `read_telemetry`, which is not reached if the command raises: the task ends there.
  unfoldable pub command_setpoint : World P → (ℕ → P) → World P
  command_setpoint w torques =
      let commanded =
        dispatch_vla_torque python fb nought w.segment w.planner_counter torques (decimal 8 2)
          (decimal 150 1) in
      record w {
        segment =
            if commanded.1 then send_heartbeat commanded.0 (w.planner_counter + 1) else commanded.0;
        planner_counter = if commanded.1 then w.planner_counter + 2 else w.planner_counter + 1;
      }

  -- the heartbeat of `read_telemetry` before the first setpoint of a task, and after the last one
  abbrev pub read_state : World P → World P
  read_state w = record w {
    segment = send_heartbeat w.segment w.planner_counter;
    planner_counter = w.planner_counter + 1;
  }

  unfoldable pub handle : World P → Request P → World P
  unfolding command_setpoint
  handle w (update_barrier_tuning margin gamma) =
      dispatch (record w { current_safety_margin = margin; current_gamma = gamma }) idle
  handle w trigger_hazard = dispatch w hazard
  handle w trigger_reset = dispatch w idle
  handle w websocket_telemetry = poll w
  handle w task_telemetry = read_state w
  handle w (execute_setpoint torques) = command_setpoint w torques

  unfoldable pub handle_all : World P → List (Request P) → World P
  unfolding handle
  handle_all w [] = w
  handle_all w (r ∷ requests) = handle_all (handle w r) requests
