-- ===== src/Server/LastWriter.antt =====
-- Which command the daemon finds after any requests.
use neuro_kinetic.Base.{
  ℕ, suc, ◌+◌, ◌*◌, ◌<◌, ◌^◌, ◌≡◌, refl, Bool, true, if◌then◌else◌, subst, none, some, List, [],
  ◌∷◌, length, ap, sym, ◌∙◌,
}
use neuro_kinetic.Double.{Double, nought}
use neuro_kinetic.Vector.{dof}
use neuro_kinetic.Recorder.Bytes.{FloatBits, IsBitCast}
use neuro_kinetic.Ipc.Layout.{read_command, segment_size}
use neuro_kinetic.Ipc.Client.{PythonFloats, send_heartbeat, dispatch_vla_torque}
use neuro_kinetic.Ipc.Client.Dispatch.{whole_command}
use neuro_kinetic.Daemon.Command.{ingest, admitted}
use neuro_kinetic.Server.{
  World, Request, update_barrier_tuning, trigger_hazard, trigger_reset, websocket_telemetry,
  task_telemetry, execute_setpoint, hazard, idle, dispatch, poll, command_setpoint, handle,
  handle_all,
}
use neuro_kinetic.Server.Sent.{seq_of, IsCommand}
use neuro_kinetic.Server.LastCommand.{
  LastCommand, IsLast, commanded, Holds, heartbeat-Holds, heartbeat_if-Holds, fewer-Holds,
  dispatch-Holds,
}

-- What a reader of the requests expects the daemon to find: the margin and the gamma that the server
-- holds, and the last command.
pub record Claim (P : Type 0) : Type 0 where
  pub tuned : P
  pub tuned_gamma : P
  pub last : LastCommand P

abbrev pub untouched : {P : Type 0} → World P → Claim P
untouched w = record { tuned = w.current_safety_margin; tuned_gamma = w.current_gamma; last = none }

module _ {P F : Type 0} ⦃p : Double P⦄ (python : PythonFloats P F) (fb : FloatBits F) where
  open p use {decimal}

  -- the server's command with the margin and the gamma that it holds, which raises if a number is too
  -- large for a float
  abbrev pub from_server : Claim P → (ℕ → P) → Claim P
  from_server c torques = record c {
    last = commanded python fb c.last torques c.tuned c.tuned_gamma;
  }

  unfoldable pub claim : Claim P → Request P → Claim P
  claim c (update_barrier_tuning margin gamma) =
      from_server (record c { tuned = margin; tuned_gamma = gamma }) idle
  claim c trigger_hazard = from_server c hazard
  claim c trigger_reset = from_server c idle
  claim c websocket_telemetry = c
  claim c task_telemetry = c
  claim c (execute_setpoint torques) = record c {
    last = commanded python fb c.last torques (decimal 8 2) (decimal 150 1);
  }

  unfoldable pub claim_all : Claim P → List (Request P) → Claim P
  unfolding claim
  claim_all c [] = c
  claim_all c (r ∷ requests) = claim_all (claim c r) requests

-- the server has a client, the segment has its size, and the sequence number has room for `n` commands
pub record HasRoom {P : Type 0} (n : ℕ) (w : World P) : Type 0 where
  pub connected : w.is_connected ≡ true
  pub size : length w.segment ≡ segment_size
  pub seq_room : seq_of w.segment + 2 * n < 2 ^ 64

module _ {P F : Type 0} ⦃p : Double P⦄ (python : PythonFloats P F) (fb : FloatBits F)
    (laws : IsBitCast F fb) where
  open p use {decimal}

  -- the world is the one that the claim says, with room for `n` requests
  record Follows (n : ℕ) (w : World P) (c : Claim P) : Type 0 where
    connected : w.is_connected ≡ true
    tuned_so : w.current_safety_margin ≡ c.tuned
    gamma_so : w.current_gamma ≡ c.tuned_gamma
    holds : Holds python fb n w.segment c.last

  dispatch-connected :
      (w : World P) (torques : ℕ → P)
      → w.is_connected ≡ true
      → dispatch python fb w torques ≡ record w {
        segment =
            (dispatch_vla_torque python fb nought w.segment w.server_counter torques
              w.current_safety_margin w.current_gamma).0;
        server_counter = w.server_counter + 1;
      }
  dispatch-connected w torques h = rw h

  -- a command of the server
  dispatch-Follows :
      (n : ℕ) (w : World P) (c : Claim P) (torques : ℕ → P)
      → Follows (suc n) w c
      → Follows n (dispatch python fb w torques) (from_server python fb c torques)
  dispatch-Follows n w c torques h =
      let m = w.current_safety_margin in
      let g = w.current_gamma in
      subst (λ v. Follows n v (from_server python fb c torques))
        (sym (dispatch-connected w torques h.connected))
        (record {
          connected = h.connected;
          tuned_so = h.tuned_so;
          gamma_so = h.gamma_so;
          holds =
              subst
                (Holds python fb n
                  (dispatch_vla_torque python fb nought w.segment w.server_counter torques m g).0)
                (λ k. commanded python fb c.last torques (h.tuned_so k) (h.gamma_so k))
                (dispatch-Holds python fb laws nought n w.segment w.server_counter c.last torques m
                  g h.holds);
        })

  poll-connected :
      (w : World P)
      → w.is_connected ≡ true
      → poll python fb w ≡ record w {
        segment = send_heartbeat w.segment w.server_counter;
        server_counter = w.server_counter + 1;
      }
  poll-connected w h = rw h

  poll-Follows :
      (n : ℕ) (w : World P) (c : Claim P) → Follows (suc n) w c → Follows n (poll python fb w) c
  poll-Follows n w c h =
      let fewer = fewer-Holds python fb n w.segment c.last h.holds in
      subst (λ v. Follows n v c) (sym (poll-connected w h.connected))
        (record {
          connected = h.connected;
          tuned_so = h.tuned_so;
          gamma_so = h.gamma_so;
          holds = heartbeat-Holds python fb n w.segment w.server_counter c.last fewer;
        })

  setpoint-Follows :
      (n : ℕ) (w : World P) (c : Claim P) (torques : ℕ → P)
      → Follows (suc n) w c
      → Follows n
          (command_setpoint python fb w torques)
          (claim python fb c (execute_setpoint torques))
  unfolding command_setpoint claim
  setpoint-Follows n w c torques h =
      let k = w.planner_counter in
      let m = decimal 8 2 in
      let g = decimal 150 1 in
      let after = dispatch_vla_torque python fb nought w.segment k torques m g in
      record {
        connected = h.connected;
        tuned_so = h.tuned_so;
        gamma_so = h.gamma_so;
        holds =
            heartbeat_if-Holds python fb after.1 n after.0 (k + 1)
              (commanded python fb c.last torques m g)
              (dispatch-Holds python fb laws nought n w.segment k c.last torques m g h.holds);
      }

  -- one request
  handle-Follows :
      (n : ℕ) (w : World P) (c : Claim P) (r : Request P)
      → Follows (suc n) w c
      → Follows n (handle python fb w r) (claim python fb c r)
  unfolding handle claim
  handle-Follows n w c (update_barrier_tuning margin gamma) h =
      dispatch-Follows n (record w { current_safety_margin = margin; current_gamma = gamma })
        (record c { tuned = margin; tuned_gamma = gamma }) idle
        (record { connected = h.connected; tuned_so = refl; gamma_so = refl; holds = h.holds })
  handle-Follows n w c trigger_hazard h = dispatch-Follows n w c hazard h
  handle-Follows n w c trigger_reset h = dispatch-Follows n w c idle h
  handle-Follows n w c websocket_telemetry h = poll-Follows n w c h
  handle-Follows n w c task_telemetry h = record {
    connected = h.connected;
    tuned_so = h.tuned_so;
    gamma_so = h.gamma_so;
    holds =
        heartbeat-Holds python fb n w.segment w.planner_counter c.last
          (fewer-Holds python fb n w.segment c.last h.holds);
  }
  handle-Follows n w c (execute_setpoint torques) h = setpoint-Follows n w c torques h

  all-Follows :
      (requests : List (Request P)) (w : World P) (c : Claim P)
      → Follows (length requests) w c
      → Follows 0 (handle_all python fb w requests) (claim_all python fb c requests)
  unfolding handle_all claim_all
  all-Follows [] w c h = h
  all-Follows (r ∷ requests) w c h =
      all-Follows requests (handle python fb w r) (claim python fb c r)
        (handle-Follows (length requests) w c r h)

module _ {D P F : Type 0} ⦃d : Double D⦄ ⦃p : Double P⦄ ⦃f : Double F⦄ (of_float : F → D)
    (python : PythonFloats P F) (fb : FloatBits F) (laws : IsBitCast F fb) (w : World P)
    (requests : List (Request P)) (torques : ℕ → P) (margin : P) where
  open python use {to_float}

  -- The last command wins, with its own margin. Take any sequence of requests to the server, and of
  -- setpoints of the planner and its reads of the telemetry, each handled whole, where the server has
  -- its client, the segment has its 384 bytes and the command's sequence number has room. Of these, take
  -- the commands none of whose numbers is too large for a float: the others raise and store nothing,
  -- although the margin and the gamma of an `update_barrier_tuning` that raises are in force for the
  -- server's commands after it. If there is one, then the daemon admits the torques of the last one,
  -- rounded to floats, unless its watchdog is tripped, and takes that command's margin, rounded. Before
  -- the rounding that margin is the one last given to `update_barrier_tuning`, or the server's at the
  -- start, if the server sent the command, but 0.08 if the planner did, whatever was tuned.
  pub last_command_reaches_kernel :
      (tripped : Bool) (i : ℕ)
      → HasRoom (length requests) w
      → (claim_all python fb (untouched w) requests).last ≡ some (torques, margin)
      → i < dof
      → let c = read_command fb (handle_all python fb w requests).segment in
        (admitted of_float tripped c i
          ≡ (if tripped then nought else of_float (to_float (torques i))))
        × ((ingest of_float c).dynamic_margin ≡ to_float margin)
  unfolding IsLast
  last_command_reaches_kernel tripped i room last h =
      let c = read_command fb (handle_all python fb w requests).segment in
      let follows = all-Follows python fb laws requests w (untouched w) (record {
        connected = room.connected;
        tuned_so = refl;
        gamma_so = refl;
        holds = record { size = room.size; seq_room = room.seq_room; last_so = tt };
      }) in
      let command : IsCommand c (λ j. to_float (torques j)) (to_float margin) =
        subst (λ o. IsLast python o c) last follows.holds.last_so in
      let (given, taken) =
        whole_command of_float tripped c c.cmd_seq1 i command.stable refl command.same_seq
          command.not_stopped in
      (
        given ∙ ap (λ t. if tripped then nought else of_float t) (command.same_torques i h),
        taken ∙ command.same_margin,
      )
