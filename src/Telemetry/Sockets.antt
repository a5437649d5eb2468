-- ===== src/Telemetry/Sockets.antt =====
-- telemetry_worker.cpp: what the worker does with its sockets. What the calls of the system answer is an
-- input, and what the code does with them is a list of effects.
pub mod Balance
pub mod Clients
mod Tests
use neuro_kinetic.Base.{ℕ, suc, Bool, true, false, Option, none, some, List, [], ◌∷◌, ◌++◌, take}
use neuro_kinetic.Base.Text.{Bytes, codes, line_feed}
use neuro_kinetic.Ring.{KinematicTelemetryFrame}
use neuro_kinetic.Recorder.Decimal.{to_decimal}
use neuro_kinetic.Telemetry.{Export, trace_event, json_event}
use neuro_kinetic.Telemetry.Worker.{Scrape}
use neuro_kinetic.Telemetry.Text.{Printer, export_request, json_body, scrape_response}

-- A descriptor that `socket` or `accept` returned, what `send` took of a text on one, a text that went to
-- the standard output, and a descriptor that was closed.
pub data Effect : Type 0 where
  opened : ℕ → Effect
  sent : ℕ → Bytes → Effect
  printed : Bytes → Effect
  closed : ℕ → Effect

-- What the calls of one export answer: `socket` gives a descriptor or fails, `connect` succeeds or not,
-- and `send` takes so many bytes of its text, none of them if it fails. The code does not look at that.
pub record Answer : Type 0 where
  pub socket : Option ℕ
  pub is_connected : Bool
  pub send_takes : ℕ

-- A turn of the loop of `metrics_loop`: `accept` gives the descriptor of a client or fails, `send` takes
-- so many bytes of the answer, and the numbers are those that the atomic variables hold then.
pub record Turn (D F : Type 0) : Type 0 where
  pub client : Option ℕ
  pub send_takes : ℕ
  pub numbers : Scrape D F

-- What the calls of `metrics_loop` answer: `socket`, then `bind` and `listen`, and the turns.
pub record Service (D F : Type 0) : Type 0 where
  pub server : Option ℕ
  pub is_listening : Bool
  pub turns : List (Turn D F)

module _ {D F : Type 0} (printer : Printer D F) where
  -- what `send_json_event` prints if there is no socket
  abbrev pub console_line : KinematicTelemetryFrame F → Bytes
  console_line frame =
      codes "{\"event\":\"SAFETY_LIMIT_BREACH\",\"timestamp_ns\":"
      ++ (to_decimal frame.timestamp_ns
          ++ (codes ",\"flags\":"
              ++ (to_decimal frame.safety_flags ++ (codes "}" ++ (line_feed ∷ [])))))

  unfoldable pub send_trace_event : Answer → KinematicTelemetryFrame F → List Effect
  send_trace_event answer frame = elim answer.socket [
    | none ↦ []
    | some socket_fd ↦ opened socket_fd ∷ (elim answer.is_connected [
      | true ↦
          sent socket_fd (take answer.send_takes (export_request printer (trace_event frame)))
          ∷ closed socket_fd
          ∷ []
      | false ↦ closed socket_fd ∷ []
    ])
  ]

  unfoldable pub send_json_event : Answer → KinematicTelemetryFrame F → List Effect
  send_json_event answer frame = elim answer.socket [
    | none ↦ printed (console_line frame) ∷ []
    | some socket_fd ↦ opened socket_fd ∷ (elim answer.is_connected [
      | true ↦
          sent socket_fd (take answer.send_takes (export_request printer (json_event frame)))
          ∷ closed socket_fd
          ∷ []
      | false ↦ printed (json_body printer frame ++ (line_feed ∷ [])) ∷ closed socket_fd ∷ []
    ])
  ]

  abbrev pub send_event : Answer → Export F → List Effect
  send_event answer (trace_event frame) = send_trace_event answer frame
  send_event answer (json_event frame) = send_json_event answer frame

  -- the exports one after the other; the `k`-th of them meets the `k`-th answer
  unfoldable pub send_all : (ℕ → Answer) → List (Export F) → List Effect
  unfolding send_trace_event send_json_event
  send_all answer [] = []
  send_all answer (e ∷ exports) = send_event (answer 0) e ++ send_all (λ k. answer (suc k)) exports

  -- The loop of `metrics_loop`, for the turns in which the worker is running.
  unfoldable pub serve : List (Turn D F) → List Effect
  serve [] = []
  serve (turn ∷ turns) =
      let rest = serve turns in
      elim turn.client [
        | none ↦ rest
        | some client_fd ↦
            opened client_fd
            ∷ sent client_fd (take turn.send_takes (scrape_response printer turn.numbers))
            ∷ closed client_fd
            ∷ rest
      ]

  -- `metrics_loop` after `socket`, and after `bind` and `listen`
  unfoldable pub serve_from : Option ℕ → Bool → List (Turn D F) → List Effect
  unfolding serve
  serve_from none is_listening turns = []
  serve_from (some server_fd) true turns =
      opened server_fd ∷ (serve turns ++ (closed server_fd ∷ []))
  serve_from (some server_fd) false turns = opened server_fd ∷ closed server_fd ∷ []

  abbrev pub metrics_loop : Service D F → List Effect
  metrics_loop service = serve_from service.server service.is_listening service.turns
