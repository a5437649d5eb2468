-- ===== src/Telemetry/Sockets/Clients.antt =====
-- What the clients of `metrics_loop` are answered.
use neuro_kinetic.Base.{
  leb, take, ℕ, Bool, false, if◌then◌else◌, Option, none, some, List, [], ◌∷◌, length,
}
use neuro_kinetic.Base.Text.{Bytes}
use neuro_kinetic.Telemetry.Exposition.{render}
use neuro_kinetic.Telemetry.Http.{read_message}
use neuro_kinetic.Telemetry.Text.{Printer, scrape_lines, scrape_response}
use neuro_kinetic.Telemetry.Sockets.{Turn}

-- the loop of `metrics_loop` is reached
abbrev pub is_serving : Option ℕ → Bool → Bool
is_serving none is_listening = false
is_serving (some server_fd) is_listening = is_listening

-- the turns in which a client was accepted
unfoldable pub accepted : {D F : Type 0} → List (Turn D F) → List (Turn D F)
accepted [] = []
accepted (turn ∷ turns) =
    let rest = accepted turns in elim turn.client [ none ↦ rest | some client_fd ↦ turn ∷ rest ]

module _ {D F : Type 0} (printer : Printer D F) where
  abbrev pub text_of : Turn D F → Bytes
  text_of turn = render (scrape_lines printer turn.numbers)

  -- what `send` has taken of the answer
  abbrev pub part_of : Turn D F → Bytes
  part_of turn = take turn.send_takes (scrape_response printer turn.numbers)

  abbrev pub takes_all : Turn D F → Bool
  takes_all turn = leb (length (scrape_response printer turn.numbers)) turn.send_takes

  -- those of the turns whose `send` took the whole answer
  unfoldable pub taken_whole : List (Turn D F) → List (Turn D F)
  taken_whole [] = []
  taken_whole (turn ∷ turns) =
      let rest = taken_whole turns in if takes_all turn then turn ∷ rest else rest

  -- what the client of a turn reads
  abbrev pub read_of : Turn D F → Option Bytes
  read_of turn = read_message 5 0 (part_of turn)
