-- ===== src/Telemetry/Http.antt =====
-- telemetry_worker.cpp: the HTTP messages that carry a scrape and the exported events, and a reader of
-- such messages.
pub mod Framing
use neuro_kinetic.Base.{
  ℕ, zero, suc, ◌+◌, ◌==◌, Bool, true, false, if◌then◌else◌, Option, none, some, List, [], ◌∷◌,
  ◌++◌, length, take,
}
use neuro_kinetic.Base.Text.{Bytes, codes, line_feed, split_at, scan}
use neuro_kinetic.Recorder.Decimal.{to_decimal}

abbrev pub carriage_return : ℕ
carriage_return = 13

-- lines, each with its line end, in front of a text
abbrev pub with_heads : List Bytes → Bytes → Bytes
with_heads [] rest = rest
with_heads (l ∷ ls) rest = l ++ (carriage_return ∷ line_feed ∷ with_heads ls rest)

abbrev pub content_length : Bytes
content_length = codes "Content-Length: "

-- the lines of a head, the two that every message has, and the body
unfoldable pub message : List Bytes → Bytes → Bytes
message heads body = with_heads heads (
    with_heads ((content_length ++ to_decimal (length body)) ∷ codes "Connection: close" ∷ [] ∷ [])
      body)

abbrev pub response_heads : List Bytes
response_heads = codes "HTTP/1.1 200 OK" ∷ codes "Content-Type: text/plain; version=0.0.4" ∷ []

abbrev pub log_heads : List Bytes
log_heads =
    codes "POST /loki/api/v1/push HTTP/1.1"
    ∷ codes "Host: localhost:3100"
    ∷ codes "Content-Type: application/json"
    ∷ []

abbrev pub trace_heads : List Bytes
trace_heads =
    codes "POST /v1/traces HTTP/1.1"
    ∷ codes "Host: localhost:4318"
    ∷ codes "Content-Type: application/json"
    ∷ []

-- the text behind a prefix
unfoldable pub strip : Bytes → Bytes → Option Bytes
strip [] text = some text
strip (p ∷ prefix) [] = none
strip (p ∷ prefix) (c ∷ text) = let rest = strip prefix text in if p == c then rest else none

-- the length that a line announces, or else the one before
unfoldable pub announced : ℕ → Bytes → ℕ
announced before line = elim (strip content_length line) [
  | none ↦ before
  | some digits ↦ (scan 0 digits).0
]

-- a line of nothing but its line end
abbrev pub is_blank : Bytes → Bool
is_blank [] = false
is_blank (c ∷ []) = c == carriage_return
is_blank (c ∷ e ∷ line) = false

-- The body of a message, of the announced length, for a head of less lines than the first argument.
unfoldable pub read_message : ℕ → ℕ → Bytes → Option Bytes
read_message zero len text = none
read_message (suc more) len text = elim (split_at line_feed text) [
  | none ↦ none
  | some (line, rest) ↦
      let behind = read_message more (announced len line) rest in
      if is_blank line then some (take len rest) else behind
]
