-- ===== src/Telemetry/Sockets/Balance.antt =====
-- The descriptors that the worker opens, and the texts that go through them.
use neuro_kinetic.Base.{
  Option-cases, Bool-cases, inl, inr, ℕ, suc, ◌≡◌, refl, Bool, true, false, ◌==◌, ◌||◌,
  if◌then◌else◌, Option, none, some, List, [], ◌∷◌, ◌++◌, arith, ap, ◌∙◌,
}
use neuro_kinetic.Base.Text.{Bytes}
use neuro_kinetic.Ring.{KinematicTelemetryFrame}
use neuro_kinetic.Telemetry.{Export, trace_event, json_event}
use neuro_kinetic.Telemetry.Text.{Printer}
use neuro_kinetic.Telemetry.Sockets.{
  Effect, opened, sent, printed, closed, Answer, Turn, send_trace_event, send_json_event, send_all,
  serve,
}

abbrev pub is_open : ℕ → List ℕ → Bool
is_open fd [] = false
is_open fd (held ∷ more) = fd == held || is_open fd more

abbrev pub release : ℕ → List ℕ → List ℕ
release fd [] = []
release fd (held ∷ more) = let rest = release fd more in if fd == held then more else held ∷ rest

-- The descriptors that are open after some effects; none if one of them uses a descriptor that is not.
unfoldable pub open_after : List ℕ → List Effect → Option (List ℕ)
open_after held [] = some held
open_after held (opened fd ∷ effects) = open_after (fd ∷ held) effects
open_after held (sent fd text ∷ effects) =
    let rest = open_after held effects in if is_open fd held then rest else none
open_after held (printed text ∷ effects) = open_after held effects
open_after held (closed fd ∷ effects) =
    let rest = open_after (release fd held) effects in if is_open fd held then rest else none

-- the texts that leave the process
unfoldable pub outputs : List Effect → List Bytes
outputs [] = []
outputs (opened fd ∷ effects) = outputs effects
outputs (sent fd text ∷ effects) = text ∷ outputs effects
outputs (printed text ∷ effects) = text ∷ outputs effects
outputs (closed fd ∷ effects) = outputs effects

pub itself : (fd : ℕ) → (fd == fd) ≡ true
itself fd = ground arith

pub outputs-append : (xs ys : List Effect) → outputs (xs ++ ys) ≡ outputs xs ++ outputs ys
unfolding outputs
outputs-append [] ys = refl
outputs-append (opened fd ∷ xs) ys = outputs-append xs ys
outputs-append (sent fd text ∷ xs) ys = ap (◌∷◌ text) (outputs-append xs ys)
outputs-append (printed text ∷ xs) ys = ap (◌∷◌ text) (outputs-append xs ys)
outputs-append (closed fd ∷ xs) ys = outputs-append xs ys

module _ {D F : Type 0} (printer : Printer D F) where
  trace_balanced :
      (held : List ℕ) (answer : Answer) (frame : KinematicTelemetryFrame F) (more : List Effect)
      → open_after held (send_trace_event printer answer frame ++ more) ≡ open_after held more
  unfolding open_after send_trace_event
  trace_balanced held answer frame more = elim (Option-cases answer.socket) [
    | inl e ↦ rw e
    | inr (fd, e) ↦ elim (Bool-cases answer.is_connected) [
      | inl on ↦ rw (e, on, itself fd) refl
      | inr off ↦ rw (e, off, itself fd) refl
    ]
  ]

  json_balanced :
      (held : List ℕ) (answer : Answer) (frame : KinematicTelemetryFrame F) (more : List Effect)
      → open_after held (send_json_event printer answer frame ++ more) ≡ open_after held more
  unfolding open_after send_json_event
  json_balanced held answer frame more = elim (Option-cases answer.socket) [
    | inl e ↦ rw e
    | inr (fd, e) ↦ elim (Bool-cases answer.is_connected) [
      | inl on ↦ rw (e, on, itself fd) refl
      | inr off ↦ rw (e, off, itself fd) refl
    ]
  ]

  -- The exports of frames with a flag leak no descriptor, whatever `socket`, `connect` and `send`
  -- answer each time: behind them the descriptors are open that were open before, and none of the calls
  -- used one that was not open.
  pub sends_balanced :
      (held : List ℕ) (answer : ℕ → Answer) (exports : List (Export F))
      → open_after held (send_all printer answer exports) ≡ some held
  unfolding open_after send_all
  sends_balanced held answer [] = refl
  sends_balanced held answer (trace_event frame ∷ exports) =
      trace_balanced held (answer 0) frame _ ∙ sends_balanced held (λ k. answer (suc k)) exports
  sends_balanced held answer (json_event frame ∷ exports) =
      json_balanced held (answer 0) frame _ ∙ sends_balanced held (λ k. answer (suc k)) exports

  pub serve_balanced :
      (held : List ℕ) (turns : List (Turn D F)) (more : List Effect)
      → open_after held (serve printer turns ++ more) ≡ open_after held more
  unfolding open_after serve
  serve_balanced held [] more = refl
  serve_balanced held (turn ∷ turns) more = elim (Option-cases turn.client) [
    | inl e ↦ rw (serve, e) (serve_balanced held turns more)
    | inr (fd, e) ↦ rw (serve, e, itself fd) (serve_balanced held turns more)
  ]
