-- ===== src/Telemetry/Http/Framing.antt =====
-- A reader of a message takes exactly its body.
use neuro_kinetic.Base.{
  ℕ, suc, ◌<◌, ◌≡◌, refl, ◌^◌, ◌==◌, Bool, true, false, not, ◌&&◌, none, some, List, [], ◌∷◌, ◌++◌,
  append_assoc, length, take, all, arith, ap, ◌∙◌, sym,
}
use neuro_kinetic.Base.Text.{
  Bytes, codes, line_feed, split_at, scan, Lacks, split_at-append, Lacks-append,
}
use neuro_kinetic.Recorder.Decimal.{to_decimal}
use neuro_kinetic.Recorder.Decimal.Parse.{scan-to_decimal, to_decimal-Lacks}
use neuro_kinetic.Telemetry.Http.{
  carriage_return, with_heads, content_length, message, strip, announced, is_blank, read_message,
}

-- A line of a head is not blank, has no line feed, and does not announce a length.
abbrev pub is_head : Bytes → Bool
is_head line =
    not (is_blank (line ++ (carriage_return ∷ [])))
    && all (λ c. not (c == line_feed)) line
    && elim (strip content_length (line ++ (carriage_return ∷ []))) [ none ↦ true | some t ↦ false ]

take_all : (body : Bytes) → take (length body) body ≡ body
take_all [] = refl
take_all (c ∷ body) = ap (◌∷◌ c) (take_all body)

all-Lacks : (line : Bytes) → all (λ c. not (c == line_feed)) line ≡ true → Lacks line_feed line
all-Lacks [] h = tt
all-Lacks (c ∷ line) h = ground (arith, all-Lacks line)

Lacks-snoc :
    (line : Bytes) (c : ℕ)
    → Lacks line_feed line
    → ¬ (c ≡ line_feed)
    → Lacks line_feed (line ++ (c ∷ []))
Lacks-snoc [] c h ne = (ne, tt)
Lacks-snoc (x ∷ line) c (px, h) ne = (px, Lacks-snoc line c h ne)

split-head :
    (line rest : Bytes)
    → Lacks line_feed line
    → split_at line_feed (line ++ (carriage_return ∷ line_feed ∷ rest))
      ≡ some (line ++ (carriage_return ∷ []), rest)
split-head line rest h =
    ap (split_at line_feed) (sym (append_assoc line (carriage_return ∷ []) (line_feed ∷ rest)))
    ∙ split_at-append line_feed (line ++ (carriage_return ∷ [])) rest
        (Lacks-snoc line carriage_return h (omega arith))

-- a line of a head is passed over
read-head :
    (more len : ℕ) (line rest : Bytes)
    → is_head line ≡ true
    → read_message (suc more) len (line ++ (carriage_return ∷ line_feed ∷ rest))
      ≡ read_message more len rest
unfolding announced read_message
read-head more len line rest h =
    let lacks : Lacks line_feed line = all-Lacks line (ground arith) in
    let blank : is_blank (line ++ (carriage_return ∷ [])) ≡ false = ground arith in
    let silent : announced len (line ++ (carriage_return ∷ [])) ≡ len = ground arith in
    rw (read_message, split-head line rest lacks, blank, silent) refl

-- a head's lines on top of `more` further ones
abbrev pub room : List Bytes → ℕ → ℕ
room [] more = more
room (line ∷ heads) more = suc (room heads more)

read-heads :
    (heads : List Bytes) (more len : ℕ) (rest : Bytes)
    → all is_head heads ≡ true
    → read_message (room heads more) len (with_heads heads rest) ≡ read_message more len rest
read-heads [] more len rest h = refl
read-heads (line ∷ heads) more len rest h =
    read-head (room heads more) len line (with_heads heads rest) (ground arith)
    ∙ read-heads heads more len rest (ground arith)

-- the line that announces a length
read-length :
    (more len n : ℕ) (rest : Bytes)
    → n < 2 ^ 64
    → read_message
        (suc more)
        len
        ((content_length ++ to_decimal n) ++ (carriage_return ∷ line_feed ∷ rest))
      ≡ read_message more n rest
unfolding announced read_message strip scan
read-length more len n rest h =
    let lacks : Lacks line_feed (content_length ++ to_decimal n) =
      Lacks-append line_feed content_length (to_decimal n) (all-Lacks content_length refl)
        (to_decimal-Lacks n) in
    let got : (scan 0 (to_decimal n ++ (carriage_return ∷ []))).0 ≡ n =
      ap (λ p. p.0) (scan-to_decimal n (carriage_return ∷ []) h) in
    rw (read_message, split-head (content_length ++ to_decimal n) rest lacks, got) refl

-- the blank line, and the body behind it
read-body :
    (more : ℕ) (body : Bytes)
    → read_message (suc more) (length body) (carriage_return ∷ line_feed ∷ body) ≡ some body
unfolding read_message split_at
read-body more body = ap some (take_all body)

-- A reader that goes by the announced length takes exactly the body, whatever bytes it has: for a head
-- of lines that do not announce one, and a body of less than 2^64 bytes.
pub read-message :
    (heads : List Bytes) (body : Bytes)
    → all is_head heads ≡ true
    → length body < 2 ^ 64
    → read_message (room heads 3) 0 (message heads body) ≡ some body
unfolding message strip
read-message heads body ok small =
    read-heads heads 3 0 _ ok
    ∙ read-length 2 0 (length body) _ small
    ∙ read-head 1 (length body) (codes "Connection: close") _ refl
    ∙ read-body 0 body
