-- ===== src/Telemetry/Exposition.antt =====
-- The text format of Prometheus, in which telemetry_worker.cpp and metrics.cpp answer a scrape, and its
-- reader: lines that begin with `#` are comments, and the others have a name, a space and a value.
use neuro_kinetic.Base.{
  ℕ, ◌≡◌, refl, Bool, true, false, ◌&&◌, not, ◌==◌, if◌then◌else◌, Option, none, some, List, [],
  ◌∷◌, ◌++◌, All, all, arith, ap, ◌∙◌, map,
}
use neuro_kinetic.Base.Text.{
  Bytes, line_feed, space, Lacks, lines, split_at, lines-line, split_at-append, Lacks-append,
}

-- A line as the code writes it.
pub data Line : Type 0 where
  comment : Bytes → Line
  sample : Bytes → Bytes → Line

abbrev pub hash : ℕ
hash = b'#'

abbrev pub line_text : Line → Bytes
line_text (comment text) = hash ∷ text
line_text (sample name shown) = name ++ (space ∷ shown)

-- each line with its line feed
abbrev pub render : List Line → Bytes
render [] = []
render (l ∷ ls) = line_text l ++ (line_feed ∷ render ls)

abbrev is_comment : Bytes → Bool
is_comment [] = false
is_comment (c ∷ text) = c == hash

abbrev onto_samples : Option (Bytes × Bytes) → List (Bytes × Bytes) → List (Bytes × Bytes)
onto_samples none samples = samples
onto_samples (some s) samples = s ∷ samples

-- the samples in some lines
unfoldable pub read_lines : List Bytes → List (Bytes × Bytes)
read_lines [] = []
read_lines (l ∷ ls) = onto_samples (if is_comment l then none else split_at space l) (read_lines ls)

-- A scraper's reading of a text.
unfoldable pub parse : Bytes → List (Bytes × Bytes)
parse text = read_lines (lines text)

-- what was written as samples
abbrev pub samples : List Line → List (Bytes × Bytes)
samples [] = []
samples (comment text ∷ ls) = samples ls
samples (sample name shown ∷ ls) = (name, shown) ∷ samples ls

-- A name is not empty, does not begin like a comment, and has neither a space nor a line feed.
abbrev pub is_name : Bytes → Bool
is_name [] = false
is_name (c ∷ name) =
    not (c == hash) && all (λ c. not (c == space) && not (c == line_feed)) (c ∷ name)

abbrev pub IsLine : Line → Type 0
IsLine (comment text) = Lacks line_feed text
IsLine (sample name shown) = (is_name name ≡ true) × Lacks line_feed shown

all-Lacks :
    (name : Bytes)
    → all (λ c. not (c == space) && not (c == line_feed)) name ≡ true
    → Lacks space name × Lacks line_feed name
all-Lacks [] h = (tt, tt)
all-Lacks (c ∷ name) h = ground (arith, all-Lacks name)

not-comment : (name rest : Bytes) → is_name name ≡ true → is_comment (name ++ rest) ≡ false
not-comment [] rest h = cc
not-comment (c ∷ name) rest h = ground arith

is_name-Lacks : (name : Bytes) → is_name name ≡ true → Lacks space name × Lacks line_feed name
is_name-Lacks [] h = cc
is_name-Lacks (c ∷ name) h = all-Lacks (c ∷ name) (ground arith)

IsLine-Lacks : (l : Line) → IsLine l → Lacks line_feed (line_text l)
IsLine-Lacks (comment text) h = (omega arith, h)
IsLine-Lacks (sample name shown) (n, v) =
    Lacks-append line_feed name (space ∷ shown) (is_name-Lacks name n).1 (omega arith, v)

lines-render : (ls : List Line) → All IsLine ls → lines (render ls) ≡ map line_text ls
unfolding lines
lines-render [] h = refl
lines-render (l ∷ ls) (fits, h) =
    lines-line (line_text l) (render ls) (IsLine-Lacks l fits)
    ∙ ap (λ r. line_text l ∷ r) (lines-render ls h)

read_lines-map : (ls : List Line) → All IsLine ls → read_lines (map line_text ls) ≡ samples ls
unfolding read_lines
read_lines-map [] h = refl
read_lines-map (comment text ∷ ls) (fits, h) = read_lines-map ls h
read_lines-map (sample name shown ∷ ls) ((n, v), h) =
    rw
      (
        read_lines,
        not-comment name (space ∷ shown) n,
        split_at-append space name shown (is_name-Lacks name n).0,
        read_lines-map ls h,
      )
      refl

-- A scraper reads from a text the samples that were written, in their order.
pub parse-render : (ls : List Line) → All IsLine ls → parse (render ls) ≡ samples ls
unfolding parse
parse-render ls h = rw (lines-render ls h) (read_lines-map ls h)
