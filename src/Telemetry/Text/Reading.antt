-- ===== src/Telemetry/Text/Reading.antt =====
-- What a scraper reads in a text of the worker or of the metrics.
use neuro_kinetic.Base.{
  ℕ, ◌^◌, ◌<◌, ◌≡◌, refl, Bool, true, false, not, ◌&&◌, ◌==◌, if◌then◌else◌, Option, none, some,
  List, [], ◌∷◌, All, all, arith, ap, ◌∙◌, sym, append-nil,
}
use neuro_kinetic.Base.Text.{Bytes, Lacks, line_feed, scan}
use neuro_kinetic.Recorder.Decimal.{to_decimal}
use neuro_kinetic.Recorder.Decimal.Parse.{scan-to_decimal, to_decimal-Lacks}
use neuro_kinetic.Double.{Double}
use neuro_kinetic.Telemetry.Worker.{Scrape}
use neuro_kinetic.Telemetry.Metrics.{Metrics}
use neuro_kinetic.Telemetry.Exposition.{
  Line, comment, sample, render, parse, samples, is_name, IsLine, parse-render,
}
use neuro_kinetic.Telemetry.{Numbers}
use neuro_kinetic.Telemetry.Text.{metrics_lines, Printer, IsPrinter, scrape_lines, metrics_lines}

abbrev pub same_text : Bytes → Bytes → Bool
same_text [] [] = true
same_text [] (y ∷ ys) = false
same_text (x ∷ xs) [] = false
same_text (x ∷ xs) (y ∷ ys) = x == y && same_text xs ys

abbrev pub find : Bytes → List (Bytes × Bytes) → Option Bytes
find name [] = none
find name ((n, shown) ∷ rest) = if same_text n name then some shown else find name rest

abbrev pub read_number : Option Bytes → Option ℕ
read_number none = none
read_number (some shown) = some (scan 0 shown).0

-- The number that a text has under a name.
unfoldable pub count_of : Bytes → Bytes → Option ℕ
count_of name text = read_number (find name (parse text))

-- what can be seen of a line without its value
abbrev is_line : Line → Bool
is_line (comment text) = all (λ c. not (c == line_feed)) text
is_line (sample name shown) = is_name name

abbrev IsShown : Line → Type 0
IsShown (comment text) = Unit
IsShown (sample name shown) = Lacks line_feed shown

all-Lacks : (text : Bytes) → all (λ c. not (c == line_feed)) text ≡ true → Lacks line_feed text
all-Lacks [] h = tt
all-Lacks (c ∷ text) h = ground (arith, all-Lacks text)

all-IsLine : (ls : List Line) → all is_line ls ≡ true → All IsShown ls → All IsLine ls
all-IsLine [] h shown = tt
all-IsLine (comment text ∷ ls) h (_, shown) =
    (all-Lacks text (ground arith), all-IsLine ls (ground arith) shown)
all-IsLine (sample name value ∷ ls) h (v, shown) =
    ((ground arith, v), all-IsLine ls (ground arith) shown)

-- A count in a text is read back as it was, if it fits 64 bits.
pub count_of-render :
    (ls : List Line) (name : Bytes) (n : ℕ)
    → All IsLine ls
    → n < 2 ^ 64
    → find name (samples ls) ≡ some (to_decimal n)
    → count_of name (render ls) ≡ some n
unfolding count_of scan
count_of-render ls name n fits small e =
    rw (parse-render ls fits, e)
      (ap some (
        ap (λ t. (scan 0 t).0) (sym (append-nil (to_decimal n)))
        ∙ ap (λ p. p.0) (scan-to_decimal n [] small)))

module _ {D F : Type 0} (printer : Printer D F) (one_line : IsPrinter D F printer) where
  open one_line use {show_double_line, show_float_line}

  scrape_lines-IsShown : (s : Scrape D F) → All IsShown (scrape_lines printer s)
  unfolding scrape_lines
  scrape_lines-IsShown s = search (to_decimal-Lacks, show_double_line, show_float_line)

  pub scrape_lines-IsLine : (s : Scrape D F) → All IsLine (scrape_lines printer s)
  unfolding scrape_lines
  scrape_lines-IsLine s = all-IsLine (scrape_lines printer s) refl (scrape_lines-IsShown s)

module _ {D F : Type 0} ⦃d : Double D⦄ (numbers : Numbers D F) (printer : Printer D F)
    (one_line : IsPrinter D F printer) where
  open one_line use {show_double_line}

  metrics_lines-IsShown : (m : Metrics) → All IsShown (metrics_lines numbers printer m)
  unfolding metrics_lines
  metrics_lines-IsShown m = search (to_decimal-Lacks, show_double_line)

  pub metrics_lines-IsLine : (m : Metrics) → All IsLine (metrics_lines numbers printer m)
  unfolding metrics_lines
  metrics_lines-IsLine m =
      all-IsLine (metrics_lines numbers printer m) refl (metrics_lines-IsShown m)
