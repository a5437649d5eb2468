-- ===== src/Base/Text.antt =====
-- Texts as lists of bytes: literals, lines, and decimal numbers as a reader finds them.
use Prim.Native.Char.{code}
use Prim.Native.String.{String}
use Prim.Native.Nat.{ℕ, ◌+◌, ◌-◌, ◌*◌}
use mathlib.Core.Path.{◌≡◌, refl}
use mathlib.Core.Logic.{◌≢◌}
use mathlib.Core.Bool.{Bool, ◌&&◌}
use mathlib.Core.Option.{Option, none, some}
use mathlib.Core.List.{List, [], ◌∷◌, ◌++◌}
use native.Mathlib.Omega.{arith}
use neuro_kinetic.Base.Tests.{leb, ◌==◌, if◌then◌else◌}
use neuro_kinetic.Base.Lists.{All}

abbrev pub Bytes : Type 0
Bytes = List ℕ

-- the code points of a literal, which are its bytes where it is ASCII
abbrev pub codes : String → Bytes
codes String.[] = []
codes (String.◌∷◌ c s) = code c ∷ codes s

abbrev pub line_feed : ℕ
line_feed = 10

abbrev pub space : ℕ
space = 32

-- the text does not have this byte
abbrev pub Lacks : ℕ → Bytes → Type 0
Lacks b = All (λ c. c ≢ b)

pub Lacks-append : (b : ℕ) (xs ys : Bytes) → Lacks b xs → Lacks b ys → Lacks b (xs ++ ys)
Lacks-append b [] ys hx hy = hy
Lacks-append b (x ∷ xs) ys (px, hx) hy = (px, Lacks-append b xs ys hx hy)

-- A byte in front of the first line.
abbrev onto_first : ℕ → List Bytes → List Bytes
onto_first c [] = (c ∷ []) ∷ []
onto_first c (l ∷ ls) = (c ∷ l) ∷ ls

-- the lines of a text
unfoldable pub lines : Bytes → List Bytes
lines [] = []
lines (c ∷ cs) = let rest = lines cs in if c == line_feed then [] ∷ rest else onto_first c rest

abbrev onto_both : ℕ → Option (Bytes × Bytes) → Option (Bytes × Bytes)
onto_both c none = none
onto_both c (some (before, behind)) = some (c ∷ before, behind)

-- the text in front of the first such byte, and the text behind it
unfoldable pub split_at : ℕ → Bytes → Option (Bytes × Bytes)
split_at b [] = none
split_at b (c ∷ cs) = let rest = split_at b cs in if c == b then some ([], cs) else onto_both c rest

pub lines-line :
    (line rest : Bytes)
    → Lacks line_feed line
    → lines (line ++ (line_feed ∷ rest)) ≡ line ∷ lines rest
unfolding lines
lines-line [] rest h = refl
lines-line (c ∷ line) rest (ne, h) = ground (arith, lines-line line rest h)

pub split_at-append :
    (b : ℕ) (before behind : Bytes)
    → Lacks b before
    → split_at b (before ++ (b ∷ behind)) ≡ some (before, behind)
unfolding split_at
split_at-append b [] behind h = ground arith
split_at-append b (c ∷ before) behind (ne, h) = ground (arith, split_at-append b before behind h)

abbrev pub is_digit : ℕ → Bool
is_digit c = leb b'0' c && leb c b'9'

-- A decimal number on from the digits read so far, and the text behind it.
unfoldable pub scan : ℕ → Bytes → ℕ × Bytes
scan n [] = (n, [])
scan n (c ∷ cs) =
    let rest = scan (n * 10 + (c - b'0')) cs in if is_digit c then rest else (n, c ∷ cs)
