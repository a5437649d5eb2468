-- ===== src/Recorder/Reader.antt =====
-- read_incidents.cpp: the last fifty interventions, newest first, as a JSON document.
pub mod Latest
pub mod History
mod Tests
use Prim.Native.String.{String}
use mathlib.Core.List.{reverse}
use neuro_kinetic.Base.{
  ℕ, zero, suc, Bool, true, false, ◌==◌, if◌then◌else◌, Option, none, some, List, [], ◌∷◌, ◌++◌,
  length,
}
use neuro_kinetic.Recorder.{InterventionRecord, ColumnFamily}
use neuro_kinetic.Recorder.Bytes.{FloatBits, decode}
use neuro_kinetic.Recorder.Store.{Bytes, RocksDb}

-- What `std::cout` is given: how it prints a `float` is left open.
pub data Piece (F : Type 0) : Type 0 where
  text : String → Piece F
  key : Bytes → Piece F
  number : ℕ → Piece F
  real : F → Piece F

abbrev pub Incident : Type 0 → Type 0
Incident F = Bytes × InterventionRecord F

module _ {F : Type 0} where
  abbrev pub fields : Incident F → List (Piece F)
  fields (k, rec) =
      text "  {\n"
      ∷ text "    \"key\": \""
      ∷ key k
      ∷ text "\",\n"
      ∷ text "    \"sequence\": "
      ∷ number rec.sequence_number
      ∷ text ",\n"
      ∷ text "    \"timestamp_ns\": "
      ∷ number rec.timestamp_ns
      ∷ text ",\n"
      ∷ text "    \"barrier_margin\": "
      ∷ real rec.barrier_margin
      ∷ text ",\n"
      ∷ text "    \"commanded_torque\": "
      ∷ real rec.commanded_joint5_torque
      ∷ text ",\n"
      ∷ text "    \"safe_torque\": "
      ∷ real rec.safe_joint5_torque
      ∷ text ",\n"
      ∷ text "    \"active_mask\": "
      ∷ number rec.active_mask
      ∷ text "\n"
      ∷ text "  }"
      ∷ []

  -- the entries that are printed, each but the first behind a comma
  unfoldable pub print_all : Bool → List (Incident F) → List (Piece F)
  print_all first [] = []
  print_all first (incident ∷ rest) =
      (if first then [] else text ",\n" ∷ []) ++ (fields incident ++ print_all false rest)

module _ {S F : Type 0} (rocks : RocksDb S) (fb : FloatBits F) where
  -- The loop, over the entries from the last one on, with room for `n` more. A value of another size
  -- than a record's is passed over.
  unfoldable pub read_loop : ℕ → List (Bytes × Bytes) → List (Incident F)
  read_loop zero entries = []
  read_loop (suc n) [] = []
  read_loop (suc n) ((k, v) ∷ entries) = elim (length v == 32) [
    | true ↦ (k, decode fb v) ∷ read_loop n entries
    | false ↦ read_loop (suc n) entries
  ]

  unfoldable pub incidents : S → List (Incident F)
  incidents s = read_loop 50 (reverse (rocks.entries s ColumnFamily.cf_cbf_interventions))

  -- `main`; `opened` is what `DB::OpenForReadOnly` gives.
  unfoldable pub read_incidents : Option S → List (Piece F)
  unfolding print_all
  read_incidents none = text "[]\n" ∷ []
  read_incidents (some s) = text "[\n" ∷ (print_all true (incidents s) ++ (text "\n]\n" ∷ []))
