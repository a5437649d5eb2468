-- ===== src/Recorder/Store.antt =====
-- What the recorder and its reader use of RocksDB: a store of keys and values in each column family.
use neuro_kinetic.Base.{◌≡◌, refl, Bool, true, if◌then◌else◌, List, [], ◌∷◌}
pub use neuro_kinetic.Base.Text.{Bytes}
use neuro_kinetic.Recorder.{ColumnFamily}
use neuro_kinetic.Recorder.Decimal.Order.{lex_lt}

-- `Put`, `FlushWAL(false)` and `Flush` of an open database, and an iterator's entries in the order of
-- the keys. `Put` returns whether its status is ok.
pub record RocksDb (S : Type 0) : Type 0 where
  pub put : S → ColumnFamily → Bytes → Bytes → S × Bool
  pub flush_wal : S → S
  pub flush : S → ColumnFamily → S
  pub entries : S → ColumnFamily → List (Bytes × Bytes)

-- An entry takes its place in the order of the keys, or that of an entry with its key.
abbrev pub insert : Bytes → Bytes → List (Bytes × Bytes) → List (Bytes × Bytes)
insert k v [] = (k, v) ∷ []
insert k v ((j, w) ∷ rest) =
    if lex_lt k j
    then (k, v) ∷ (j, w) ∷ rest
    else (if lex_lt j k then (j, w) ∷ insert k v rest else (k, v) ∷ rest)

-- What RocksDB documents: a `Put` that succeeds sets the key in its column family, and flushing
-- changes no entry.
pub record IsStore (S : Type 0) (db : RocksDb S) : Type 0 where
  pub entries-put :
      (s : S) (cf : ColumnFamily) (k v : Bytes)
      → (db.put s cf k v).1 ≡ true
      → db.entries (db.put s cf k v).0 cf ≡ insert k v (db.entries s cf)
  pub entries-flush_wal :
      (s : S) (cf : ColumnFamily) → db.entries (db.flush_wal s) cf ≡ db.entries s cf
  pub entries-flush : (s : S) (c cf : ColumnFamily) → db.entries (db.flush s c) cf ≡ db.entries s cf

-- A store in memory, which meets the laws.
pub record Memory : Type 0 where
  pub interventions : List (Bytes × Bytes)
  pub telemetry : List (Bytes × Bytes)
  pub other : List (Bytes × Bytes)

abbrev contents : Memory → ColumnFamily → List (Bytes × Bytes)
contents m ColumnFamily.default_family = m.other
contents m ColumnFamily.cf_cbf_interventions = m.interventions
contents m ColumnFamily.cf_flight_telemetry = m.telemetry

abbrev store : Memory → ColumnFamily → List (Bytes × Bytes) → Memory
store m ColumnFamily.default_family l = record m { other = l }
store m ColumnFamily.cf_cbf_interventions l = record m { interventions = l }
store m ColumnFamily.cf_flight_telemetry l = record m { telemetry = l }

abbrev pub memory_db : RocksDb Memory
memory_db = record {
  put = λ m cf k v. (store m cf (insert k v (contents m cf)), true);
  flush_wal = λ m. m;
  flush = λ m cf. m;
  entries = contents;
}

contents-store :
    (m : Memory) (cf : ColumnFamily) (l : List (Bytes × Bytes)) → contents (store m cf l) cf ≡ l
contents-store m ColumnFamily.default_family l = refl
contents-store m ColumnFamily.cf_cbf_interventions l = refl
contents-store m ColumnFamily.cf_flight_telemetry l = refl

pub memory-IsStore : IsStore Memory memory_db
memory-IsStore = record {
  entries-put = λ m cf k v ok. contents-store m cf (insert k v (contents m cf));
  entries-flush_wal = λ m cf. refl;
  entries-flush = λ m c cf. refl;
}
