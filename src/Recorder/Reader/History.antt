-- ===== src/Recorder/Reader/History.antt =====
-- What the reader shows of a whole series of interventions.
use mathlib.Core.List.{reverse, reverse-append}
use neuro_kinetic.Base.{
  ℕ, zero, suc, ◌+◌, ◌≤◌, ◌<◌, ◌^◌, ◌≡◌, refl, ap, ap₂, subst, sym, ◌∙◌, true, some, List, [], ◌∷◌,
  ◌++◌, map, take, All, arith,
}
use neuro_kinetic.Recorder.{InterventionRecord, ColumnFamily}
use neuro_kinetic.Recorder.Bytes.{FloatBits, IsBitCast, encode, InRange, decode-encode}
use neuro_kinetic.Recorder.Store.{Bytes, RocksDb, IsStore}
use neuro_kinetic.Recorder.Log.{
  FlightRecorder, open_recorder, destroy, intervention_key, log_cbf_intervention, flush,
}
use neuro_kinetic.Recorder.Reader.{Incident, read_loop, incidents}
use neuro_kinetic.Recorder.Reader.Latest.{WasLogged, All-WasLogged, insert-last, read_loop-cons}

module _ {S F : Type 0} (rocks : RocksDb S) (fb : FloatBits F) where
  -- fewer entries are the first ones of more
  read_loop-take_le :
      (n m : ℕ) (l : List (Bytes × Bytes))
      → n ≤ m
      → read_loop rocks fb n l ≡ take n (read_loop rocks fb m l)
  unfolding read_loop
  read_loop-take_le zero m l h = refl
  read_loop-take_le (suc n) zero l h = absurd (omega arith)
  read_loop-take_le (suc n) (suc m) [] h = refl
  read_loop-take_le (suc n) (suc m) ((k, v) ∷ l) h =
      ground (arith, read_loop-take_le n m l, read_loop-take_le (suc n) (suc m) l)

  -- the entry of a record, and what the reader makes of it
  abbrev pub entry : InterventionRecord F → Bytes × Bytes
  entry rec = (intervention_key rec.timestamp_ns, encode fb rec)

  abbrev pub shown_as : InterventionRecord F → Incident F
  shown_as rec = (intervention_key rec.timestamp_ns, rec)

  read_loop-append :
      IsBitCast F fb
      → (n m : ℕ) (recs : List (InterventionRecord F)) (old : List (Bytes × Bytes)) → n ≤ m
      → All (InRange fb) recs
      → read_loop rocks fb n (map entry recs ++ old)
        ≡ take n (map shown_as recs ++ read_loop rocks fb m old)
  unfolding read_loop
  read_loop-append laws n m [] old h fits = read_loop-take_le n m old h
  read_loop-append laws zero m (rec ∷ recs) old h fits = refl
  read_loop-append laws (suc n) m (rec ∷ recs) old h (fit, fits) =
      let (size, same) = decode-encode fb laws rec fit in
      read_loop-cons rocks fb n (intervention_key rec.timestamp_ns) (encode fb rec)
        (map entry recs ++ old) size
      ∙ ap₂ (λ r l. (intervention_key rec.timestamp_ns, r) ∷ l) same
          (read_loop-append laws n m recs old (omega arith) fits)

  -- An open recorder whose interventions, newest first, are `l`, all of them logged before `now`.
  pub record IsStoring (now : ℕ) (l : List (Bytes × Bytes)) (r : FlightRecorder S) : Type 0 where
    pub state : S
    pub opened : r ≡ open_recorder (some state)
    pub newest_first : reverse (rocks.entries state ColumnFamily.cf_cbf_interventions) ≡ l
    pub earlier : All (WasLogged now) (rocks.entries state ColumnFamily.cf_cbf_interventions)

  All-later :
      (now later : ℕ) (l : List (Bytes × Bytes))
      → now ≤ later
      → All (WasLogged now) l
      → All (WasLogged later) l
  All-later now later [] h all = tt
  All-later now later (e ∷ l) h ((t, at, before), rest) =
      ((t, at, omega arith), All-later now later l h rest)

  All-last :
      (now : ℕ) (l : List (Bytes × Bytes)) (e : Bytes × Bytes)
      → All (WasLogged now) l
      → WasLogged now e
      → All (WasLogged now) (l ++ (e ∷ []))
  All-last now [] e all h = (h, tt)
  All-last now (x ∷ l) e (here, all) h = (here, All-last now l e all h)

  pub IsStoring-later :
      (now later : ℕ) (l : List (Bytes × Bytes)) (r : FlightRecorder S)
      → now ≤ later
      → IsStoring now l r
      → IsStoring later l r
  IsStoring-later now later l r h storing = record {
    state = storing.state;
    opened = storing.opened;
    newest_first = storing.newest_first;
    earlier =
        All-later now later (rocks.entries storing.state ColumnFamily.cf_cbf_interventions) h
          storing.earlier;
  }

  module _ (laws : IsStore S rocks) where
    -- one more record, and its time goes by
    pub log-IsStoring :
        (now : ℕ) (l : List (Bytes × Bytes)) (r : FlightRecorder S) (rec : InterventionRecord F)
        → now ≤ rec.timestamp_ns
        → rec.timestamp_ns < 2 ^ 64
        → (log_cbf_intervention rocks fb r rec).0 ≡ true
        → IsStoring now l r
        → IsStoring (rec.timestamp_ns + 1) (entry rec ∷ l) (log_cbf_intervention rocks fb r rec).1
    unfolding log_cbf_intervention open_recorder
    log-IsStoring now l r rec at small logged h =
        let s = h.state in
        let k = intervention_key rec.timestamp_ns in
        let v = encode fb rec in
        let accepted : (rocks.put s ColumnFamily.cf_cbf_interventions k v).1 ≡ true =
          ap (λ o. (log_cbf_intervention rocks fb o rec).0) (sym h.opened) ∙ logged in
        let before = rocks.entries s ColumnFamily.cf_cbf_interventions in
        let after =
          laws.entries-flush_wal (rocks.put s ColumnFamily.cf_cbf_interventions k v).0
            ColumnFamily.cf_cbf_interventions
          ∙ laws.entries-put s ColumnFamily.cf_cbf_interventions k v accepted
          ∙ insert-last k v before (
              All-WasLogged rec.timestamp_ns before small
                (All-later now rec.timestamp_ns before at h.earlier)) in
        subst
          (λ o.
            IsStoring (rec.timestamp_ns + 1) (entry rec ∷ l)
              (log_cbf_intervention rocks fb o rec).1)
          (sym h.opened)
          (record {
            state = rocks.flush_wal (rocks.put s ColumnFamily.cf_cbf_interventions k v).0;
            opened = rw accepted;
            newest_first =
                ap reverse after
                ∙ reverse-append before ((k, v) ∷ [])
                ∙ ap (◌∷◌ (k, v)) h.newest_first;
            earlier = subst (All (WasLogged (rec.timestamp_ns + 1))) (sym after) (
                All-last (rec.timestamp_ns + 1) before (k, v)
                  (All-later now (rec.timestamp_ns + 1) before (omega arith) h.earlier)
                  (rec.timestamp_ns, refl, omega arith));
          })

    pub flush-IsStoring :
        (now : ℕ) (l : List (Bytes × Bytes)) (r : FlightRecorder S)
        → IsStoring now l r
        → IsStoring now l (flush rocks fb r)
    unfolding flush open_recorder
    flush-IsStoring now l r h =
        let same =
          laws.entries-flush h.state ColumnFamily.cf_cbf_interventions
            ColumnFamily.cf_cbf_interventions in
        subst (λ o. IsStoring now l (flush rocks fb o)) (sym h.opened)
          (record {
            state = rocks.flush h.state ColumnFamily.cf_cbf_interventions;
            opened = refl;
            newest_first = ap reverse same ∙ h.newest_first;
            earlier = subst (All (WasLogged now)) (sym same) h.earlier;
          })

    -- the destructor leaves the database as it was
    pub destroy-IsStoring :
        (now : ℕ) (l : List (Bytes × Bytes)) (r : FlightRecorder S)
        → IsStoring now l r
        → (left : S) × (destroy rocks fb r ≡ some left)
          × (reverse (rocks.entries left ColumnFamily.cf_cbf_interventions) ≡ l)
    unfolding destroy flush open_recorder
    destroy-IsStoring now l r h = (
      rocks.flush h.state ColumnFamily.cf_cbf_interventions,
      ap (destroy rocks fb) h.opened,
      ap reverse (
            laws.entries-flush h.state ColumnFamily.cf_cbf_interventions
              ColumnFamily.cf_cbf_interventions)
          ∙ h.newest_first,
    )

  -- what the reader shows of records in front of the state `old`
  pub incidents-map :
      IsBitCast F fb
      → (recs : List (InterventionRecord F)) (old left : S) → All (InRange fb) recs
      → reverse (rocks.entries left ColumnFamily.cf_cbf_interventions)
        ≡ map entry recs ++ reverse (rocks.entries old ColumnFamily.cf_cbf_interventions)
      → incidents rocks fb left ≡ take 50 (map shown_as recs ++ incidents rocks fb old)
  unfolding incidents
  incidents-map laws recs old left fits e =
      ap (read_loop rocks fb 50) e
      ∙ read_loop-append laws 50 50 recs
          (reverse (rocks.entries old ColumnFamily.cf_cbf_interventions)) (omega arith) fits
