-- ===== src/Recorder/Reader/Latest.antt =====
-- What the reader shows of what the recorder has logged.
use mathlib.Core.List.{reverse, reverse-append}
use neuro_kinetic.Base.{
  ℕ, zero, suc, ◌≤◌, ◌<◌, ◌^◌, ◌≡◌, refl, ap, sym, ◌∙◌, true, false, none, some, List, [], ◌∷◌,
  ◌++◌, length, take, All, arith,
}
use neuro_kinetic.Recorder.{InterventionRecord, ColumnFamily}
use neuro_kinetic.Recorder.Decimal.Order.{lex_lt, lex_lt_irrefl, padded_order}
use neuro_kinetic.Recorder.Bytes.{FloatBits, IsBitCast, encode, decode, InRange, decode-encode}
use neuro_kinetic.Recorder.Store.{Bytes, RocksDb, IsStore, insert}
use neuro_kinetic.Recorder.Log.{
  FlightRecorder, open_recorder, intervention_key, intervene_prefix, log_cbf_intervention,
  log_telemetry_frame, flush,
}
use neuro_kinetic.Recorder.Reader.{Incident, read_loop, incidents}

lex_lt_asymm : (xs ys : List ℕ) → lex_lt xs ys ≡ true → lex_lt ys xs ≡ false
lex_lt_asymm [] [] h = refl
lex_lt_asymm [] (y ∷ ys) h = refl
lex_lt_asymm (x ∷ xs) [] h = cc
lex_lt_asymm (x ∷ xs) (y ∷ ys) h = ground (arith, lex_lt_asymm xs ys)

pub insert-last :
    (k v : Bytes) (l : List (Bytes × Bytes))
    → All (λ e. lex_lt e.0 k ≡ true) l
    → insert k v l ≡ l ++ ((k, v) ∷ [])
insert-last k v [] h = refl
insert-last k v ((j, w) ∷ rest) (h, hs) =
    rw (lex_lt_asymm j k h, h) (ap (◌∷◌ (j, w)) (insert-last k v rest hs))

insert-insert :
    (k v w : Bytes) (l : List (Bytes × Bytes)) → insert k w (insert k v l) ≡ insert k w l
insert-insert k v w [] = rw (lex_lt_irrefl k)
insert-insert k v w ((j, u) ∷ rest) =
    ground (arith, lex_lt_irrefl k, lex_lt_asymm k j, lex_lt_asymm j k, insert-insert k v w rest)

-- the entry was logged before the time `now`
abbrev pub WasLogged : ℕ → Bytes × Bytes → Type 0
WasLogged now e = (t : ℕ) × (e.0 ≡ intervention_key t) × (t < now)

pub All-WasLogged :
    (now : ℕ) (l : List (Bytes × Bytes))
    → now < 2 ^ 64
    → All (WasLogged now) l
    → All (λ e. lex_lt e.0 (intervention_key now) ≡ true) l
All-WasLogged now [] h all = tt
All-WasLogged now (e ∷ l) h ((t, at, before), rest) =
    (rw at (padded_order intervene_prefix t now before h), All-WasLogged now l h rest)

module _ {S F : Type 0} (rocks : RocksDb S) (fb : FloatBits F) where
  read_loop-take :
      (n : ℕ) (l : List (Bytes × Bytes))
      → read_loop rocks fb n l ≡ take n (read_loop rocks fb (suc n) l)
  unfolding read_loop
  read_loop-take zero l = refl
  read_loop-take (suc n) [] = refl
  read_loop-take (suc n) ((k, v) ∷ l) = ground (arith, read_loop-take n l, read_loop-take (suc n) l)

  pub read_loop-cons :
      (n : ℕ) (k v : Bytes) (l : List (Bytes × Bytes))
      → length v ≡ 32
      → read_loop rocks fb (suc n) ((k, v) ∷ l) ≡ (k, decode fb v) ∷ read_loop rocks fb n l
  unfolding read_loop
  read_loop-cons n k v l e = ground arith

  length-read_loop : (n : ℕ) (l : List (Bytes × Bytes)) → length (read_loop rocks fb n l) ≤ n
  unfolding read_loop
  length-read_loop zero l = omega arith
  length-read_loop (suc n) [] = omega arith
  length-read_loop (suc n) ((k, v) ∷ l) =
      ground (arith, length-read_loop n l, length-read_loop (suc n) l)

  -- The reader shows at most fifty incidents, whatever the store holds.
  pub incidents_bounded : (s : S) → length (incidents rocks fb s) ≤ 50
  unfolding incidents
  incidents_bounded s =
      length-read_loop 50 (reverse (rocks.entries s ColumnFamily.cf_cbf_interventions))

  -- Without a database nothing is logged: both logging calls return `false`, and neither they nor
  -- `flush` change the recorder.
  closed_recorder_refuses :
      (rec : InterventionRecord F) (seq ts_ns : ℕ) (positions torques : List F)
      → let r : FlightRecorder S = open_recorder none in
        (log_cbf_intervention rocks fb r rec ≡ (false, r))
        × (log_telemetry_frame rocks fb r seq ts_ns positions torques ≡ (false, r))
        × (flush rocks fb r ≡ r)
  unfolding open_recorder log_cbf_intervention log_telemetry_frame flush
  closed_recorder_refuses rec seq ts_ns positions torques = (refl, refl, refl)

  -- The intervention entries of the database that a recorder has open.
  abbrev pub logged : FlightRecorder S → List (Bytes × Bytes)
  logged r = elim r.db [ none ↦ [] | some s ↦ rocks.entries s ColumnFamily.cf_cbf_interventions ]

  -- what the reader prints of that database
  abbrev pub shown : FlightRecorder S → List (Incident F)
  shown r = elim r.db [ none ↦ [] | some s ↦ incidents rocks fb s ]

  module _ (laws : IsStore S rocks) (s : S) where
    open laws use {entries-put, entries-flush_wal}

    opened : FlightRecorder S
    opened = open_recorder (some s)

    -- A call that returns `true` has put the record's bytes under its key.
    pub logged-log_cbf_intervention :
        (rec : InterventionRecord F)
        → (log_cbf_intervention rocks fb (open_recorder (some s)) rec).0 ≡ true
        → logged (log_cbf_intervention rocks fb (open_recorder (some s)) rec).1
          ≡ insert
              (intervention_key rec.timestamp_ns)
              (encode fb rec)
              (rocks.entries s ColumnFamily.cf_cbf_interventions)
    unfolding open_recorder log_cbf_intervention
    logged-log_cbf_intervention rec ok = ground (
      arith,
      entries-put s ColumnFamily.cf_cbf_interventions (intervention_key rec.timestamp_ns)
          (encode fb rec),
      entries-flush_wal
          (rocks.put s ColumnFamily.cf_cbf_interventions (intervention_key rec.timestamp_ns)
            (encode fb rec)).0
          ColumnFamily.cf_cbf_interventions,
    )

    shown-eq :
        (rec : InterventionRecord F)
        → shown (log_cbf_intervention rocks fb (open_recorder (some s)) rec).1
          ≡ read_loop rocks fb 50
              (reverse (logged (log_cbf_intervention rocks fb (open_recorder (some s)) rec).1))
    unfolding open_recorder log_cbf_intervention incidents
    shown-eq rec = refl

    -- From the recorder to the reader: if every intervention in the store was logged before a record's
    -- time, the record's integers fit their types, and logging it returns `true`, then the reader shows
    -- that record first, as it was logged, and behind it the first 49 that it showed before.
    newest_incident_first :
        IsBitCast F fb
        → (rec : InterventionRecord F) → InRange fb rec
        → All (WasLogged rec.timestamp_ns) (rocks.entries s ColumnFamily.cf_cbf_interventions)
        → (log_cbf_intervention rocks fb (open_recorder (some s)) rec).0 ≡ true
        → shown (log_cbf_intervention rocks fb (open_recorder (some s)) rec).1
          ≡ (intervention_key rec.timestamp_ns, rec) ∷ take 49 (incidents rocks fb s)
    unfolding incidents
    newest_incident_first laws rec fits earlier ok =
        let old = rocks.entries s ColumnFamily.cf_cbf_interventions in
        let now = intervention_key rec.timestamp_ns in
        let (size, same) = decode-encode fb laws rec fits in
        rw (
          shown-eq rec,
          logged-log_cbf_intervention rec ok,
          insert-last now (encode fb rec) old
              (All-WasLogged rec.timestamp_ns old fits.timestamp_in earlier),
          reverse-append old ((now, encode fb rec) ∷ []),
          read_loop-cons 49 now (encode fb rec) (reverse old) size,
          same,
          read_loop-take 49 (reverse old),
        )

  logged-open :
      (s : S) → logged (open_recorder (some s)) ≡ rocks.entries s ColumnFamily.cf_cbf_interventions
  unfolding open_recorder
  logged-open s = refl

  -- Of two interventions with one timestamp that are both logged with success, the store keeps only
  -- the later one: it is as if the first had not been logged.
  pub same_timestamp_overwrites :
      (laws : IsStore S rocks) (s s' : S) (one two : InterventionRecord F)
      → one.timestamp_ns ≡ two.timestamp_ns
      → log_cbf_intervention rocks fb (open_recorder (some s)) one ≡ (true, open_recorder (some s'))
      → (log_cbf_intervention rocks fb (open_recorder (some s')) two).0 ≡ true
      → logged (log_cbf_intervention rocks fb (open_recorder (some s')) two).1
        ≡ insert
            (intervention_key two.timestamp_ns)
            (encode fb two)
            (rocks.entries s ColumnFamily.cf_cbf_interventions)
  same_timestamp_overwrites laws s s' one two e first ok =
      let before = rocks.entries s ColumnFamily.cf_cbf_interventions in
      let done = ap (λ p. p.0) first in
      let after : rocks.entries s' ColumnFamily.cf_cbf_interventions
          ≡ insert (intervention_key two.timestamp_ns) (encode fb one) before =
        sym (logged-open s')
        ∙ sym (ap (λ p. logged p.1) first)
        ∙ logged-log_cbf_intervention laws s one done
        ∙ ap (λ t. insert (intervention_key t) (encode fb one) before) e in
      logged-log_cbf_intervention laws s' two ok
      ∙ ap (insert (intervention_key two.timestamp_ns) (encode fb two)) after
      ∙ insert-insert (intervention_key two.timestamp_ns) (encode fb one) (encode fb two) before
