-- ===== src/Database/Metadata/Limits.antt =====
-- How many records the functions of src/db/mod.rs create, and which of them can succeed.
use starnext_import.Database.Crud.{of_oracle}
use starnext_import.Database.Metadata.{
  Metadata, all_committed, create_records, created, insert_empty_metadata,
  insert_metadata_from_existing, metadata_columns, metadata_values, next_record, refusal,
}
use starnext_import.External.Chrono.{Chrono}
use starnext_import.External.Connection.{Connection}
use starnext_import.External.Float.{Float}
use starnext_import.External.Oracle.{Oracle}
use starnext_import.Prelude.Text.{Text, codes}
use starnext_import.Prelude.{
  ℕ, zero, suc, ◌+◌, ◌≤◌, ◌<◌, ◌≡◌, ◌≢◌, refl, ap, inl, inr, List, [], ◌∷◌, ◌++◌, length,
  length-append, Option, none, some, Option-cases, Outcome, ok, err, panic, running, arith,
}
use starnext_import.Types.Errors.{CountError}

refusal-none :
    ⦃c : Chrono⦄ ⦃f : Float⦄ {o : Oracle c f} (conn : Connection o) (number : ℕ)
    → refusal conn number ≡ none
    → (0 < number) × (number ≤ 50)
refusal-none conn number h = ground arith

module _ ⦃c : Chrono⦄ ⦃f : Float⦄ {o : Oracle c f} (conn : Connection o) where
  all_committed-ok :
      (recordnums : List ℕ) (result : Option o.OracleError × conn.State) {rs : List ℕ}
      → (all_committed conn recordnums result).0 ≡ ok rs
      → recordnums ≡ rs
  all_committed-ok recordnums (none, s) h = cc
  all_committed-ok recordnums (some e, s) h = cc

  next_record-ok :
      (result : Outcome CountError ℕ × conn.State)
      (rest : ℕ → conn.State → Outcome CountError (List ℕ) × conn.State) {rs : List ℕ}
      → (next_record conn result rest).0 ≡ ok rs
      → (n : ℕ) × (s : conn.State) × ((rest n s).0 ≡ ok rs)
  next_record-ok (ok n, s) rest h = (n, s, h)
  next_record-ok (err e, s) rest h = cc
  next_record-ok (panic, s) rest h = cc
  next_record-ok (running, s) rest h = cc

  create_records-length :
      (columns : List Text) (values : List o.SqlValue) (n : ℕ) (recordnums : List ℕ)
      (s : conn.State) {rs : List ℕ}
      → (create_records conn columns values n recordnums s).0 ≡ ok rs
      → length rs ≡ length recordnums + n
  unfolding create_records
  create_records-length columns values zero recordnums s h =
      omega (arith, ap length (all_committed-ok recordnums (conn.commit s) h))
  create_records-length columns values (suc n) recordnums s h =
      let result = conn.execute_returning (codes "tc_header") columns values s in
      let (r, s', k) =
        next_record-ok (created conn result.0, result.1)
          (λ recordnum s. create_records conn columns values n (recordnums ++ recordnum ∷ []) s)
          h in
      omega (
        arith,
        create_records-length columns values n (recordnums ++ r ∷ []) s' k,
        length-append recordnums (r ∷ []),
      )

  -- If the creation of empty records succeeds, at least 1 and at most 50 were asked for, and as many
  -- record numbers are given as were asked for.
  pub insert_empty_metadata-length :
      (number : ℕ) (s : conn.State) (rs : List ℕ)
      → (insert_empty_metadata conn number s).0 ≡ ok rs
      → (0 < number) × (number ≤ 50) × (length rs ≡ number)
  unfolding insert_empty_metadata
  insert_empty_metadata-length number s rs h = elim (Option-cases (refusal conn number)) [
    | inl e ↦
        let (low, high) = refusal-none conn number e in
        (low, high, omega (arith, create_records-length [] (o.null ∷ []) number [] s (rw e at h)))
    | inr (x, e) ↦ let err_is_ok = rw e at h in cc
  ]

  module _
      (bound : (table : Text) (columns : List Text) (values : List o.SqlValue) (s : conn.State)
        → length values ≢ suc (length columns)
        → (e : o.OracleError) × ((conn.execute_returning table columns values s).0 ≡ err e)) where
    first_record-err :
        (result : Outcome o.OracleError (Outcome o.OracleError (List ℕ)) × conn.State)
        (rest : ℕ → conn.State → Outcome CountError (List ℕ) × conn.State) (e : o.OracleError)
        → result.0 ≡ err e
        → (x : CountError) × ((next_record conn (created conn result.0, result.1) rest).0 ≡ err x)
    first_record-err (err e, s) rest x h = (_, refl)
    first_record-err (ok a, s) rest x h = cc
    first_record-err (panic, s) rest x h = cc
    first_record-err (running, s) rest x h = cc

    create_records-err :
        (m : Metadata) (n : ℕ) (s : conn.State)
        → 0 < n
        → (x : CountError) × ((create_records conn metadata_columns (metadata_values o m) n [] s).0
            ≡ err x)
    unfolding create_records
    create_records-err m zero s h = absurd (omega arith)
    create_records-err m (suc n) s h =
        let (e, failed) =
          bound (codes "tc_header") metadata_columns (metadata_values o m) s
            (λ same. omega (arith, same)) in
        first_record-err
          (conn.execute_returning (codes "tc_header") metadata_columns (metadata_values o m) s) _ e
          failed

    -- If a statement fails whose placeholders are not all bound, then records are never created from an
    -- existing one, whatever the number: a value is missing for the column TAKENBY.
    pub insert_metadata_from_existing-err :
        (number : ℕ) (m : Metadata) (s : conn.State)
        → (x : CountError) × ((insert_metadata_from_existing conn number m s).0 ≡ err x)
    unfolding insert_metadata_from_existing
    insert_metadata_from_existing-err number m s = elim (Option-cases (refusal conn number)) [
      | inr (x, e) ↦ (x, rw e refl)
      | inl e ↦ elim (Option-cases (conn.prepare (codes "tc_header") metadata_columns s)) [
        | inr (x, e') ↦ (of_oracle conn x, rw (e, e') refl)
        | inl e' ↦
            let (x, failed) = create_records-err m number s (refusal-none conn number e).0 in
            (x, rw (e, e') failed)
      ]
    ]
