-- ===== src/Import/Finish.antt =====
-- The end of the round of a file in src/bin/import.rs, after its counts were inserted: metadata, the
-- stored procedures and the checks. `update_intermediate_aadv`, `update_setdate` and `calc_aadv` are
-- of src/db/mod.rs.
use starnext_import.Checks.Dispatch.{Checked, check}
use starnext_import.Database.Crud.{of_oracle}
use starnext_import.Database.HourQuery.{nth}
use starnext_import.Database.Value.{of_option}
use starnext_import.External.Chrono.{Chrono}
use starnext_import.External.Connection.{Connection, error, info, update, call}
use starnext_import.External.FileSystem.{FileSystem, Formats}
use starnext_import.External.Float.{Float}
use starnext_import.External.Oracle.{Oracle}
use starnext_import.Extract.Input.{InputCount, fifteen_minute_bicycle, individual_bicycle}
use starnext_import.FieldMetadata.Decimal.{decimal}
use starnext_import.FieldMetadata.{FieldMetadata}
use starnext_import.Import.{Flow, next, dies, starved, and_next}
use starnext_import.Logging.{World, import_log, log_msg, cleanup}
use starnext_import.Prelude.FilePath.{FilePath}
use starnext_import.Prelude.Text.{Text, codes}
use starnext_import.Prelude.{
  ℕ, [], ◌∷◌, ◌++◌, Bool, true, false, Option, none, some, if◌then◌else◌, Outcome, ok, err, panic,
  running, ◌>>=◌,
}
use starnext_import.Types.Errors.{CountError, db_error}

module _ ⦃c : Chrono⦄ ⦃f : Float⦄ {o : Oracle c f} (conn : Connection o) where
  abbrev pub update_intermediate_aadv : ℕ → conn.State → Option o.OracleError × conn.State
  update_intermediate_aadv recordnum s =
      conn.execute (call (codes "update_tc_countdate") recordnum) s

  abbrev pub update_setdate : ℕ → conn.State → Option o.OracleError × conn.State
  update_setdate recordnum s = conn.execute (call (codes "update_setdate") recordnum) s

  -- Every error is replaced by one text.
  abbrev pub aadv_result : ℕ → Outcome o.OracleError ℕ → Option CountError
  aadv_result recordnum (ok v) = none
  aadv_result recordnum (err e) =
      some (db_error (codes "Unable to calculate AADV for " ++ decimal recordnum))
  aadv_result recordnum panic = none
  aadv_result recordnum running = none

  unfoldable pub calc_aadv :
      (o.SqlValue → Outcome o.OracleError ℕ) → ℕ → conn.State → Option CountError × conn.State
  unfolding nth
  calc_aadv as_i32 recordnum s =
      let found =
        conn.query_row (codes "select calc_aadv(" ++ decimal recordnum ++ codes ") from dual") []
          s in
      (aadv_result recordnum (found.0 >>= λ row. nth o row 0 as_i32), found.1)

module _ ⦃c : Chrono⦄ ⦃f : Float⦄ {o : Oracle c f} (conn : Connection o) (fs : FileSystem)
    (formats : Formats) (as_i32 : o.SqlValue → Outcome o.OracleError ℕ) (recordnum : ℕ) where
  -- The match on a result that is logged either way.
  abbrev pub report :
      {E : Type 0} → (E → Text) → Text → Option E × conn.State → World conn fs → World conn fs
  report failure success (none, s) w =
      log_msg conn fs recordnum import_log info success (record w { db = s })
  report failure success (some e, s) w =
      log_msg conn fs recordnum import_log error (failure e) (record w { db = s })

  -- The match on a result that is logged if it is an error.
  abbrev pub report_error :
      {E : Type 0} → (E → Text) → Option E × conn.State → World conn fs → World conn fs
  report_error failure (none, s) w = record w { db = s }
  report_error failure (some e, s) w =
      log_msg conn fs recordnum import_log error (failure e) (record w { db = s })

  abbrev pub metadata_failed : o.OracleError → Text
  metadata_failed e = codes "Error updating metadata (tc_header table): " ++ o.display e

  unfoldable pub update_metadata : FieldMetadata → World conn fs → World conn fs
  update_metadata metadata w =
      let w1 =
        report_error metadata_failed
          (conn.execute
            (update (codes "tc_header")
              (codes
                "SET importdatadate = (select current_date from dual), status = :1, counterid = :2, speedlimit = :3 where recordnum = :4")
              (o.of_text (codes "imported")
                ∷ o.of_text metadata.counter_id
                ∷ of_option o o.of_u8 metadata.speed_limit
                ∷ o.of_u32 recordnum
                ∷ []))
            w.db)
          w in
      report metadata_failed (codes "Metadata updated (tc_header table)") (conn.commit w1.db) w1

  unfoldable pub update_dates : World conn fs → World conn fs
  update_dates w =
      let w1 =
        report
          (λ e.
            codes "Failed to update intermediate table TC_COUNTDATE: "
            ++ formats.display_error (of_oracle conn e))
          (codes "Intermediate table TC_COUNTDATE updated")
          (update_intermediate_aadv conn recordnum w.db) w in
      report
        (λ e. codes "Failed to update field SETDATE: " ++ formats.display_error (of_oracle conn e))
        (codes "Field SETDATE updated") (update_setdate conn recordnum w1.db) w1

  -- `count_type != InputCount::FifteenMinuteBicycle && count_type != InputCount::IndividualBicycle`
  abbrev pub has_aadv : InputCount → Bool
  has_aadv fifteen_minute_bicycle = false
  has_aadv individual_bicycle = false
  has_aadv _ = true

  unfoldable pub update_aadv : InputCount → World conn fs → World conn fs
  unfolding calc_aadv
  update_aadv count_type w =
      if has_aadv count_type
      then report (λ e. codes "Failed to calculate/insert AADV: " ++ formats.display_error e)
          (codes "AADV calculated and inserted") (calc_aadv conn as_i32 recordnum w.db) w
      else w

  -- The match on the result of `check`.
  abbrev pub check_reported : Checked conn fs formats → Flow (World conn fs)
  check_reported (ok u, w) = next w
  check_reported (err e, w) = next (
      log_msg conn fs recordnum import_log error
        (codes "An error occurred while checking data: "
          ++ formats.display_error e
          ++ codes "; warnings likely to be incomplete or incorrect.")
        w)
  check_reported (panic, w) = dies w
  check_reported (running, w) = starved w

  unfoldable pub finish_import :
      Bool → FilePath → InputCount → FieldMetadata → World conn fs → Flow (World conn fs)
  unfolding update_metadata update_dates update_aadv
  finish_import cleanup_files path count_type metadata w =
      let w1 = update_aadv count_type (update_dates (update_metadata metadata w)) in
      and_next
        (check_reported (
          check conn fs formats recordnum
            (log_msg conn fs recordnum import_log info (codes "Checking data") w1)))
        (λ w. next (cleanup conn fs formats cleanup_files path w))
