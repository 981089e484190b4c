-- ===== src/Import/Keeps/Finished.antt =====
-- What the end of the round of a file in src/bin/import.rs keeps.
use starnext_import.Checks.Dispatch.{Checked, check}
use starnext_import.Extract.Input.{InputCount}
use starnext_import.FieldMetadata.{FieldMetadata}
use starnext_import.Import.Ends.{Ends, Ends-and_next}
use starnext_import.Import.Finish.{
  calc_aadv, check_reported, finish_import, has_aadv, report, report_error, update_aadv,
  update_dates, update_metadata,
}
use starnext_import.Import.Keeps.{KeepsRound}
use starnext_import.Import.Keeps.InCheck.{check-keeps}
use starnext_import.External.Chrono.{Chrono}
use starnext_import.External.Connection.{Connection, info}
use starnext_import.External.FileSystem.{FileSystem, Formats}
use starnext_import.External.Float.{Float}
use starnext_import.External.Oracle.{Oracle}
use starnext_import.Logging.{World, import_log, log_msg}
use starnext_import.Prelude.FilePath.{FilePath}
use starnext_import.Prelude.Text.{Text, codes}
use starnext_import.Prelude.{
  ℕ, Bool, Option, none, some, Outcome, ok, err, panic, running, Bool-cases, inl, inr,
}

module _ ⦃c : Chrono⦄ ⦃f : Float⦄ {o : Oracle c f} (conn : Connection o) (fs : FileSystem)
    (formats : Formats) (as_i32 : o.SqlValue → Outcome o.OracleError ℕ) where
  module _ {flag : Bool} {path : FilePath} {r : ℕ} {P Q : World conn fs → Type 0}
      (keeps : KeepsRound conn fs formats flag path r P Q) where
    report-keeps :
        {E : Type 0} (failure : E → Text) (success : Text) (result : Option E × conn.State)
        (w : World conn fs)
        → P (record w { db = result.1 })
        → P (report conn fs formats as_i32 r failure success result w)
    report-keeps failure success (none, s) w h = keeps.counted.logs _ _ _ _ _ h
    report-keeps failure success (some e, s) w h = keeps.counted.logs _ _ _ _ _ h

    report_error-keeps :
        {E : Type 0} (failure : E → Text) (result : Option E × conn.State) (w : World conn fs)
        → P (record w { db = result.1 })
        → P (report_error conn fs formats as_i32 r failure result w)
    report_error-keeps failure (none, s) w h = h
    report_error-keeps failure (some e, s) w h = keeps.counted.logs _ _ _ _ _ h

    update_metadata-keeps :
        (m : FieldMetadata) (w : World conn fs)
        → P w
        → P (update_metadata conn fs formats as_i32 r m w)
    unfolding update_metadata
    update_metadata-keeps m w h =
        report-keeps _ _ _ _
          (keeps.counted.commits _ (report_error-keeps _ _ w (keeps.updates _ _ w h)))

    update_dates-keeps : (w : World conn fs) → P w → P (update_dates conn fs formats as_i32 r w)
    unfolding update_dates
    update_dates-keeps w h =
        report-keeps _ _ _ _ (keeps.calls _ _ _ (report-keeps _ _ _ w (keeps.calls _ _ w h)))

    update_aadv-keeps :
        (kind : InputCount) (w : World conn fs)
        → P w
        → P (update_aadv conn fs formats as_i32 r kind w)
    unfolding update_aadv calc_aadv
    update_aadv-keeps kind w h = elim (Bool-cases (has_aadv conn fs formats as_i32 r kind)) [
      | inl e ↦ rw e (report-keeps _ _ _ w (keeps.row_queries _ _ w h))
      | inr e ↦ rw e h
    ]

    check_reported-Ends :
        (m : Checked conn fs formats)
        → P m.1
        → Ends P Q P (check_reported conn fs formats as_i32 r m)
    check_reported-Ends (ok u, w) h = h
    check_reported-Ends (err e, w) h = keeps.counted.logs _ _ _ _ w h
    check_reported-Ends (panic, w) h = h
    check_reported-Ends (running, w) h = h

    -- At the end of the round the file is cleaned up, unless the program stops in a check.
    pub finish_import-Ends :
        (kind : InputCount) (m : FieldMetadata) (w : World conn fs)
        → P w
        → Ends Q Q P (finish_import conn fs formats as_i32 r flag path kind m w)
    unfolding finish_import
    finish_import-Ends kind m w h =
        let w1 = log_msg conn fs r import_log info (codes "Checking data") (
          update_aadv conn fs formats as_i32 r kind (
            update_dates conn fs formats as_i32 r
              (update_metadata conn fs formats as_i32 r m w))) in
        let h1 =
          keeps.counted.logs r import_log info (codes "Checking data") _
            (update_aadv-keeps kind _ (update_dates-keeps _ (update_metadata-keeps m w h))) in
        Ends-and_next P Q Q P (check_reported conn fs formats as_i32 r (check conn fs formats r w1))
          _
          (check_reported-Ends (check conn fs formats r w1)
            (check-keeps conn fs formats keeps r w1 h1))
          (λ w h. keeps.counted.cleans w h)
