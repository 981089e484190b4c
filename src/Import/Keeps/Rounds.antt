-- ===== src/Import/Keeps/Rounds.antt =====
-- What the round of a file in src/bin/import.rs keeps, from the test of its name to its clean-up.
use starnext_import.Extract.Input.{InputCount}
use starnext_import.FieldMetadata.{FieldMetadata, from_path}
use starnext_import.Import.Ends.{Ends, Ends-and_next}
use starnext_import.Import.Keeps.{KeepsRound, Processing-give_up}
use starnext_import.Import.Keeps.Branches.{import_counts-Processing}
use starnext_import.Import.Keeps.Finished.{finish_import-Ends}
use starnext_import.Import.Loop.{header_row, if_in_header, import_file, named, process_count}
use starnext_import.Import.{Flow}
use starnext_import.External.Chrono.{Chrono}
use starnext_import.External.Connection.{Connection}
use starnext_import.External.FileSystem.{FileSystem, Formats}
use starnext_import.External.Float.{Float}
use starnext_import.External.Oracle.{Oracle}
use starnext_import.Logging.{World}
use starnext_import.Prelude.FilePath.{FilePath}
use starnext_import.Prelude.{ℕ, ◌≡◌, Bool, Outcome, ok, err, panic, running}

module _ ⦃c : Chrono⦄ ⦃f : Float⦄ {o : Oracle c f} (conn : Connection o) (fs : FileSystem)
    (formats : Formats) (as_i32 : o.SqlValue → Outcome o.OracleError ℕ) (fuel : ℕ) {flag : Bool}
    (path : FilePath) where
  module _ (m : FieldMetadata) {P Q : World conn fs → Type 0}
      (keeps : KeepsRound conn fs formats flag path m.recordnum P Q) where
    if_in_header-Ends :
        {A : Type 0} (found : Outcome o.OracleError A × conn.State)
        (rest : World conn fs → Flow (World conn fs)) (w : World conn fs)
        → P (record w { db = found.1 })
        → ((w : World conn fs) → P w → Ends Q Q P (rest w))
        → Ends Q Q P (if_in_header conn fs formats as_i32 fuel flag path m.recordnum found rest w)
    if_in_header-Ends (ok v, s) rest w h k = k _ h
    if_in_header-Ends (err e, s) rest w h k = Processing-give_up conn fs formats keeps.counted _ _ h
    if_in_header-Ends (panic, s) rest w h k = h
    if_in_header-Ends (running, s) rest w h k = h

    import_file-Ends :
        (kind : InputCount) (w : World conn fs)
        → from_path path ≡ ok m
        → P w
        → Ends Q Q P (import_file conn fs formats as_i32 fuel flag path kind m w)
    unfolding import_file
    import_file-Ends kind w named h =
        Ends-and_next P Q Q P _ _
          (import_counts-Processing conn fs formats fuel m keeps.counted named kind _
            (keeps.counted.logs _ _ _ _ w h))
          (finish_import-Ends conn fs formats as_i32 keeps kind m)

    -- A file whose kind and metadata are known is finished or given up, and then cleaned up, or the
    -- program stops.
    pub process_count-Ends :
        (kind : InputCount) (w : World conn fs)
        → from_path path ≡ ok m
        → P w
        → Ends Q Q P (process_count conn fs formats as_i32 fuel flag path kind m w)
    unfolding process_count header_row
    process_count-Ends kind w named h =
        if_in_header-Ends (header_row conn fs formats as_i32 fuel flag m.recordnum w.db)
          (import_file conn fs formats as_i32 fuel flag path kind m) w (keeps.row_queries _ _ w h)
          (λ w h. import_file-Ends kind w named h)
