-- ===== src/Import/Untouched.antt =====
-- The rows of other record numbers in the tables of counts: the import of a file leaves them.
use starnext_import.Database.Rows.{Row}
use starnext_import.Database.Session.{SessionLaws, rows_of}
use starnext_import.Database.Tables.{is_count_table}
use starnext_import.FieldMetadata.{FieldMetadata, from_path}
use starnext_import.Extract.Input.{InputCount}
use starnext_import.Import.Branches.{import_counts}
use starnext_import.Import.Keeps.Branches.{import_counts-Processing}
use starnext_import.Import.Ends.{Ends}
use starnext_import.Import.Keeps.{Keeps}
use starnext_import.Import.{Flow}
use starnext_import.Prelude.{◌≢◌, ◌<◌, u32_mod, ap}
use starnext_import.External.Chrono.{Chrono}
use starnext_import.External.Connection.{Connection}
use starnext_import.External.FileSystem.{FileSystem, Formats}
use starnext_import.External.Float.{Float}
use starnext_import.External.Oracle.{Oracle}
use starnext_import.Logging.{World}
use starnext_import.Prelude.FilePath.{FilePath}
use starnext_import.Prelude.Text.{Text}
use starnext_import.Prelude.{ℕ, List, ◌++◌, ◌≡◌, refl, ◌∙◌, Bool, true, ok}
use starnext_import.FieldMetadata.Bounds.{from_path-Bounded}
use starnext_import.Database.Foreign.{RowsAre}
use starnext_import.Import.RowsKept.{
  executed, without_rows, with_row, committed_now, unchanged, logged_kept, cleaned_kept,
}

module _ ⦃c : Chrono⦄ ⦃f : Float⦄ {o : Oracle c f} {conn : Connection o} (laws : SessionLaws conn)
    (q : ℕ) where
  module _ (t : Text) (X : List (Row o)) (listed : is_count_table t ≡ true) where
    module _ (fs : FileSystem) (formats : Formats) where
      -- In the import of a file of another record number, the rows of `q` are left.
      RowsAre-Keeps :
          (flag : Bool) (path : FilePath) (r : ℕ)
          → q ≢ r
          → r < u32_mod
          → Keeps conn fs formats flag path r
              (λ w. RowsAre laws q t X w.db)
              (λ w. RowsAre laws q t X w.db)
      RowsAre-Keeps flag path r ne bound = record {
        logs = λ n log level message w h.
            logged_kept laws q t X listed fs formats n log level message w h;
        deletes = λ table w counts h.
            executed laws q t X listed _ w.db refl
              (λ e.
                ap (rows_of o laws.equals t q) (
                  laws.delete_from-none w.db table.count_table table.count_recordnum_field r t
                    listed e)
                ∙ without_rows laws q t X listed table.count_table table.count_recordnum_field r
                    (laws.rows w.db t) ne counts.field)
              h;
        inserts = λ table v w counts number h.
            executed laws q t X listed _ w.db refl
              (λ e.
                ap (rows_of o laws.equals t q)
                  (laws.insert_into-none w.db table.count_table _ t listed e)
                ∙ with_row laws q t X listed table.count_table r (laws.rows w.db t) _
                    (number.columns_left ++ laws.left w.db table.count_table) ne bound
                    (ap (λ row. row ++ laws.left w.db table.count_table) number.first_column))
              h;
        commits = λ w h. committed_now laws q t X listed w.db h;
        queries = λ sql values w h.
            let (e, k) = laws.query-rows w.db sql values t listed in
            unchanged laws q t X listed w.db _ e k h;
        cleans = λ w h. cleaned_kept laws q t X listed fs formats flag path w h;
      }

      -- The rows of `q`, however a step ends.
      abbrev pub Untouched : Flow (World conn fs) → Type 0
      Untouched =
          Ends (λ w. RowsAre laws q t X w.db) (λ w. RowsAre laws q t X w.db)
            (λ w. RowsAre laws q t X w.db)

      -- Whatever fails in the import of the counts of a file, of any kind, and however it ends, the
      -- rows of every other record number stay as they were in every table of counts, both as the
      -- session reads them and as they were committed.
      pub import_counts-Untouched :
          (fuel : ℕ) (flag : Bool) (path : FilePath) (m : FieldMetadata)
          → from_path path ≡ ok m
          → q ≢ m.recordnum
          → (kind : InputCount) (w : World conn fs) → RowsAre laws q t X w.db
          → Untouched (import_counts conn fs formats fuel flag path m kind w)
      import_counts-Untouched fuel flag path m named ne kind w h =
          import_counts-Processing conn fs formats fuel m
            (RowsAre-Keeps flag path m.recordnum ne (from_path-Bounded path m named).0) named kind w
            h
