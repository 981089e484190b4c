-- ===== src/Import/Keeps.antt =====
-- What the calls in src/bin/import.rs keep. A property that each call on the database, each log line
-- and the clean-up keeps is kept by the whole round of a file, however it ends.
pub mod InCheck
pub mod Finished
pub mod Numbered
pub mod Branches
pub mod Rounds
use starnext_import.Checks.Directions.{
  check_bike_dir_proportionality, check_vehicle_dir_proportionality, if_both,
}
use starnext_import.Checks.Dispatch.{
  Checked, and_then, check, check_found, check_if, check_kind, get_count_kind, is_bicycle, is_class,
  is_volume, is_warning, log_warning,
}
use starnext_import.Checks.Queries.{
  check_excessive_bicycles, check_share_class2_vehicles, check_share_unclassed_vehicles,
  get_c2_c15_total_counts,
}
use starnext_import.Checks.{CheckResult}
use starnext_import.Database.Crud.{delete, insert, and_commit, prepare_insert}
use starnext_import.Database.HourQuery.{Normalized, denormalized}
use starnext_import.Database.Rows.{Row, bind}
use starnext_import.Database.Tables.{Crud, is_count_table, record_field}
use starnext_import.External.Chrono.{Chrono}
use starnext_import.External.Connection.{Connection, Level, delete_from, insert_into, update, call}
use starnext_import.External.FileSystem.{FileSystem, Formats}
use starnext_import.External.Float.{Float}
use starnext_import.External.Oracle.{Oracle}
use starnext_import.Import.Ends.{Ends, Ends-and_next}
use starnext_import.Import.Finish.{
  calc_aadv, check_reported, finish_import, report, report_error, update_aadv, update_dates,
  update_metadata,
}
use starnext_import.Import.{
  Flow, next, skip, dies, starved, and_next, give_up, extracted, computed, unwrapped,
  delete_records, insert_result, insert_counts, commit_result, insert_and_commit,
}
use starnext_import.Logging.{World, Log, log_msg, cleanup}
use starnext_import.Prelude.FilePath.{FilePath}
use starnext_import.Prelude.Text.{Text, codes, text_eq}
use starnext_import.Prelude.{
  ℕ, List, [], ◌∷◌, ◌++◌, ◌≡◌, refl, Bool, true, false, Option, none, some, Outcome, ok, err, panic,
  running, ◌>>=◌, All, Gives, if◌then◌else◌, Bool-cases, inl, inr,
}
use starnext_import.Types.CountKind.{CountKind}
use starnext_import.Types.Errors.{CountError}

-- A table of counts, whose field for the record number is the one it declares.
pub record IsCountTable {S A : Type 0} (table : Crud S A) : Type 0 where
  pub listed : is_count_table table.count_table ≡ true
  pub field : table.count_recordnum_field ≡ record_field table.count_table

module _ ⦃c : Chrono⦄ ⦃f : Float⦄ (o : Oracle c f) where
  -- The row of a count has the record number `r`, in its first column.
  pub record HasNumber {A : Type 0} (r : ℕ) (table : Crud o.SqlValue A) (v : A) : Type 0 where
    pub columns_left : Row o
    pub first_column :
        bind o table.columns (table.values v)
        ≡ (record_field table.count_table, o.of_u32 r) ∷ columns_left

module _ ⦃c : Chrono⦄ ⦃f : Float⦄ {o : Oracle c f} (conn : Connection o) (fs : FileSystem)
    (formats : Formats) where
  -- What is kept while the counts of the file `path` with the record number `r` are imported: `P` while
  -- the file is processed, and `Q` once it is cleaned up.
  pub record Keeps (flag : Bool) (path : FilePath) (r : ℕ) (P Q : World conn fs → Type 0)
      : Type 1 where
    pub logs :
        (n : ℕ) (log : Log) (level : Level) (message : Text) (w : World conn fs)
        → P w
        → P (log_msg conn fs n log level message w)
    pub deletes :
        {A : Type 0} (table : Crud o.SqlValue A) (w : World conn fs)
        → IsCountTable table
        → P w
        → P (record w {
          db = (conn.execute (delete_from table.count_table table.count_recordnum_field r) w.db).1;
        })
    pub inserts :
        {A : Type 0} (table : Crud o.SqlValue A) (v : A) (w : World conn fs)
        → IsCountTable table
        → HasNumber o r table v
        → P w
        → P (record w { db = (insert conn table v w.db).1 })
    pub commits : (w : World conn fs) → P w → P (record w { db = (conn.commit w.db).1 })
    pub queries :
        (sql : Text) (values : List o.SqlValue) (w : World conn fs)
        → P w
        → P (record w { db = (conn.query sql values w.db).1 })
    pub cleans : (w : World conn fs) → P w → Q (cleanup conn fs formats flag path w)

  -- The same with the calls at the end of the round too.
  pub record KeepsRound (flag : Bool) (path : FilePath) (r : ℕ) (P Q : World conn fs → Type 0)
      : Type 1 where
    pub counted : Keeps flag path r P Q
    pub updates :
        (clause : Text) (values : List o.SqlValue) (w : World conn fs)
        → P w
        → P (record w { db = (conn.execute (update (codes "tc_header") clause values) w.db).1 })
    pub calls :
        (procedure : Text) (n : ℕ) (w : World conn fs)
        → P w
        → P (record w { db = (conn.execute (call procedure n) w.db).1 })
    pub row_queries :
        (sql : Text) (values : List o.SqlValue) (w : World conn fs)
        → P w
        → P (record w { db = (conn.query_row sql values w.db).1 })

  module _ {flag : Bool} {path : FilePath} {r : ℕ} {P Q : World conn fs → Type 0}
      (keeps : Keeps flag path r P Q) where
    -- How a step ends in which the file is not finished.
    abbrev pub Processing : Flow (World conn fs) → Type 0
    Processing = Ends P Q P

    pub Processing-give_up :
        (message : Text) (w : World conn fs)
        → P w
        → Processing (give_up conn fs formats flag path r message w)
    Processing-give_up message w h = keeps.cleans _ (keeps.logs _ _ _ _ w h)

    pub Processing-extracted :
        {A : Type 0} (V : A → Type 0) (result : Outcome CountError A)
        (rest : A → World conn fs → Flow (World conn fs)) (w : World conn fs)
        → Gives V result
        → P w
        → ((v : A) (w : World conn fs) → V v → P w → Processing (rest v w))
        → Processing (extracted conn fs formats flag path r result rest w)
    Processing-extracted V (ok v) rest w g h k = k v w g h
    Processing-extracted V (err e) rest w g h k = Processing-give_up _ w h
    Processing-extracted V panic rest w g h k = h
    Processing-extracted V running rest w g h k = h

    pub Processing-computed :
        {A : Type 0} (V : A → Type 0) (result : Outcome CountError A)
        (rest : A → World conn fs → Flow (World conn fs)) (w : World conn fs)
        → Gives V result
        → P w
        → ((v : A) (w : World conn fs) → V v → P w → Processing (rest v w))
        → Processing (computed conn fs formats flag path r result rest w)
    Processing-computed V (ok v) rest w g h k = k v w g h
    Processing-computed V (err e) rest w g h k = h
    Processing-computed V panic rest w g h k = h
    Processing-computed V running rest w g h k = h

    unwrapped-Processing :
        (result : Option o.OracleError × conn.State) (w : World conn fs)
        → P (record w { db = result.1 })
        → Processing (unwrapped conn fs formats flag path r result w)
    unwrapped-Processing (none, s) w h = h
    unwrapped-Processing (some e, s) w h = h

    and_commit-keeps :
        (result : Option o.OracleError × conn.State) (w : World conn fs)
        → P (record w { db = result.1 })
        → P (record w { db = (and_commit conn result).1 })
    and_commit-keeps (none, s) w h = keeps.commits (record w { db = s }) h
    and_commit-keeps (some e, s) w h = h

    pub Processing-delete_records :
        {A : Type 0} (table : Crud o.SqlValue A) (w : World conn fs)
        → IsCountTable table
        → P w
        → Processing (delete_records conn fs formats flag path r table w)
    unfolding delete_records delete
    Processing-delete_records table w listed h =
        unwrapped-Processing _ w (and_commit-keeps _ w (keeps.deletes table w listed h))

    insert_result-Processing :
        (result : Option o.OracleError × conn.State) (shown : Text)
        (rest : World conn fs → Flow (World conn fs)) (w : World conn fs)
        (message : o.OracleError → Text)
        → P (record w { db = result.1 })
        → ((w : World conn fs) → P w → Processing (rest w))
        → Processing (insert_result conn fs formats flag path r rest shown result w message)
    insert_result-Processing (none, s) shown rest w message h k = k _ h
    insert_result-Processing (some e, s) shown rest w message h k = Processing-give_up _ _ h

    insert_counts-Processing :
        {A : Type 0} (table : Crud o.SqlValue A) (debug : A → Text) (tail : Text) (counts : List A)
        (w : World conn fs)
        → IsCountTable table
        → All (HasNumber o r table) counts
        → P w
        → Processing (insert_counts conn fs formats flag path r table debug tail counts w)
    unfolding insert_counts
    insert_counts-Processing table debug tail [] w listed numbers h = h
    insert_counts-Processing table debug tail (count ∷ counts) w listed numbers h =
        insert_result-Processing (insert conn table count w.db) (debug count) _ w _
          (keeps.inserts table count w listed numbers.0 h)
          (λ w h. insert_counts-Processing table debug tail counts w listed numbers.1 h)

    commit_result-Processing :
        (kind table : Text) (result : Option o.OracleError × conn.State) (w : World conn fs)
        → P (record w { db = result.1 })
        → Processing (commit_result conn fs formats flag path r kind table result w)
    commit_result-Processing kind table (none, s) w h = keeps.logs _ _ _ _ _ h
    commit_result-Processing kind table (some e, s) w h = Processing-give_up _ _ h

    pub Processing-insert_and_commit :
        {A : Type 0} (table : Crud o.SqlValue A) (debug : A → Text) (tail kind : Text)
        (counts : List A) (w : World conn fs)
        → IsCountTable table
        → All (HasNumber o r table) counts
        → P w
        → Processing (insert_and_commit conn fs formats flag path r table debug tail kind counts w)
    unfolding insert_and_commit
    Processing-insert_and_commit table debug tail kind counts w listed numbers h =
        Ends-and_next P P Q P _ _ (unwrapped-Processing _ w h) (λ w h.
          Ends-and_next P P Q P _ _
            (insert_counts-Processing table debug tail counts w listed numbers h)
            (λ w h.
              commit_result-Processing kind table.count_table (conn.commit w.db) w
                (keeps.commits w h)))
