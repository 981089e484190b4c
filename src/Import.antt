-- ===== src/Import.antt =====
-- src/bin/import.rs: how a file is processed. This file has the steps that the kinds of counts share.
pub mod Branches
pub mod Finish
pub mod Loop
pub mod Ends
pub mod Numbers
pub mod Keeps
pub mod Cleanup
pub mod RowsKept
pub mod Untouched
pub mod Stored
pub mod Replaced
pub mod Completes
pub mod Abandoned
mod Tests
use starnext_import.Database.Crud.{delete, prepare_insert, insert}
use starnext_import.Database.Tables.{Crud}
use starnext_import.External.Chrono.{Chrono}
use starnext_import.External.Connection.{Connection, error, info}
use starnext_import.External.FileSystem.{FileSystem, Formats}
use starnext_import.External.Float.{Float}
use starnext_import.External.Oracle.{Oracle}
use starnext_import.Logging.{World, import_log, log_msg, cleanup}
use starnext_import.Prelude.FilePath.{FilePath}
use starnext_import.Prelude.Text.{Text, codes}
use starnext_import.Prelude.{
  ℕ, List, [], ◌∷◌, ◌++◌, Bool, Option, none, some, Outcome, ok, err, panic, running,
}
use starnext_import.Types.Errors.{CountError}

-- How a step ends: the next one follows, the file is given up (`continue`), the program panics, or
-- the fuel of a loop ran out.
pub data Flow (W : Type 0) : Type 0 where
  next : W → Flow W
  skip : W → Flow W
  dies : W → Flow W
  starved : W → Flow W

abbrev pub and_next : {W : Type 0} → Flow W → (W → Flow W) → Flow W
and_next (next w) rest = rest w
and_next (skip w) rest = skip w
and_next (dies w) rest = dies w
and_next (starved w) rest = starved w

-- The state in which a step ends.
abbrev pub last_state : {W : Type 0} → Flow W → W
last_state (next w) = w
last_state (skip w) = w
last_state (dies w) = w
last_state (starved w) = w

module _ ⦃c : Chrono⦄ ⦃f : Float⦄ {o : Oracle c f} (conn : Connection o) (fs : FileSystem)
    (formats : Formats) (cleanup_files : Bool) (path : FilePath) (recordnum : ℕ) where
  -- An error is logged, the file cleaned up and given up.
  abbrev pub give_up : Text → World conn fs → Flow (World conn fs)
  give_up message w = skip (
      cleanup conn fs formats cleanup_files path
        (log_msg conn fs recordnum import_log error message w))

  -- `match … { Ok(v) => v, Err(e) => … }` on what a file holds.
  abbrev pub extracted :
      {A : Type 0}
      → Outcome CountError A
      → (A → World conn fs → Flow (World conn fs))
      → World conn fs
      → Flow (World conn fs)
  extracted (ok v) rest w = rest v w
  extracted (err e) rest w = give_up (codes "Not processed: " ++ formats.display_error e) w
  extracted panic rest w = dies w
  extracted running rest w = starved w

  -- A function that has no error to return, or whose result is unwrapped.
  abbrev pub computed :
      {A : Type 0}
      → Outcome CountError A
      → (A → World conn fs → Flow (World conn fs))
      → World conn fs
      → Flow (World conn fs)
  computed (ok v) rest w = rest v w
  computed (err e) rest w = dies w
  computed panic rest w = dies w
  computed running rest w = starved w

  -- `.unwrap()` on the result of a call of the database.
  abbrev pub unwrapped : Option o.OracleError × conn.State → World conn fs → Flow (World conn fs)
  unwrapped (none, s) w = next (record w { db = s })
  unwrapped (some e, s) w = dies (record w { db = s })

  -- `T::delete(&conn, recordnum).unwrap()`.
  unfoldable pub delete_records :
      {A : Type 0} → Crud o.SqlValue A → World conn fs → Flow (World conn fs)
  delete_records table w = unwrapped (delete conn table recordnum w.db) w

  -- The match on the result of an insertion.
  abbrev pub insert_result :
      (World conn fs → Flow (World conn fs))
      → Text
      → Option o.OracleError × conn.State
      → World conn fs
      → (o.OracleError → Text)
      → Flow (World conn fs)
  insert_result rest shown (none, s) w message = rest (record w { db = s })
  insert_result rest shown (some e, s) w message = give_up (message e) (record w { db = s })

  -- The loop over the counts; `tail` is the end of the message.
  unfoldable pub insert_counts :
      {A : Type 0}
      → Crud o.SqlValue A
      → (A → Text)
      → Text
      → List A
      → World conn fs
      → Flow (World conn fs)
  insert_counts table debug tail [] w = next w
  insert_counts table debug tail (count ∷ counts) w =
      insert_result (insert_counts table debug tail counts) (debug count)
        (insert conn table count w.db) w
        (λ e. codes "Error inserting count " ++ debug count ++ codes ": " ++ o.display e ++ tail)

  -- The match on the result of the commit; `kind` says what was inserted.
  abbrev pub commit_result :
      Text → Text → Option o.OracleError × conn.State → World conn fs → Flow (World conn fs)
  commit_result kind table (none, s) w = next (
      log_msg conn fs recordnum import_log info
        (codes "Successfully committed "
          ++ kind
          ++ codes " insert to database ("
          ++ table
          ++ codes " table)")
        (record w { db = s }))
  commit_result kind table (some e, s) w =
      give_up
        (codes "Error committing "
          ++ kind
          ++ codes " insert to database ("
          ++ table
          ++ codes " table): "
          ++ o.display e)
        (record w { db = s })

  -- The prepared statement, the insertions and the commit of one table.
  unfoldable pub insert_and_commit :
      {A : Type 0}
      → Crud o.SqlValue A
      → (A → Text)
      → Text
      → Text
      → List A
      → World conn fs
      → Flow (World conn fs)
  unfolding insert_counts
  insert_and_commit table debug tail kind counts w =
      and_next (unwrapped (prepare_insert conn table w.db, w.db) w) (λ w.
        and_next (insert_counts table debug tail counts w)
          (λ w. commit_result kind table.count_table (conn.commit w.db) w))

-- The end of most messages on an insertion that failed.
abbrev pub abandoned : Text
abandoned = codes "; further processing has been abandoned"
