-- ===== src/Import/Loop.antt =====
-- The loop over the paths in src/bin/import.rs, and `collect_paths`.
use starnext_import.External.Chrono.{Chrono}
use starnext_import.External.Connection.{Connection, error, info}
use starnext_import.External.FileSystem.{FileSystem, Formats}
use starnext_import.External.Float.{Float}
use starnext_import.External.Oracle.{Oracle}
use starnext_import.Database.HourQuery.{nth}
use starnext_import.Database.Value.{as_option}
use starnext_import.Extract.Input.{InputCount, from_parent_dir}
use starnext_import.FieldMetadata.{FieldMetadata, from_path}
use starnext_import.Import.Branches.{import_counts}
use starnext_import.Import.Finish.{finish_import}
use starnext_import.Import.{Flow, next, skip, dies, starved, and_next, give_up}
use starnext_import.Logging.{World, global_log, import_log, write_log, log_msg, cleanup}
use starnext_import.Prelude.FilePath.{FilePath, OsText, extension, to_str}
use starnext_import.Prelude.Text.{Text, codes, text_eq}
use starnext_import.Prelude.{
  ℕ, List, [], ◌∷◌, ◌++◌, Bool, false, Option, none, some, Outcome, ok, err, panic, running, ◌>>=◌,
  if◌then◌else◌,
}
use starnext_import.Types.Errors.{CountError}

-- `name == text`, for a name that may be no Unicode.
unfoldable pub os_is : Text → Option Text → Bool
unfolding text_eq
os_is text none = false
os_is text (some name) = text_eq name text

-- `path.extension().is_some_and(|x| x == "log")`.
abbrev pub extension_is_log : Option OsText → Bool
extension_is_log none = false
extension_is_log (some x) = os_is (codes "log") (to_str x)

unfoldable pub is_log : FilePath → Bool
unfolding os_is to_str extension
is_log path = extension_is_log (extension path)

module _ ⦃c : Chrono⦄ ⦃f : Float⦄ {o : Oracle c f} (conn : Connection o) (fs : FileSystem)
    (formats : Formats) (as_i32 : o.SqlValue → Outcome o.OracleError ℕ) (fuel : ℕ)
    (cleanup_files : Bool) where
  -- The match on what the name of a file and its directory give: an error is not logged to a file.
  abbrev pub named :
      {A : Type 0}
      → FilePath
      → Outcome CountError A
      → (A → World conn fs → Flow (World conn fs))
      → World conn fs
      → Flow (World conn fs)
  named path (ok v) rest w = rest v w
  named path (err e) rest w = skip (
      cleanup conn fs formats cleanup_files path (
        write_log conn fs global_log error
          (formats.debug_path path ++ codes " not processed: " ++ formats.display_error e) w))
  named path panic rest w = dies w
  named path running rest w = starved w

  -- The test whether the record number is in the table TC_HEADER.
  abbrev pub if_in_header :
      {A : Type 0}
      → FilePath
      → ℕ
      → Outcome o.OracleError A × conn.State
      → (World conn fs → Flow (World conn fs))
      → World conn fs
      → Flow (World conn fs)
  if_in_header path recordnum (ok v, s) rest w = rest (record w { db = s })
  if_in_header path recordnum (err e, s) rest w =
      give_up conn fs formats cleanup_files path recordnum
        (codes "Not processed: recordnum not found in TC_HEADER table") (record w { db = s })
  if_in_header path recordnum (panic, s) rest w = dies (record w { db = s })
  if_in_header path recordnum (running, s) rest w = starved (record w { db = s })

  -- The query for the record number.
  unfoldable pub header_row : ℕ → conn.State → Outcome o.OracleError (Option Text) × conn.State
  unfolding nth as_option
  header_row recordnum s =
      let found =
        conn.query_row (codes "select recordnum from tc_header where recordnum = :1")
          (o.of_u32 recordnum ∷ []) s in
      (found.0 >>= λ row. nth o row 0 (as_option o o.as_text), found.1)

  -- The rest of the round, for a count that is in the table.
  unfoldable pub import_file :
      FilePath → InputCount → FieldMetadata → World conn fs → Flow (World conn fs)
  import_file path count_type metadata w =
      and_next
        (import_counts conn fs formats fuel cleanup_files path metadata count_type (
          log_msg conn fs metadata.recordnum import_log info
            (codes "Extracting data from "
              ++ formats.debug_path path
              ++ codes ", a "
              ++ formats.debug_input count_type
              ++ codes " count")
            w))
        (finish_import conn fs formats as_i32 metadata.recordnum cleanup_files path count_type
          metadata)

  -- What is done with a file whose kind and metadata are known.
  unfoldable pub process_count :
      FilePath → InputCount → FieldMetadata → World conn fs → Flow (World conn fs)
  unfolding header_row import_file
  process_count path count_type metadata w =
      if_in_header path metadata.recordnum (header_row metadata.recordnum w.db)
        (import_file path count_type metadata) w

  -- The body of the loop.
  unfoldable pub process_file : FilePath → World conn fs → Flow (World conn fs)
  unfolding process_count from_parent_dir from_path is_log
  process_file path w =
      if is_log path
      then skip w
      else named path (from_parent_dir path)
          (λ count_type w.
            named path (from_path path) (λ metadata w. process_count path count_type metadata w) w)
          w

  -- The next path follows whether a file was finished or given up.
  abbrev pub next_file :
      Flow (World conn fs) → (World conn fs → Flow (World conn fs)) → Flow (World conn fs)
  next_file (next w) rest = rest w
  next_file (skip w) rest = rest w
  next_file (dies w) rest = dies w
  next_file (starved w) rest = starved w

  unfoldable pub process_files : List FilePath → World conn fs → Flow (World conn fs)
  unfolding process_file
  process_files [] w = next w
  process_files (path ∷ paths) w = next_file (process_file path w) (process_files paths)
