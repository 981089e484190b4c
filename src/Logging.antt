-- ===== src/Logging.antt =====
-- What the program writes to: the database, the disk and the logs. `log_msg` of src/lib.rs,
-- `ImportLogEntry` of src/db/mod.rs, and `cleanup` of src/bin/import.rs.
use starnext_import.External.Chrono.{Chrono}
use starnext_import.External.Connection.{Connection, Level, error, insert_into}
use starnext_import.External.FileSystem.{FileSystem, Formats}
use starnext_import.External.Float.{Float}
use starnext_import.External.Oracle.{Oracle}
use starnext_import.FieldMetadata.Decimal.{decimal}
use starnext_import.Prelude.FilePath.{FilePath}
use starnext_import.Prelude.Text.{Text, codes}
use starnext_import.Prelude.{ℕ, List, [], ◌∷◌, ◌++◌, Bool, true, false, Option, none, some}

-- The logs: those of the import and of the checks, and that of the macro `error!`, which the crate
-- log drops, since the program sets no logger for it.
pub data Log : Type 0 where
  import_log data_check_log global_log : Log

pub record LogLine : Type 0 where
  pub log : Log
  pub level : Level
  pub message : Text

pub record ImportLogEntry ⦃c : Chrono⦄ : Type 0 where
  pub datetime : Option c.NaiveDateTime
  pub recordnum : ℕ
  pub msg : Text
  pub level : Text

module _ ⦃c : Chrono⦄ ⦃f : Float⦄ {o : Oracle c f} (conn : Connection o) where
  abbrev pub new_log_entry : ℕ → Text → Level → ImportLogEntry
  new_log_entry recordnum msg level = record {
    datetime = none;
    recordnum = recordnum;
    msg = msg;
    level = conn.level_text level;
  }

  -- The commit, unless the statement failed.
  abbrev pub commit_entry : Option o.OracleError × conn.State → Option o.OracleError × conn.State
  commit_entry (some e, s) = (some e, s)
  commit_entry (none, s) = conn.commit s

  unfoldable pub insert_import_log_entry :
      ImportLogEntry → conn.State → Option o.OracleError × conn.State
  insert_import_log_entry log_record s = commit_entry (
      conn.execute
        (insert_into (codes "import_log") (
          (codes "recordnum", o.of_u32 log_record.recordnum)
          ∷ (codes "message", o.of_text log_record.msg)
          ∷ (codes "log_level", o.of_text log_record.level)
          ∷ []))
        s)

module _ ⦃c : Chrono⦄ ⦃f : Float⦄ {o : Oracle c f} (conn : Connection o) (fs : FileSystem) where
  pub record World : Type 0 where
    pub db : conn.State
    pub disk : fs.Disk
    pub logged : List LogLine

  unfoldable pub write_log : Log → Level → Text → World → World
  write_log log level message w = record w {
    logged = w.logged ++ record { log = log; level = level; message = message } ∷ [];
  }

  -- The line for an entry that could not be made.
  abbrev pub entry_made : ℕ → Log → Option o.OracleError × conn.State → World → World
  entry_made recordnum log (none, s) w = record w { db = s }
  entry_made recordnum log (some e, s) w =
      write_log log error
        (decimal recordnum ++ codes ": Error entering log into database: " ++ o.display e)
        (record w { db = s })

  unfoldable pub log_msg : ℕ → Log → Level → Text → World → World
  log_msg recordnum log level message w =
      entry_made recordnum log
        (insert_import_log_entry conn (new_log_entry conn recordnum message level) w.db)
        (write_log log level (decimal recordnum ++ codes ": " ++ message) w)

  module _ (formats : Formats) where
    abbrev pub file_removed : FilePath → Option Text × fs.Disk → World → World
    file_removed path (none, disk) w = record w { disk = disk }
    file_removed path (some e, disk) w =
        write_log global_log error
          (codes "Unable to delete file " ++ formats.debug_path path ++ codes " " ++ e)
          (record w { disk = disk })

    unfoldable pub cleanup : Bool → FilePath → World → World
    cleanup false path w = w
    cleanup true path w = file_removed path (fs.remove_file path w.disk) w
