-- ===== src/Import/Tests.antt =====
-- The import of a file with one row of bicycle volumes.
use starnext_import.Database.Foreign.{RowsAre}
use starnext_import.Database.Memory.{Tables, run, tables, tables_laws}
use starnext_import.Database.Session.{filter}
use starnext_import.Database.Tables.{bicycle_table, is_count_table}
use starnext_import.Extract.Rows.{Opened}
use starnext_import.Extract.Volumes.{extract_bicycle_volumes}
use starnext_import.External.FileSystem.{FileSystem, Formats}
use starnext_import.External.Instances.{calendar, hundredths}
use starnext_import.External.Memory.{SqlValue, memory}
use starnext_import.FieldMetadata.{
  FieldMetadata, from_parts, from_path, new_directions, parse_directions, parse_speed_limit,
}
use starnext_import.Import.Branches.{import_bicycle}
use starnext_import.Database.Memory.{run-unlimited}
use starnext_import.Import.Completes.{Willing, import_bicycle-Completes}
use starnext_import.Import.Ends.{Goes}
use starnext_import.Extract.Rows.{data_rows}
use starnext_import.Extract.Header.{num_nondata_rows}
use starnext_import.Extract.Volumes
use starnext_import.Extract.Volumes.{bicycle_volume_row}
use starnext_import.Prelude.{fold_loop}
use starnext_import.Import.Cleanup.{AllDisposed, process_files-AllDisposed}
use starnext_import.Import.Keeps.Numbered.{bicycle_listed, bicycle_plain}
use starnext_import.Import.Loop.{process_files}
use starnext_import.Import.Abandoned.{import_bicycle-Abandoned}
use starnext_import.Database.Crud.{delete, insert}
use starnext_import.Import.Branches.{import_counts}
use starnext_import.Import.{skip}
use starnext_import.External.Memory.{refused}
use starnext_import.Extract.Input.{fifteen_minute_bicycle}
use starnext_import.Import.Stored.{row_of}
use starnext_import.Import.Untouched.{Untouched, import_counts-Untouched}
use starnext_import.Logging.{World}
use starnext_import.Prelude.FilePath.{FilePath, file_stem, normal, os_text, to_str}
use starnext_import.Prelude.Text.{Text, codes, match_text, parse_uint, split, text_eq}
use starnext_import.Prelude.{ℕ, ◌≡◌, refl, List, [], ◌∷◌, map, none, some, ok, true, arith}
use starnext_import.Records.{FifteenMinuteBicycle}
use starnext_import.External.Connection.{insert_into}
use starnext_import.Types.Direction.LaneDirection.{north}

abbrev volumes_path : FilePath
volumes_path =
    normal (os_text (codes "15minutebicycle")) ∷ normal (os_text (codes "7-n-2-na.csv")) ∷ []

abbrev volumes_metadata : FieldMetadata
volumes_metadata = record {
  recordnum = 7;
  directions = new_directions north none none;
  counter_id = codes "2";
  speed_limit = none;
}

volumes_named : from_path volumes_path ≡ ok volumes_metadata
unfolding from_path from_parts parse_directions parse_speed_limit file_stem to_str split parse_uint
    match_text text_eq
volumes_named = refl

abbrev one_file : Opened
one_file = record {
  records =
      ok (codes "Time" ∷ codes "Total" ∷ [])
      ∷ ok (codes "2024-02-01 08:15:00" ∷ codes "25" ∷ [])
      ∷ [];
  contents = ok (codes "Time,Total");
}

-- A disk is the list of the files that were removed.
abbrev disk : FileSystem
disk = record {
  Disk = List FilePath;
  open_file = λ path removed. ok one_file;
  remove_file = λ path removed. (none, path ∷ removed);
}

abbrev plain : Formats
plain = record {
  display_error = λ e. [];
  display_date = λ d. [];
  display_time = λ t. [];
  display_f32 = λ x. [];
  display_f32_1 = λ x. [];
  debug_path = λ p. [];
  debug_input = λ i. [];
  debug_class = λ v. [];
  debug_speed = λ v. [];
  debug_average = λ v. [];
  debug_volume = λ v. [];
  debug_vehicle = λ v. [];
  debug_bicycle = λ v. [];
  debug_pedestrian = λ v. [];
}

abbrev start : World tables disk
start = record {
  db = record { session = λ t. []; stored = λ t. []; room = some 1 };
  disk = [];
  logged = [];
}

volumes_disposed :
    AllDisposed tables disk plain
      (λ v. ok 0)
      0
      true
      (volumes_path ∷ [])
      start
      (process_files tables disk plain (λ v. ok 0) 0 true (volumes_path ∷ []) start)
volumes_disposed =
    process_files-AllDisposed tables disk plain (λ v. ok 0) 0 true (volumes_path ∷ []) start

abbrev unlimited : World tables disk
unlimited = record start { db = record { session = λ t. []; stored = λ t. []; room = none } }

tables_willing : Willing tables (λ s. s.room ≡ none)
tables_willing = record {
  prepares = λ table columns s h. refl;
  executes = λ stmt s h. run-unlimited stmt s h;
  commits = λ s h. (refl, h);
}

abbrev volumes : List FifteenMinuteBicycle
volumes =
    record {
      recordnum = 7;
      date = 0;
      time = (0, (0, omega arith));
      total = 25;
      indir = none;
      outdir = none;
    }
    ∷ []

volumes_extracted : extract_bicycle_volumes volumes_path (ok one_file) ≡ ok volumes
unfolding extract_bicycle_volumes data_rows num_nondata_rows bicycle_volume_row Volumes.volumes
    fold_loop parse_uint from_path from_parts parse_directions parse_speed_limit file_stem to_str
    split match_text text_eq
volumes_extracted = refl

volumes_completed :
    Goes
      (λ w'.
        RowsAre tables_laws 7
          (codes "tc_bikecount")
          (map
            (row_of tables_laws
              (bicycle_table memory)
              (bicycle_listed memory)
              (bicycle_plain memory)
              7
              (omega arith))
            volumes)
          w'.db)
      (import_bicycle tables disk plain 0 true volumes_path volumes_metadata unlimited)
unfolding tables_laws
volumes_completed =
    import_bicycle-Completes tables_laws tables_willing disk plain 0 true volumes_path
      volumes_metadata volumes_named volumes unlimited volumes_extracted refl

volumes_foreign :
    Untouched tables_laws 9 (codes "tc_bikecount") [] (bicycle_listed memory).listed disk plain (
      import_counts tables disk plain 0 true volumes_path volumes_metadata fifteen_minute_bicycle
        start)
unfolding tables_laws filter
volumes_foreign =
    import_counts-Untouched tables_laws 9 (codes "tc_bikecount") [] (bicycle_listed memory).listed
      disk plain 0 true volumes_path volumes_metadata volumes_named (λ e. omega (arith, e))
      fifteen_minute_bicycle start (record { read = refl; stored = refl })

entries_accepted :
    (row : List (Text × SqlValue)) (s : Tables)
    → (run (insert_into (codes "import_log") row) s).0 ≡ none
unfolding run is_count_table text_eq
entries_accepted row s = refl

abbrev two_rows : Opened
two_rows = record {
  records =
      ok (codes "Time" ∷ codes "Total" ∷ [])
      ∷ ok (codes "2024-02-01 08:15:00" ∷ codes "25" ∷ [])
      ∷ ok (codes "2024-02-01 08:30:00" ∷ codes "30" ∷ [])
      ∷ [];
  contents = ok (codes "Time,Total");
}

abbrev longer : FileSystem
longer = record {
  Disk = List FilePath;
  open_file = λ path removed. ok two_rows;
  remove_file = λ path removed. (none, path ∷ removed);
}

abbrev started : World tables longer
started = record {
  db = record { session = λ t. []; stored = λ t. []; room = some 1 };
  disk = [];
  logged = [];
}

abbrev volume_of : ℕ → FifteenMinuteBicycle
volume_of n = record {
  recordnum = 7;
  date = 0;
  time = (0, (0, omega arith));
  total = n;
  indir = none;
  outdir = none;
}

two_extracted :
    extract_bicycle_volumes volumes_path (ok two_rows) ≡ ok (volume_of 25 ∷ volume_of 30 ∷ [])
unfolding extract_bicycle_volumes data_rows num_nondata_rows bicycle_volume_row Volumes.volumes
    fold_loop parse_uint from_path from_parts parse_directions parse_speed_limit file_stem to_str
    split match_text text_eq
two_extracted = refl

-- The state after the first of the two rows was inserted.
abbrev one_inserted : Tables
one_inserted =
    (insert tables (bicycle_table memory) (volume_of 25)
      (delete tables (bicycle_table memory) 7 started.db).1).1

-- The table takes one of two rows: the other insertion fails, and the first row is committed.
second_refused :
    (w' : World tables longer) × (import_bicycle tables longer plain 0 true volumes_path
        volumes_metadata started
      ≡ skip w')
    × RowsAre tables_laws 7
        (codes "tc_bikecount")
        (map
          (row_of tables_laws
            (bicycle_table memory)
            (bicycle_listed memory)
            (bicycle_plain memory)
            7
            (omega arith))
          (volume_of 25 ∷ []))
        w'.db
unfolding tables_laws run delete is_count_table text_eq
second_refused =
    import_bicycle-Abandoned tables_laws longer plain 0 true volumes_path volumes_metadata
      volumes_named (volume_of 25 ∷ []) (volume_of 30) [] started one_inserted refused (λ s. refl)
      entries_accepted two_extracted refl refl (refl, refl) refl
