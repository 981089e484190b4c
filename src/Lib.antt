-- ===== src/Lib.antt =====
-- A model of traffic-counts, the program that imports traffic counts of DVRPC into an Oracle
-- database.
--
-- The program reads files of counts (src/extract_from_file.rs), each named for its record number,
-- directions, counter and speed limit (`FieldMetadata::from_path`, src/lib.rs). A file of individual
-- vehicles is turned into counts per lane and interval, by class and by range of speed
-- (`create_speed_and_class_count`, src/lib.rs), with the accumulators of src/intermediate.rs; a file
-- of individual bicycles into volumes (`create_binned_bicycle_vol_count`). src/denormalize.rs gives
-- these the shape of tables with a field for each hour, src/check_data.rs warns about unlikely
-- counts, src/db reads and writes tables, and src/bin/import.rs watches a directory and runs all this.
--
-- Files of this library and the code they model:
-- - Types: `CountKind`, `VehicleClass`, `RoadDirection`, `LaneDirection`, `Directions` and the errors,
--   with `from_str`, `from_num` and `Display`, of src/lib.rs.
-- - FieldMetadata: `FieldMetadata::from_path` of src/lib.rs, with the format of file names.
-- - Intermediate: `VehicleClassCount` (ClassCount), `SpeedRangeCount` (SpeedRange) and the 24 hourly
--   fields (HourFields) of src/intermediate.rs. `new`, `first` and `insert` keep their names.
-- - Binning: `TimeInterval`, `bin_time` and `create_time_bins` of src/lib.rs.
-- - Records: the structs that are read from files or written to tables, of src/lib.rs.
-- - SpeedClass: `create_speed_and_class_count` of src/lib.rs. Its first loop is `gather`, the loop
--   over `all_keys` is `fill_key`, and the two last loops are `speed_row` and `class_row`.
-- - Denormalize: src/denormalize.rs. Keys is `NonNormalCountKey`, Volume is `denormalize_vol_count`
--   with `hourly_counts` (the rows that the query gives are an argument), and Speed is
--   `create_non_normal_speedavg_count`, whose 24 blocks are the list `blocks`.
-- - Extract: src/extract_from_file.rs. Input is `InputCount::from_parent_dir`, Header is
--   `num_nondata_rows`, and Vehicle, Individual and Volumes are the implementations of `Extract`.
--   An opened file is its text and the records of the CSV reader (Rows).
-- - Bicycles: `create_binned_bicycle_vol_count` of src/lib.rs, with `gather` for its first loop and
--   `fill` for the loops over the missing periods.
-- - Database: src/db. Value is src/db/oracle_impls.rs; Tables and Crud are src/db/crud.rs, with Rows
--   for the derived `RowValue` of the structs; HourQuery is `hourly_counts` and the trait
--   `Denormalize` of src/denormalize.rs on a connection; Metadata is `Metadata` of src/lib.rs with
--   the functions of src/db/mod.rs that create records. Session states what Oracle documents of a
--   session, with nothing on stored procedures, and Memory is a database that meets it.
-- - Logging: `log_msg` of src/lib.rs, `ImportLogEntry` of src/db/mod.rs and `cleanup` of
--   src/bin/import.rs. `World` holds the state of the database, the disk and the lines of the logs.
-- - Checks: src/check_data.rs. Queries and Directions hold a check each with the name it has in the
--   source, and Dispatch is `check`.
-- - Import: `main` of src/bin/import.rs from the loop over the paths on. The match over the kinds of
--   files is `import_counts` (Branches), what follows it `finish_import` (Finish), and the loop
--   `process_files` (Loop). A `continue` is the outcome `skip`, and a panic `dies`.
-- - Prelude: results of fallible code (Fallible), machine words, texts, `Path`, `HashMap`, sorting.
-- - External: the crates chrono and oracle, the files and the type `f32`, as records of operations,
--   with the laws that their documentation states. Instances and Memory hold values that meet them.
--
-- State is passed on explicitly. A call gives `ok`, `err` with the error of the source, `panic`, or
-- `running` when its fuel ran out; only the loop of `create_time_bins` takes fuel, and its theorem
-- says how much is enough. In src/bin/import.rs the outcome `starved` stands for that. `u8`, `u16`
-- and `u32` are natural numbers, and an addition wraps around, as in a build without overflow
-- checks. A `HashMap` is a list of entries; its theorems speak of what is looked up and not of the
-- order. A text is a list of code points, and `to_lowercase` is that of ASCII: no other letter has
-- a lower case that a match here asks for. `None` of a list index is a panic, as in the source.
--
-- A call of the database gives its error, if any, and a new state; the SQL of a query is the text of
-- the source, and what it finds is up to the connection. A statement that inserts or deletes counts
-- is a constructor with its table and values.
--
-- Not modelled: what `main` and `check` set up from the environment, the collection of the paths and
-- the wait between two rounds of src/bin/import.rs; the pool, the credentials and the queries of
-- src/db/mod.rs that only read metadata or the log.
pub mod Prelude
pub mod External
pub mod Types
pub mod FieldMetadata
pub mod Intermediate
pub mod Binning
pub mod Records
pub mod SpeedClass
pub mod Denormalize
pub mod Extract
pub mod Bicycles
pub mod Database
pub mod Logging
pub mod Import
pub mod Checks
