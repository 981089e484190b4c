-- ===== src/Types/Errors.antt =====
-- `CountError` and `FileNameProblem` of src/lib.rs. An error of the system or of a crate is kept as
-- the text that it displays.
use starnext_import.Prelude.{ℕ}
use starnext_import.Prelude.FilePath.{FilePath}
use starnext_import.Prelude.Text.{Text, ParseIntError}

pub data FileNameProblem : Type 0 where
  too_many_parts too_few_parts invalid_record_num invalid_directions : FileNameProblem
  invalid_speed_limit : FileNameProblem

pub data CountError : Type 0 where
  unknown_count_type : Text → CountError
  bad_path : FilePath → CountError
  cannot_open_file : Text → CountError
  invalid_file_name : FileNameProblem → FilePath → CountError
  bad_location : Text → CountError
  bad_header : FilePath → CountError
  bad_direction : Text → CountError
  location_header_mismatch : FilePath → CountError
  direction_len_mismatch : FilePath → CountError
  parse_error : ParseIntError → CountError
  bad_vehicle_class : ℕ → CountError
  bad_interval_count : CountError
  header_to_string_record_error : Text → CountError
  invalid_mcd : Text → CountError
  inconsistent_data : CountError
  db_error : Text → CountError
  oracle_error : Text → CountError
  data_check_error : Text → CountError
