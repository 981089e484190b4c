-- ===== src/Extract/Vehicle.antt =====
-- `FifteenMinuteVehicle::extract` of src/extract_from_file.rs.
pub mod Lanes
use starnext_import.External.Chrono.{Chrono}
use starnext_import.Extract.Rows.{Opened, data_rows, date_and_time}
use starnext_import.FieldMetadata.{FieldMetadata, from_path}
use starnext_import.Prelude.FilePath.{FilePath}
use starnext_import.Prelude.Text.{Text, codes, parse_uint}
use starnext_import.Prelude.{
  ℕ, ◌+◌, ◌*◌, ◌≡◌, ◌∙◌, ap, sym, List, [], ◌∷◌, ◌++◌, Option, none, some, Outcome, ok, err,
  unwrap_ok, map_err, ◌>>=◌, >>=-eq-ok, fold_loop, get_elem?, length, length-append, u16_mod, arith,
}
use starnext_import.Records.{FifteenMinuteVehicle}
use starnext_import.Types.Direction.{Directions, LaneDirection}
use starnext_import.Types.Errors.{CountError, parse_error, direction_len_mismatch, cannot_open_file}

module _ ⦃c : Chrono⦄ where
  -- `FifteenMinuteVehicle::new` always gives `Ok`: the arm that skips a row at its error is never taken.
  abbrev pub new_fifteen_minute_vehicle :
      ℕ → c.NaiveDate → c.NaiveDateTime → ℕ → Option LaneDirection → Option ℕ → FifteenMinuteVehicle
  new_fifteen_minute_vehicle recordnum date time count direction lane = record {
    recordnum = recordnum;
    date = date;
    time = time;
    count = count;
    direction = direction;
    lane = lane;
  }

  -- `match row.as_ref().unwrap().get(i)`: the count of a lane is pushed.
  unfoldable pub push_lane :
      FilePath
      → ℕ
      → c.NaiveDate
      → c.NaiveDateTime
      → Outcome Text (List Text)
      → ℕ
      → LaneDirection
      → ℕ
      → List FifteenMinuteVehicle
      → Outcome CountError (List FifteenMinuteVehicle)
  push_lane path recordnum date datetime row i direction lane counts = do
    row ← unwrap_ok row
    elim (get_elem? row i) [
      | none ↦ err (direction_len_mismatch path)
      | some word ↦ do
        count ← map_err parse_error (parse_uint u16_mod word)
        ok (
            counts
            ++ new_fifteen_minute_vehicle recordnum date datetime count (some direction) (some lane)
              ∷ [])
    ]

  -- `if let Some(direction) = … { … }`.
  unfoldable pub push_lane_if :
      FilePath
      → ℕ
      → c.NaiveDate
      → c.NaiveDateTime
      → Outcome Text (List Text)
      → ℕ
      → Option LaneDirection
      → ℕ
      → List FifteenMinuteVehicle
      → Outcome CountError (List FifteenMinuteVehicle)
  unfolding push_lane
  push_lane_if path recordnum date datetime row i none lane counts = ok counts
  push_lane_if path recordnum date datetime row i (some direction) lane counts =
      push_lane path recordnum date datetime row i direction lane counts

  -- A round of the loop over the rows.
  unfoldable pub extract_row :
      FilePath
      → FieldMetadata
      → List FifteenMinuteVehicle
      → Outcome Text (List Text)
      → Outcome CountError (List FifteenMinuteVehicle)
  unfolding push_lane push_lane_if
  extract_row path m counts row = do
    (count_date, count_time) ← date_and_time (codes "%-I:%M %P") row
    let datetime = c.datetime count_date count_time
    counts ← push_lane path m.recordnum count_date datetime row 3 m.directions.direction1 1 counts
    counts ←
        push_lane_if path m.recordnum count_date datetime row 4 m.directions.direction2 2 counts
    push_lane_if path m.recordnum count_date datetime row 5 m.directions.direction3 3 counts

  -- The file that `File::open` gives is an argument.
  unfoldable pub extract :
      FilePath → Outcome Text Opened → Outcome CountError (List FifteenMinuteVehicle)
  unfolding extract_row data_rows
  extract path file = do
    file ← map_err cannot_open_file file
    m ← from_path path
    rows ← data_rows path file
    fold_loop (extract_row path m) rows []
