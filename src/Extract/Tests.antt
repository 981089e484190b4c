-- ===== src/Extract/Tests.antt =====
-- A file with one row of data, as vehicles, as bicycles and as volumes.
use starnext_import.External.Instances.{calendar, hundredths}
use starnext_import.Extract.Header.{Found, lines, num_nondata_rows, num_nondata_rows-Found}
use starnext_import.Extract.Individual.{
  classed, extract_vehicles, extract_vehicles-length, extract_bicycles, extract_bicycles-length,
  vehicle_row, bicycle_row,
}
use starnext_import.Extract.Input.{
  individual_vehicle, directory, from_parent_dir, from_parent_dir_iff,
}
use starnext_import.Extract.Rows.{Opened, data_rows}
use starnext_import.Extract.Vehicle
use starnext_import.Extract.Vehicle.Lanes.{IsCountOf, Pairwise, cells_of, extract-Lanes}
use starnext_import.FieldMetadata.{
  FieldMetadata, from_path, from_parts, parse_directions, parse_speed_limit,
}
use starnext_import.Prelude.FilePath.{FilePath, normal, os_text, file_stem, to_str}
use starnext_import.Prelude.Text.{Text, codes, parse_uint, split, match_text, text_eq}
use starnext_import.Prelude.{
  ◌≡◌, ◌↔◌, refl, fold_loop, List, [], ◌∷◌, ◌++◌, some, Outcome, ok, length, take, sum_by, u8_mod,
  u16_mod, leb, ◌==◌, arith,
}
use starnext_import.Records.{
  new_vehicle, IndividualVehicle, IndividualBicycle, FifteenMinuteVehicle,
}
use starnext_import.Types.Direction.{LaneDirection}
use starnext_import.Types.VehicleClass.{VehicleClass, from_num}

abbrev vehicle_path : FilePath
vehicle_path =
    ([] ++ normal (os_text (codes "vehicle")) ∷ []) ++ normal (os_text (codes "1-n-2-na.txt")) ∷ []

in_vehicle :
    (from_parent_dir vehicle_path ≡ ok individual_vehicle)
    ↔ (codes "vehicle" ≡ directory individual_vehicle)
in_vehicle =
    from_parent_dir_iff [] (codes "vehicle") (os_text (codes "1-n-2-na.txt")) individual_vehicle

header_line :
    Found vehicle_path 0
      (take 50 (lines (codes "Time,\n1")))
      (num_nondata_rows vehicle_path (ok (codes "Time,\n1")))
header_line = num_nondata_rows-Found vehicle_path (codes "Time,\n1")

-- A row: number, date, time, lane or count, class, speed.
abbrev one_row : Text → Opened
one_row class = record {
  records =
      ok (codes "Time" ∷ [])
      ∷ ok (codes "1" ∷ codes "2/1/2024" ∷ codes "8:20:00 am" ∷ codes "1" ∷ class ∷ codes "30" ∷ [])
      ∷ [];
  contents = ok (codes "Time,\n");
}

abbrev car : IndividualVehicle
car = record {
  date = 0;
  time = (0, (0, omega arith));
  lane = 1;
  class = VehicleClass.passenger_cars;
  speed = 3000;
}

abbrev ride : IndividualBicycle
ride = record { date = 0; time = (0, (0, omega arith)); lane = 1 }

abbrev quarter_hour : FifteenMinuteVehicle
quarter_hour = record {
  recordnum = 1;
  date = 0;
  time = (0, (0, omega arith));
  count = 1;
  direction = some LaneDirection.north;
  lane = some 1;
}

car_read : extract_vehicles vehicle_path (ok (one_row (codes "2"))) ≡ ok (car ∷ [])
unfolding extract_vehicles data_rows num_nondata_rows vehicle_row fold_loop new_vehicle from_num
    parse_uint
car_read = refl

one_car :
    (rows : List (Outcome Text (List Text))) × (data_rows vehicle_path (one_row (codes "2"))
      ≡ ok rows)
    × (length (car ∷ []) ≡ sum_by (classed u8_mod (λ n. leb n 15)) rows)
one_car = extract_vehicles-length vehicle_path (one_row (codes "2")) (car ∷ []) car_read

ride_read : extract_bicycles vehicle_path (ok (one_row (codes "14"))) ≡ ok (ride ∷ [])
unfolding extract_bicycles data_rows num_nondata_rows bicycle_row fold_loop parse_uint
ride_read = refl

one_ride :
    (rows : List (Outcome Text (List Text))) × (data_rows vehicle_path (one_row (codes "14"))
      ≡ ok rows)
    × (length (ride ∷ []) ≡ sum_by (classed u16_mod (λ n. n == 14)) rows)
one_ride = extract_bicycles-length vehicle_path (one_row (codes "14")) (ride ∷ []) ride_read

volume_read : Vehicle.extract vehicle_path (ok (one_row (codes "2"))) ≡ ok (quarter_hour ∷ [])
unfolding Vehicle.extract data_rows num_nondata_rows Vehicle.extract_row fold_loop from_path
    from_parts parse_directions parse_speed_limit parse_uint split match_text text_eq file_stem
    to_str
volume_read = refl

one_volume :
    (m : FieldMetadata) × (rows : List (Outcome Text (List Text))) × (from_path vehicle_path ≡ ok m)
    × (data_rows vehicle_path (one_row (codes "2")) ≡ ok rows)
    × Pairwise (IsCountOf m.recordnum) (cells_of m.directions rows) (quarter_hour ∷ [])
one_volume = extract-Lanes vehicle_path (one_row (codes "2")) (quarter_hour ∷ []) volume_read
