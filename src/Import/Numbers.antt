-- ===== src/Import/Numbers.antt =====
-- The record number of what is made of a file: that of the file's name.
use starnext_import.Denormalize.Volume.{NonNormalVolCount}
use starnext_import.Extract.Rows.{Opened, data_rows, date_and_time}
use starnext_import.Extract.Vehicle.{extract, extract_row, push_lane, push_lane_if}
use starnext_import.Extract.Volumes.{
  bicycle_volume_row, extract_bicycle_volumes, extract_pedestrian_volumes, pedestrian_volume_row,
  volumes,
}
use starnext_import.External.Chrono.{Chrono}
use starnext_import.FieldMetadata.{FieldMetadata, from_path}
use starnext_import.Prelude.FilePath.{FilePath}
use starnext_import.Prelude.Text.{Text, codes, parse_uint}
use starnext_import.Prelude.{
  ℕ, List, [], ◌≡◌, refl, Option-cases, inl, inr, Option, none, some, Outcome, ok, All, All-snoc,
  Gives, Gives->>=, Gives-then, Gives-at, Gives-fold_loop, get_elem?, map_err, unwrap_ok, u16_mod,
}
use starnext_import.Records.{FifteenMinuteBicycle, FifteenMinutePedestrian, FifteenMinuteVehicle}
use starnext_import.Types.Direction.{LaneDirection}
use starnext_import.Types.Errors.{cannot_open_file, parse_error}

module _ ⦃c : Chrono⦄ (r : ℕ) where
  -- Every count has the record number.
  abbrev pub VehiclesOf : List FifteenMinuteVehicle → Type 0
  VehiclesOf = All (λ v. v.recordnum ≡ r)

  abbrev pub BicyclesOf : List FifteenMinuteBicycle → Type 0
  BicyclesOf = All (λ v. v.recordnum ≡ r)

  abbrev pub PedestriansOf : List FifteenMinutePedestrian → Type 0
  PedestriansOf = All (λ v. v.recordnum ≡ r)

  abbrev pub VolumesOf : List NonNormalVolCount → Type 0
  VolumesOf = All (λ v. v.recordnum ≡ r)

  push_lane-VehiclesOf :
      (path : FilePath) (date : c.NaiveDate) (time : c.NaiveDateTime)
      (row : Outcome Text (List Text)) (i : ℕ) (d : LaneDirection) (lane : ℕ)
      (counts : List FifteenMinuteVehicle)
      → VehiclesOf counts
      → Gives VehiclesOf (push_lane path r date time row i d lane counts)
  unfolding push_lane
  push_lane-VehiclesOf path date time row i d lane counts h =
      Gives->>= VehiclesOf (unwrap_ok row) _ (λ row _. elim (Option-cases (get_elem? row i)) [
        | inl e ↦ rw e tt
        | inr (word, e) ↦ rw e (
            Gives->>= VehiclesOf (map_err parse_error (parse_uint u16_mod word)) _
              (λ count _. All-snoc (λ v. v.recordnum ≡ r) counts _ h refl))
      ])

  push_lane_if-VehiclesOf :
      (path : FilePath) (date : c.NaiveDate) (time : c.NaiveDateTime)
      (row : Outcome Text (List Text)) (i : ℕ) (d : Option LaneDirection) (lane : ℕ)
      (counts : List FifteenMinuteVehicle)
      → VehiclesOf counts
      → Gives VehiclesOf (push_lane_if path r date time row i d lane counts)
  unfolding push_lane_if
  push_lane_if-VehiclesOf path date time row i none lane counts h = h
  push_lane_if-VehiclesOf path date time row i (some d) lane counts h =
      push_lane-VehiclesOf path date time row i d lane counts h

module _ ⦃c : Chrono⦄ where
  extract_row-VehiclesOf :
      (path : FilePath) (m : FieldMetadata) (counts : List FifteenMinuteVehicle)
      (row : Outcome Text (List Text))
      → VehiclesOf m.recordnum counts
      → Gives (VehiclesOf m.recordnum) (extract_row path m counts row)
  unfolding extract_row
  extract_row-VehiclesOf path m counts row h =
      Gives->>= (VehiclesOf m.recordnum) (date_and_time (codes "%-I:%M %P") row) _
        (λ (date, time) _.
          Gives-then (VehiclesOf m.recordnum) (VehiclesOf m.recordnum) _ _
            (push_lane-VehiclesOf m.recordnum path date _ row 3 m.directions.direction1 1 counts h)
            (λ counts h.
              Gives-then (VehiclesOf m.recordnum) (VehiclesOf m.recordnum) _ _
                (push_lane_if-VehiclesOf m.recordnum path date _ row 4 m.directions.direction2 2
                  counts h)
                (λ counts h.
                  push_lane_if-VehiclesOf m.recordnum path date _ row 5 m.directions.direction3 3
                    counts h)))

  pub extract-VehiclesOf :
      (path : FilePath) (m : FieldMetadata) (file : Outcome Text Opened)
      → from_path path ≡ ok m
      → Gives (VehiclesOf m.recordnum) (extract path file)
  unfolding extract
  extract-VehiclesOf path m file e =
      Gives->>= (VehiclesOf m.recordnum) (map_err cannot_open_file file) _ (λ file _.
        Gives-at (VehiclesOf m.recordnum) (from_path path) _ m e (
          Gives->>= (VehiclesOf m.recordnum) (data_rows path file) _ (λ rows _.
            Gives-fold_loop (VehiclesOf m.recordnum) (extract_row path m)
              (λ s x h. extract_row-VehiclesOf path m s x h) rows [] tt)))

  bicycle_volume_row-BicyclesOf :
      (m : FieldMetadata) (counts : List FifteenMinuteBicycle) (row : Outcome Text (List Text))
      → BicyclesOf m.recordnum counts
      → Gives (BicyclesOf m.recordnum) (bicycle_volume_row m counts row)
  unfolding bicycle_volume_row
  bicycle_volume_row-BicyclesOf m counts row h =
      Gives->>= (BicyclesOf m.recordnum) (volumes m.directions.direction2 row) _
        (λ (dt, total, indir, outdir) _. All-snoc (λ v. v.recordnum ≡ m.recordnum) counts _ h refl)

  pub extract_bicycle_volumes-BicyclesOf :
      (path : FilePath) (m : FieldMetadata) (file : Outcome Text Opened)
      → from_path path ≡ ok m
      → Gives (BicyclesOf m.recordnum) (extract_bicycle_volumes path file)
  unfolding extract_bicycle_volumes
  extract_bicycle_volumes-BicyclesOf path m file e =
      Gives->>= (BicyclesOf m.recordnum) (map_err cannot_open_file file) _ (λ file _.
        Gives-at (BicyclesOf m.recordnum) (from_path path) _ m e (
          Gives->>= (BicyclesOf m.recordnum) (data_rows path file) _ (λ rows _.
            Gives-fold_loop (BicyclesOf m.recordnum) (bicycle_volume_row m)
              (λ s x h. bicycle_volume_row-BicyclesOf m s x h) rows [] tt)))

  pedestrian_volume_row-PedestriansOf :
      (m : FieldMetadata) (counts : List FifteenMinutePedestrian) (row : Outcome Text (List Text))
      → PedestriansOf m.recordnum counts
      → Gives (PedestriansOf m.recordnum) (pedestrian_volume_row m counts row)
  unfolding pedestrian_volume_row
  pedestrian_volume_row-PedestriansOf m counts row h =
      Gives->>= (PedestriansOf m.recordnum) (volumes m.directions.direction2 row) _
        (λ (dt, total, indir, outdir) _. All-snoc (λ v. v.recordnum ≡ m.recordnum) counts _ h refl)

  pub extract_pedestrian_volumes-PedestriansOf :
      (path : FilePath) (m : FieldMetadata) (file : Outcome Text Opened)
      → from_path path ≡ ok m
      → Gives (PedestriansOf m.recordnum) (extract_pedestrian_volumes path file)
  unfolding extract_pedestrian_volumes
  extract_pedestrian_volumes-PedestriansOf path m file e =
      Gives->>= (PedestriansOf m.recordnum) (map_err cannot_open_file file) _ (λ file _.
        Gives-at (PedestriansOf m.recordnum) (from_path path) _ m e (
          Gives->>= (PedestriansOf m.recordnum) (data_rows path file) _ (λ rows _.
            Gives-fold_loop (PedestriansOf m.recordnum) (pedestrian_volume_row m)
              (λ s x h. pedestrian_volume_row-PedestriansOf m s x h) rows [] tt)))
