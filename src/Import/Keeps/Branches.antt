-- ===== src/Import/Keeps/Branches.antt =====
-- What the import of the counts of each kind keeps.
use starnext_import.Bicycles.Numbers.{create_binned_bicycle_vol_count-recordnum}
use starnext_import.Bicycles.{create_binned_bicycle_vol_count}
use starnext_import.Binning.{fifteen_min}
use starnext_import.Database.HourQuery.{Normalized, class_source, denormalized, vehicle_source}
use starnext_import.Database.Tables.{
  average_table, bicycle_table, class_table, pedestrian_table, speed_table, vehicle_table,
  volume_table,
}
use starnext_import.Denormalize.Numbers.{
  create_non_normal_speedavg_count-recordnum, denormalize_vol_count-recordnum,
}
use starnext_import.Denormalize.Speed.{NonNormalAvgSpeedCount, create_non_normal_speedavg_count}
use starnext_import.Extract.Individual.{extract_bicycles, extract_vehicles}
use starnext_import.Extract.Input.{
  InputCount, fifteen_minute_bicycle, fifteen_minute_pedestrian, fifteen_minute_vehicle,
  individual_bicycle, individual_vehicle,
}
use starnext_import.Extract.Vehicle
use starnext_import.Extract.Volumes.{extract_bicycle_volumes, extract_pedestrian_volumes}
use starnext_import.FieldMetadata.{FieldMetadata, from_path}
use starnext_import.Import.Branches.{
  import_bicycle, import_counts, import_individual_bicycle, import_individual_vehicle,
  import_pedestrian, import_vehicle, import_vehicles,
}
use starnext_import.Import.Ends.{Ends, Ends-and_next}
use starnext_import.Import.Keeps.{
  Keeps, Processing-computed, Processing-delete_records, Processing-extracted,
  Processing-insert_and_commit,
}
use starnext_import.Import.Numbers.{
  extract-VehiclesOf, extract_bicycle_volumes-BicyclesOf, extract_pedestrian_volumes-PedestriansOf,
}
use starnext_import.SpeedClass.Numbers.{CountsOf, create_speed_and_class_count-CountsOf}
use starnext_import.SpeedClass.{create_speed_and_class_count}
use starnext_import.Records.{TimeBinnedSpeedRangeCount, TimeBinnedVehicleClassCount}
use starnext_import.External.Chrono.{Chrono}
use starnext_import.External.Connection.{Connection}
use starnext_import.External.FileSystem.{FileSystem, Formats}
use starnext_import.External.Float.{Float}
use starnext_import.External.Oracle.{Oracle}
use starnext_import.Logging.{World}
use starnext_import.Prelude.FilePath.{FilePath}
use starnext_import.Prelude.{ℕ, List, ◌≡◌, Bool, ok, All, All-imp, Gives, Gives-any}
use starnext_import.Import.Keeps.Numbered.{
  class_listed, speed_listed, average_listed, volume_listed, vehicle_listed, bicycle_listed,
  pedestrian_listed, class_number, speed_number, average_number, volume_number, vehicle_number,
  bicycle_number, pedestrian_number,
}

module _ ⦃c : Chrono⦄ ⦃f : Float⦄ {o : Oracle c f} (conn : Connection o) (fs : FileSystem)
    (formats : Formats) (fuel : ℕ) where
  module _ {flag : Bool} {path : FilePath} (m : FieldMetadata) {P Q : World conn fs → Type 0}
      (keeps : Keeps conn fs formats flag path m.recordnum P Q) where
    -- The volumes that are made of the rows of a table have the record number.
    denormalized-recordnum :
        (source : Normalized) (s : conn.State)
        → Gives (All (λ v. v.recordnum ≡ m.recordnum)) (denormalized o conn source m.recordnum s).0
    unfolding denormalized
    denormalized-recordnum source s = denormalize_vol_count-recordnum m.recordnum _ _

    denormalized-keeps :
        (source : Normalized) (w : World conn fs)
        → P w
        → P (record w { db = (denormalized o conn source m.recordnum w.db).1 })
    unfolding denormalized
    denormalized-keeps source w h = keeps.queries _ _ w h

    import_vehicles-Processing :
        (speeds : List TimeBinnedSpeedRangeCount) (classes : List TimeBinnedVehicleClassCount)
        (averages : List NonNormalAvgSpeedCount) (w : World conn fs)
        → CountsOf m.recordnum (speeds, classes)
        → All (λ v. v.recordnum ≡ m.recordnum) averages
        → P w
        → Ends P Q P (import_vehicles conn fs formats fuel flag path m speeds classes averages w)
    unfolding import_vehicles
    import_vehicles-Processing speeds classes averages w counted averaged h =
        Ends-and_next P P Q P _ _
          (Processing-delete_records conn fs formats keeps (class_table o) w (class_listed o) h)
          (λ w h.
            Ends-and_next P P Q P _ _
              (Processing-delete_records conn fs formats keeps (speed_table o) w (speed_listed o) h)
              (λ w h.
                Ends-and_next P P Q P _ _
                  (Processing-delete_records conn fs formats keeps (average_table o) w
                    (average_listed o) h)
                  (λ w h.
                    Ends-and_next P P Q P _ _
                      (Processing-delete_records conn fs formats keeps (volume_table o) w
                        (volume_listed o) h)
                      (λ w h.
                        Ends-and_next P P Q P _ _
                          (Processing-insert_and_commit conn fs formats keeps (class_table o) _ _ _
                            classes w (class_listed o)
                            (All-imp (class_number o m.recordnum) classes counted.1) h)
                          (λ w h.
                            Ends-and_next P P Q P _ _
                              (Processing-insert_and_commit conn fs formats keeps (speed_table o) _
                                _ _ speeds w (speed_listed o)
                                (All-imp (speed_number o m.recordnum) speeds counted.0) h)
                              (λ w h.
                                Ends-and_next P P Q P _ _
                                  (Processing-computed conn fs formats keeps
                                    (All (λ v. v.recordnum ≡ m.recordnum))
                                    (denormalized o conn class_source m.recordnum w.db).0 _ _
                                    (denormalized-recordnum class_source w.db)
                                    (denormalized-keeps class_source w h)
                                    (λ volumes w numbered h.
                                      Processing-insert_and_commit conn fs formats keeps
                                        (volume_table o) _ _ _ volumes w (volume_listed o)
                                        (All-imp (volume_number o m.recordnum) volumes numbered) h))
                                  (λ w h.
                                    Processing-insert_and_commit conn fs formats keeps
                                      (average_table o) _ _ _ averages w (average_listed o)
                                      (All-imp (average_number o m.recordnum) averages averaged)
                                      h)))))))

    module _ (named : from_path path ≡ ok m) where
      import_individual_vehicle-Processing :
          (w : World conn fs)
          → P w
          → Ends P Q P (import_individual_vehicle conn fs formats fuel flag path m w)
      unfolding import_individual_vehicle
      import_individual_vehicle-Processing w h =
          Processing-extracted conn fs formats keeps (λ v. Unit)
            (extract_vehicles path (fs.open_file path w.disk)) _ w (Gives-any _) h
            (λ vehicles w _ h.
              Processing-computed conn fs formats keeps (CountsOf m.recordnum)
                (create_speed_and_class_count fuel fifteen_min m vehicles) _ w
                (create_speed_and_class_count-CountsOf fuel fifteen_min m vehicles) h
                (λ counts w counted h.
                  Processing-computed conn fs formats keeps (All (λ v. v.recordnum ≡ m.recordnum))
                    (create_non_normal_speedavg_count m vehicles) _ w
                    (create_non_normal_speedavg_count-recordnum m vehicles) h
                    (λ averages w averaged h.
                      import_vehicles-Processing counts.0 counts.1 averages w counted averaged h)))

      import_individual_bicycle-Processing :
          (w : World conn fs)
          → P w
          → Ends P Q P (import_individual_bicycle conn fs formats fuel flag path m w)
      unfolding import_individual_bicycle
      import_individual_bicycle-Processing w h =
          Processing-extracted conn fs formats keeps (λ v. Unit)
            (extract_bicycles path (fs.open_file path w.disk)) _ w (Gives-any _) h
            (λ bicycles w _ h.
              Processing-computed conn fs formats keeps (All (λ v. v.recordnum ≡ m.recordnum))
                (create_binned_bicycle_vol_count fuel fifteen_min m bicycles) _ w
                (create_binned_bicycle_vol_count-recordnum fuel fifteen_min m bicycles) h
                (λ counts w counted h.
                  Ends-and_next P P Q P _ _
                    (Processing-delete_records conn fs formats keeps (bicycle_table o) w
                      (bicycle_listed o) h)
                    (λ w h.
                      Processing-insert_and_commit conn fs formats keeps (bicycle_table o) _ _ _
                        counts w (bicycle_listed o)
                        (All-imp (bicycle_number o m.recordnum) counts counted) h)))

      import_vehicle-Processing :
          (w : World conn fs) → P w → Ends P Q P (import_vehicle conn fs formats fuel flag path m w)
      unfolding import_vehicle
      import_vehicle-Processing w h =
          Processing-extracted conn fs formats keeps (All (λ v. v.recordnum ≡ m.recordnum))
            (Vehicle.extract path (fs.open_file path w.disk)) _ w
            (extract-VehiclesOf path m _ named) h
            (λ counts w counted h.
              Ends-and_next P P Q P _ _
                (Processing-delete_records conn fs formats keeps (vehicle_table o) w
                  (vehicle_listed o) h)
                (λ w h.
                  Ends-and_next P P Q P _ _
                    (Processing-insert_and_commit conn fs formats keeps (vehicle_table o) _ _ _
                      counts w (vehicle_listed o)
                      (All-imp (vehicle_number o m.recordnum) counts counted) h)
                    (λ w h.
                      Processing-computed conn fs formats keeps
                        (All (λ v. v.recordnum ≡ m.recordnum))
                        (denormalized o conn vehicle_source m.recordnum w.db).0 _ _
                        (denormalized-recordnum vehicle_source w.db)
                        (denormalized-keeps vehicle_source w h)
                        (λ volumes w numbered h.
                          Ends-and_next P P Q P _ _
                            (Processing-delete_records conn fs formats keeps (volume_table o) w
                              (volume_listed o) h)
                            (λ w h.
                              Processing-insert_and_commit conn fs formats keeps (volume_table o) _
                                _ _ volumes w (volume_listed o)
                                (All-imp (volume_number o m.recordnum) volumes numbered) h)))))

      import_bicycle-Processing :
          (w : World conn fs) → P w → Ends P Q P (import_bicycle conn fs formats fuel flag path m w)
      unfolding import_bicycle
      import_bicycle-Processing w h =
          Processing-extracted conn fs formats keeps (All (λ v. v.recordnum ≡ m.recordnum))
            (extract_bicycle_volumes path (fs.open_file path w.disk)) _ w
            (extract_bicycle_volumes-BicyclesOf path m _ named) h
            (λ counts w counted h.
              Ends-and_next P P Q P _ _
                (Processing-delete_records conn fs formats keeps (bicycle_table o) w
                  (bicycle_listed o) h)
                (λ w h.
                  Processing-insert_and_commit conn fs formats keeps (bicycle_table o) _ _ _ counts
                    w (bicycle_listed o) (All-imp (bicycle_number o m.recordnum) counts counted) h))

      import_pedestrian-Processing :
          (w : World conn fs)
          → P w
          → Ends P Q P (import_pedestrian conn fs formats fuel flag path m w)
      unfolding import_pedestrian
      import_pedestrian-Processing w h =
          Processing-extracted conn fs formats keeps (All (λ v. v.recordnum ≡ m.recordnum))
            (extract_pedestrian_volumes path (fs.open_file path w.disk)) _ w
            (extract_pedestrian_volumes-PedestriansOf path m _ named) h
            (λ counts w counted h.
              Ends-and_next P P Q P _ _
                (Processing-delete_records conn fs formats keeps (pedestrian_table o) w
                  (pedestrian_listed o) h)
                (λ w h.
                  Processing-insert_and_commit conn fs formats keeps (pedestrian_table o) _ _ _
                    counts w (pedestrian_listed o)
                    (All-imp (pedestrian_number o m.recordnum) counts counted) h))

      -- The counts of a file are imported, the file is given up, or the program stops.
      pub import_counts-Processing :
          (kind : InputCount) (w : World conn fs)
          → P w
          → Ends P Q P (import_counts conn fs formats fuel flag path m kind w)
      unfolding import_counts
      import_counts-Processing individual_vehicle w h = import_individual_vehicle-Processing w h
      import_counts-Processing individual_bicycle w h = import_individual_bicycle-Processing w h
      import_counts-Processing fifteen_minute_vehicle w h = import_vehicle-Processing w h
      import_counts-Processing fifteen_minute_bicycle w h = import_bicycle-Processing w h
      import_counts-Processing fifteen_minute_pedestrian w h = import_pedestrian-Processing w h
