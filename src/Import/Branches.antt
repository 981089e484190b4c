-- ===== src/Import/Branches.antt =====
-- The match over `InputCount` in src/bin/import.rs: what is made of a file of each kind, and the
-- tables that it goes to.
use starnext_import.Bicycles.{create_binned_bicycle_vol_count}
use starnext_import.Binning.{fifteen_min}
use starnext_import.Database.HourQuery.{Normalized, class_source, vehicle_source, denormalized}
use starnext_import.Database.Tables.{
  class_table, speed_table, average_table, volume_table, vehicle_table, bicycle_table,
  pedestrian_table, Crud,
}
use starnext_import.Denormalize.Speed.{create_non_normal_speedavg_count, NonNormalAvgSpeedCount}
use starnext_import.Denormalize.Volume.{NonNormalVolCount}
use starnext_import.Extract.Individual.{extract_bicycles, extract_vehicles}
use starnext_import.Extract.Input.{
  InputCount, fifteen_minute_bicycle, fifteen_minute_pedestrian, fifteen_minute_vehicle,
  individual_bicycle, individual_vehicle,
}
use starnext_import.Extract.Vehicle
use starnext_import.Extract.Volumes.{extract_bicycle_volumes, extract_pedestrian_volumes}
use starnext_import.External.Chrono.{Chrono}
use starnext_import.External.Connection.{Connection}
use starnext_import.External.FileSystem.{FileSystem, Formats}
use starnext_import.External.Float.{Float}
use starnext_import.External.Oracle.{Oracle}
use starnext_import.FieldMetadata.{FieldMetadata}
use starnext_import.Import.{
  Flow, and_next, abandoned, extracted, computed, delete_records, insert_and_commit,
}
use starnext_import.Logging.{World}
use starnext_import.Prelude.FilePath.{FilePath}
use starnext_import.SpeedClass.{create_speed_and_class_count}
use starnext_import.Types.Errors.{CountError}
use starnext_import.Prelude.Text.{Text, codes}
use starnext_import.Prelude.{ℕ, List, [], Bool, Outcome}
use starnext_import.Records.{TimeBinnedSpeedRangeCount, TimeBinnedVehicleClassCount}

module _ ⦃c : Chrono⦄ ⦃f : Float⦄ {o : Oracle c f} (conn : Connection o) (fs : FileSystem)
    (formats : Formats) (fuel : ℕ) (cleanup_files : Bool) (path : FilePath)
    (metadata : FieldMetadata) where
  -- The steps of `Import`, for this file.
  abbrev Step : Type 0
  Step = World conn fs → Flow (World conn fs)

  abbrev replace_rows : {A : Type 0} → Crud o.SqlValue A → (A → Text) → Text → Text → List A → Step
  replace_rows table debug tail kind counts w =
      insert_and_commit conn fs formats cleanup_files path metadata.recordnum table debug tail kind
        counts w

  abbrev remove_rows : {A : Type 0} → Crud o.SqlValue A → Step
  remove_rows table w = delete_records conn fs formats cleanup_files path metadata.recordnum table w

  abbrev with_counts : {A : Type 0} → Outcome CountError A → (A → Step) → Step
  with_counts = extracted conn fs formats cleanup_files path metadata.recordnum

  abbrev with_result : {A : Type 0} → Outcome CountError A → (A → Step) → Step
  with_result = computed conn fs formats cleanup_files path metadata.recordnum

  -- `denormalize_vol_count(recordnum, &conn).unwrap()`.
  abbrev with_volumes : Normalized → (List NonNormalVolCount → Step) → Step
  with_volumes source rest w =
      let (counts, s) = denormalized o conn source metadata.recordnum w.db in
      with_result counts rest (record w { db = s })

  -- The counts that are made of individual vehicles go to four tables.
  unfoldable pub import_vehicles :
      List TimeBinnedSpeedRangeCount
      → List TimeBinnedVehicleClassCount
      → List NonNormalAvgSpeedCount
      → Step
  import_vehicles speeds classes averages w = and_next (remove_rows (class_table o) w) (λ w.
      and_next (remove_rows (speed_table o) w) (λ w.
        and_next (remove_rows (average_table o) w) (λ w.
          and_next (remove_rows (volume_table o) w) (λ w.
            and_next
              (replace_rows (class_table o) formats.debug_class abandoned (codes "class data")
                classes w)
              (λ w.
                and_next
                  (replace_rows (speed_table o) formats.debug_speed abandoned
                    (codes "speed range data") speeds w)
                  (λ w.
                    and_next
                      (with_volumes class_source
                        (replace_rows (volume_table o) formats.debug_volume abandoned
                          (codes "denormalized class data"))
                        w)
                      (λ w.
                        replace_rows (average_table o) formats.debug_average abandoned
                          (codes "denormalized speed data") averages w)))))))

  unfoldable pub import_individual_vehicle : Step
  import_individual_vehicle w =
      with_counts (extract_vehicles path (fs.open_file path w.disk))
        (λ vehicles w.
          with_result (create_speed_and_class_count fuel fifteen_min metadata vehicles)
            (λ counts w.
              with_result (create_non_normal_speedavg_count metadata vehicles)
                (λ averages w. import_vehicles counts.0 counts.1 averages w) w)
            w)
        w

  unfoldable pub import_individual_bicycle : Step
  import_individual_bicycle w =
      with_counts (extract_bicycles path (fs.open_file path w.disk))
        (λ bicycles w.
          with_result (create_binned_bicycle_vol_count fuel fifteen_min metadata bicycles)
            (λ counts w. and_next (remove_rows (bicycle_table o) w) (λ w.
              replace_rows (bicycle_table o) formats.debug_bicycle abandoned (codes "data") counts
                w))
            w)
        w

  unfoldable pub import_vehicle : Step
  import_vehicle w =
      with_counts (Vehicle.extract path (fs.open_file path w.disk))
        (λ counts w. and_next (remove_rows (vehicle_table o) w) (λ w.
          and_next
            (replace_rows (vehicle_table o) formats.debug_vehicle abandoned (codes "data") counts w)
            (λ w.
              with_volumes vehicle_source
                (λ volumes w. and_next (remove_rows (volume_table o) w) (λ w.
                  replace_rows (volume_table o) formats.debug_volume abandoned
                    (codes "denormalized data") volumes w))
                w)))
        w

  unfoldable pub import_bicycle : Step
  import_bicycle w =
      with_counts (extract_bicycle_volumes path (fs.open_file path w.disk))
        (λ counts w. and_next (remove_rows (bicycle_table o) w) (λ w.
          replace_rows (bicycle_table o) formats.debug_bicycle abandoned (codes "data") counts w))
        w

  unfoldable pub import_pedestrian : Step
  import_pedestrian w =
      with_counts (extract_pedestrian_volumes path (fs.open_file path w.disk))
        (λ counts w. and_next (remove_rows (pedestrian_table o) w) (λ w.
          replace_rows (pedestrian_table o) formats.debug_pedestrian [] (codes "data") counts w))
        w

  -- `match count_type`.
  unfoldable pub import_counts : InputCount → Step
  import_counts individual_vehicle w = import_individual_vehicle w
  import_counts individual_bicycle w = import_individual_bicycle w
  import_counts fifteen_minute_vehicle w = import_vehicle w
  import_counts fifteen_minute_bicycle w = import_bicycle w
  import_counts fifteen_minute_pedestrian w = import_pedestrian w
