-- ===== src/SpeedClass/Numbers.antt =====
-- The record number of the counts of `create_speed_and_class_count`.
use starnext_import.Binning.{TimeInterval, create_time_bins}
use starnext_import.External.Chrono.{Chrono, pair_le}
use starnext_import.External.Float.{Float}
use starnext_import.FieldMetadata.{FieldMetadata}
use starnext_import.Intermediate.ClassCount
use starnext_import.Intermediate.ClassCount.{VehicleClassCount}
use starnext_import.Intermediate.SpeedRange
use starnext_import.Intermediate.SpeedRange.{SpeedRangeCount}
use starnext_import.Intermediate.SpeedRange.Effect
use starnext_import.Prelude.HashMap.{upsert-All}
use starnext_import.Prelude.Sort.{sort_by, first, last}
use starnext_import.Prelude.{
  ℕ, ◌≡◌, ◌∙◌, refl, List, [], ◌∷◌, inl, inr, Option-cases, unwrap, fold_loop, All, All-map, Gives,
  Gives->>=, Gives-then, Gives-fold_loop,
}
use starnext_import.Records.{
  IndividualVehicle, TimeBinnedSpeedRangeCount, TimeBinnedVehicleClassCount,
}
use starnext_import.SpeedClass.{
  BinnedCountKey, Maps, all_keys, all_lanes, binned_key, class_row, create_speed_and_class_count,
  fill_key, gather, key_eq, lane_direction, moment, sort_key, speed_and_class_maps, speed_row,
}

module _ ⦃c : Chrono⦄ ⦃f : Float⦄ where
  -- Every value of both maps has the record number.
  abbrev MapsOf : ℕ → Maps → Type 0
  MapsOf r maps = All (λ e. e.1.recordnum ≡ r) maps.0 × All (λ e. e.1.recordnum ≡ r) maps.1

  gather-MapsOf :
      (interval : TimeInterval) (m : FieldMetadata) (maps : Maps) (count : IndividualVehicle)
      → MapsOf m.recordnum maps
      → Gives (MapsOf m.recordnum) (gather interval m maps count)
  unfolding gather SpeedRange.first SpeedRange.new ClassCount.first ClassCount.new
  gather-MapsOf interval m maps count h =
      Gives->>= (MapsOf m.recordnum) (lane_direction m.directions count.lane) _ (λ direction _.
        elim (Option-cases direction) [
          | inl e ↦ rw e h
          | inr (d, e) ↦ rw e (
              Gives->>= (MapsOf m.recordnum) (binned_key interval count) _ (λ key _. (
                upsert-All (λ e. e.1.recordnum ≡ m.recordnum) key _ _ maps.0
                    (λ j w p. (Effect.insert_effect w count.speed).1 ∙ p)
                    ((Effect.insert_effect (SpeedRange.new m.recordnum d) count.speed).1) h.0,
                upsert-All (λ e. e.1.recordnum ≡ m.recordnum) key _ _ maps.1
                    (λ j w p. (ClassCount.insert_effect w count.class).2 ∙ p)
                    ((ClassCount.insert_effect (ClassCount.new m.recordnum d) count.class).2) h.1,
              )))
        ])

  fill_key-MapsOf :
      (m : FieldMetadata) (maps : Maps) (key : BinnedCountKey)
      → MapsOf m.recordnum maps
      → Gives (MapsOf m.recordnum) (fill_key m maps key)
  unfolding fill_key SpeedRange.new ClassCount.new
  fill_key-MapsOf m maps key h =
      Gives->>= (MapsOf m.recordnum) (lane_direction m.directions key.lane) _ (λ direction _.
        elim (Option-cases direction) [
          | inl e ↦ rw e h
          | inr (d, e) ↦ rw e (
            upsert-All (λ e. e.1.recordnum ≡ m.recordnum) key _ _ maps.0 (λ j w p. p) refl h.0,
            upsert-All (λ e. e.1.recordnum ≡ m.recordnum) key _ _ maps.1 (λ j w p. p) refl h.1,
          )
        ])

  maps-MapsOf :
      (fuel : ℕ) (interval : TimeInterval) (m : FieldMetadata) (counts : List IndividualVehicle)
      → Gives (MapsOf m.recordnum) (speed_and_class_maps fuel interval m counts)
  unfolding speed_and_class_maps
  maps-MapsOf fuel interval m counts =
      Gives-then (MapsOf m.recordnum) (MapsOf m.recordnum)
        (fold_loop (gather interval m) counts ([], [])) _
        (Gives-fold_loop (MapsOf m.recordnum) (gather interval m) (gather-MapsOf interval m) counts
          ([], []) (tt, tt))
        (λ maps h.
          let sorted = sort_by (λ v w. pair_le (sort_key v) (sort_key w)) counts in
          Gives->>= (MapsOf m.recordnum) (unwrap (first sorted)) _ (λ earliest _.
            Gives->>= (MapsOf m.recordnum) (unwrap (last sorted)) _ (λ latest _.
              Gives->>= (MapsOf m.recordnum)
                (create_time_bins fuel (moment earliest) (moment latest) interval) _
                (λ all_datetimes _.
                  Gives-fold_loop (MapsOf m.recordnum) (fill_key m) (fill_key-MapsOf m)
                    (all_keys (all_lanes m.directions) all_datetimes) maps h))))

  abbrev pub CountsOf :
      ℕ → List TimeBinnedSpeedRangeCount × List TimeBinnedVehicleClassCount → Type 0
  CountsOf r counts = All (λ v. v.recordnum ≡ r) counts.0 × All (λ v. v.recordnum ≡ r) counts.1

  -- Every count has the record number of the metadata.
  pub create_speed_and_class_count-CountsOf :
      (fuel : ℕ) (interval : TimeInterval) (m : FieldMetadata) (counts : List IndividualVehicle)
      → Gives (CountsOf m.recordnum) (create_speed_and_class_count fuel interval m counts)
  unfolding create_speed_and_class_count speed_row class_row
  create_speed_and_class_count-CountsOf fuel interval m [] = (tt, tt)
  create_speed_and_class_count-CountsOf fuel interval m (count ∷ counts) =
      Gives-then (MapsOf m.recordnum) (CountsOf m.recordnum)
        (speed_and_class_maps fuel interval m (count ∷ counts)) _
        (maps-MapsOf fuel interval m (count ∷ counts))
        (λ maps h. (All-map _ speed_row maps.0 h.0, All-map _ class_row maps.1 h.1))
