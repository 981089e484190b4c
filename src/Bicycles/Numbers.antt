-- ===== src/Bicycles/Numbers.antt =====
-- The record number of the counts of `create_binned_bicycle_vol_count`.
use starnext_import.Bicycles.{
  Volumes, bicycle_key, bicycle_volumes, create_binned_bicycle_vol_count, fill, gather, key_eq,
  moment, ride_in, ride_out, sort_key, values, volume_row,
}
use starnext_import.Binning.{TimeInterval, create_time_bins}
use starnext_import.External.Chrono.{Chrono, pair_le}
use starnext_import.FieldMetadata.{FieldMetadata}
use starnext_import.Prelude.HashMap.{upsert-All}
use starnext_import.Prelude.Sort.{sort_by, first, last}
use starnext_import.Prelude.{
  ℕ, ◌≡◌, ◌==◌, refl, List, [], ◌∷◌, Bool-cases, inl, inr, unwrap, fold_loop, All, All-map, Gives,
  Gives->>=, Gives-then, Gives-fold_loop,
}
use starnext_import.Records.{IndividualBicycle}

module _ ⦃c : Chrono⦄ where
  -- Every value of the map has the record number.
  abbrev VolumesOf : ℕ → Volumes → Type 0
  VolumesOf r volumes = All (λ e. e.1.recordnum ≡ r) volumes

  gather-VolumesOf :
      (interval : TimeInterval) (m : FieldMetadata) (volumes : Volumes) (count : IndividualBicycle)
      → VolumesOf m.recordnum volumes
      → Gives (VolumesOf m.recordnum) (gather interval m volumes count)
  unfolding gather ride_in ride_out
  gather-VolumesOf interval m volumes count h =
      Gives->>= (VolumesOf m.recordnum) (bicycle_key interval count) _ (λ key _.
        elim (Bool-cases (count.lane == 1)) [
          | inl one ↦
              rw one
                (upsert-All (λ e. e.1.recordnum ≡ m.recordnum) key _ _ volumes (λ j w p. p) refl h)
          | inr e ↦ rw e (elim (Bool-cases (count.lane == 2)) [
            | inl two ↦
                rw two (
                  upsert-All (λ e. e.1.recordnum ≡ m.recordnum) key _ _ volumes (λ j w p. p) refl h)
            | inr e ↦ rw e h
          ])
        ])

  fill-VolumesOf :
      (m : FieldMetadata) (dts : List c.NaiveDateTime) (volumes : Volumes)
      → VolumesOf m.recordnum volumes
      → VolumesOf m.recordnum (fill m volumes dts)
  unfolding fill
  fill-VolumesOf m [] volumes h = h
  fill-VolumesOf m (dt ∷ dts) volumes h = fill-VolumesOf m dts _ (
      upsert-All (λ e. e.1.recordnum ≡ m.recordnum) (record { date = c.date dt; time = dt })
        (λ w. w) (values m.recordnum 0 0 0) volumes (λ j w p. p) refl h)

  volumes-VolumesOf :
      (fuel : ℕ) (interval : TimeInterval) (m : FieldMetadata) (counts : List IndividualBicycle)
      → Gives (VolumesOf m.recordnum) (bicycle_volumes fuel interval m counts)
  unfolding bicycle_volumes
  volumes-VolumesOf fuel interval m counts =
      Gives-then (VolumesOf m.recordnum) (VolumesOf m.recordnum)
        (fold_loop (gather interval m) counts []) _
        (Gives-fold_loop (VolumesOf m.recordnum) (gather interval m) (gather-VolumesOf interval m)
          counts [] tt)
        (λ volumes h.
          let sorted = sort_by (λ v w. pair_le (sort_key v) (sort_key w)) counts in
          Gives->>= (VolumesOf m.recordnum) (unwrap (first sorted)) _ (λ earliest _.
            Gives->>= (VolumesOf m.recordnum) (unwrap (last sorted)) _ (λ latest _.
              Gives->>= (VolumesOf m.recordnum)
                (create_time_bins fuel (moment earliest) (moment latest) interval) _
                (λ all_datetimes _. fill-VolumesOf m all_datetimes volumes h))))

  -- Every count has the record number of the metadata.
  pub create_binned_bicycle_vol_count-recordnum :
      (fuel : ℕ) (interval : TimeInterval) (m : FieldMetadata) (counts : List IndividualBicycle)
      → Gives
          (All (λ v. v.recordnum ≡ m.recordnum))
          (create_binned_bicycle_vol_count fuel interval m counts)
  unfolding create_binned_bicycle_vol_count volume_row
  create_binned_bicycle_vol_count-recordnum fuel interval m [] = tt
  create_binned_bicycle_vol_count-recordnum fuel interval m (count ∷ counts) =
      Gives-then (VolumesOf m.recordnum) (All (λ v. v.recordnum ≡ m.recordnum))
        (bicycle_volumes fuel interval m (count ∷ counts)) _
        (volumes-VolumesOf fuel interval m (count ∷ counts))
        (λ volumes h. All-map _ volume_row volumes h)
