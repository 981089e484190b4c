-- ===== src/Denormalize/Numbers.antt =====
-- The record number of the rows of src/denormalize.rs.
use starnext_import.Denormalize.Keys.{NonNormalCountKey, key_eq}
use starnext_import.Denormalize.Speed.{
  Block, NonNormalAvgSpeedValue, NonNormalRawSpeedValue, average_hour, average_hours, average_row,
  average_speeds, avg_first, blocks, create_non_normal_speedavg_count, gather_speeds, mean,
  speed_key,
}
use starnext_import.Denormalize.Volume.{
  HourRow, HourlyCount, NonNormalVolCountValue, count_key, denormalize_vol_count, first,
  gather_volumes, hourly_count, hourly_counts, insert, volume_row,
}
use starnext_import.External.Chrono.{Chrono}
use starnext_import.External.Float.{Float}
use starnext_import.FieldMetadata.{FieldMetadata}
use starnext_import.Prelude.HashMap.{HashMap, upsert, upsert-All}
use starnext_import.Prelude.Text.{Text}
use starnext_import.Prelude.{
  ℕ, ◌≡◌, refl, List, [], ◌∷◌, map, inl, inr, some, Option-cases, Outcome, ok, map_err, unwrap_ok,
  fold_loop, All, All-map, All-snoc, Gives, Gives->>=, Gives-then, Gives-fold_loop,
}
use starnext_import.Records.{IndividualVehicle}
use starnext_import.SpeedClass.{lane_direction}
use starnext_import.Types.Direction.Lane
use starnext_import.Types.Errors.{CountError, db_error, oracle_error}

module _ ⦃c : Chrono⦄ where
  -- Every key of a map has the record number.
  abbrev KeysOf : {V : Type 0} → ℕ → HashMap NonNormalCountKey V → Type 0
  KeysOf r m = All (λ e. e.0.recordnum ≡ r) m

  hourly_count-recordnum :
      (r : ℕ) (counts : List HourlyCount) (result : Outcome Text HourRow)
      → All (λ v. v.recordnum ≡ r) counts
      → Gives (All (λ v. v.recordnum ≡ r)) (hourly_count r counts result)
  unfolding hourly_count
  hourly_count-recordnum r counts result h =
      Gives->>= (All (λ v. v.recordnum ≡ r)) (map_err oracle_error result) _
        (λ (counttime, countdate, count, dir, lane) _.
          Gives->>= (All (λ v. v.recordnum ≡ r)) (unwrap_ok (Lane.from_str dir)) _
            (λ d _. All-snoc (λ v. v.recordnum ≡ r) counts _ h refl))

  hourly_counts-recordnum :
      (r : ℕ) (not_found : Text) (results : Outcome Text (List (Outcome Text HourRow)))
      → Gives (All (λ v. v.recordnum ≡ r)) (hourly_counts r not_found results)
  unfolding hourly_counts
  hourly_counts-recordnum r not_found results =
      Gives->>= (All (λ v. v.recordnum ≡ r)) (map_err (λ _. db_error not_found) results) _
        (λ results _.
          Gives-fold_loop (All (λ v. v.recordnum ≡ r)) (hourly_count r) (hourly_count-recordnum r)
            results [] tt)

  gather_volumes-KeysOf :
      (r : ℕ) (counts : List HourlyCount) (m : HashMap NonNormalCountKey NonNormalVolCountValue)
      → All (λ v. v.recordnum ≡ r) counts
      → KeysOf r m
      → KeysOf r (gather_volumes counts m)
  unfolding gather_volumes
  gather_volumes-KeysOf r [] m ks h = h
  gather_volumes-KeysOf r (count ∷ counts) m ks h = gather_volumes-KeysOf r counts _ ks.1 (
      upsert-All (λ e. e.0.recordnum ≡ r) (count_key count) (λ v. insert v count) (first count) m
        (λ j w p. p) ks.0 h)

  rows-recordnum :
      (r : ℕ) (counts : List HourlyCount)
      → All (λ v. v.recordnum ≡ r) counts
      → Gives {E = CountError} (All (λ v. v.recordnum ≡ r)) (elim counts [
        | [] ↦ ok []
        | count ∷ rest ↦ ok (map volume_row (gather_volumes (count ∷ rest) []))
      ])
  unfolding volume_row
  rows-recordnum r [] h = tt
  rows-recordnum r (count ∷ rest) h =
      All-map (λ v. v.recordnum ≡ r) volume_row (gather_volumes (count ∷ rest) [])
        (gather_volumes-KeysOf r (count ∷ rest) [] h tt)

  -- Every row has the record number that was asked for.
  pub denormalize_vol_count-recordnum :
      (r : ℕ) (not_found : Text) (results : Outcome Text (List (Outcome Text HourRow)))
      → Gives (All (λ v. v.recordnum ≡ r)) (denormalize_vol_count r not_found results)
  unfolding denormalize_vol_count
  denormalize_vol_count-recordnum r not_found results =
      Gives-then (All (λ v. v.recordnum ≡ r)) (All (λ v. v.recordnum ≡ r))
        (hourly_counts r not_found results) _ (hourly_counts-recordnum r not_found results)
        (rows-recordnum r)

module _ ⦃c : Chrono⦄ ⦃f : Float⦄ where
  gather_speeds-KeysOf :
      (m : FieldMetadata) (speeds : HashMap NonNormalCountKey NonNormalRawSpeedValue)
      (count : IndividualVehicle)
      → KeysOf m.recordnum speeds
      → Gives (KeysOf m.recordnum) (gather_speeds m speeds count)
  unfolding gather_speeds
  gather_speeds-KeysOf m speeds count h =
      Gives->>= (KeysOf m.recordnum) (lane_direction m.directions count.lane) _ (λ direction _.
        elim (Option-cases direction) [
          | inl e ↦ rw e h
          | inr (d, e) ↦ rw e (
              upsert-All (λ e. e.0.recordnum ≡ m.recordnum) (speed_key m d count) _ _ speeds
                (λ j w p. p) refl h)
        ])

  average_hour-KeysOf :
      (r : ℕ) (key : NonNormalCountKey) (value : NonNormalRawSpeedValue)
      (averages : HashMap NonNormalCountKey NonNormalAvgSpeedValue) (block : Block)
      → key.recordnum ≡ r
      → KeysOf r averages
      → KeysOf r (average_hour key value averages block)
  unfolding average_hour
  average_hour-KeysOf r key value averages (name, speeds, set) e h = hour (speeds value)
    where
      hour :
          (raw : List f.F32)
          → KeysOf r (elim raw [
            | [] ↦ averages
            | speed ∷ more ↦
                upsert key
                  (set (some (mean (speed ∷ more))))
                  (avg_first name (mean (speed ∷ more)))
                  averages
          ])
      hour [] = h
      hour (speed ∷ more) =
          upsert-All (λ e. e.0.recordnum ≡ r) key (set (some (mean (speed ∷ more))))
            (avg_first name (mean (speed ∷ more))) averages (λ j w p. p) e h

  average_hours-KeysOf :
      (r : ℕ) (key : NonNormalCountKey) (value : NonNormalRawSpeedValue) (rest : List Block)
      (averages : HashMap NonNormalCountKey NonNormalAvgSpeedValue)
      → key.recordnum ≡ r
      → KeysOf r averages
      → KeysOf r (average_hours key value rest averages)
  unfolding average_hours
  average_hours-KeysOf r key value [] averages e h = h
  average_hours-KeysOf r key value (block ∷ rest) averages e h =
      average_hours-KeysOf r key value rest _ e (average_hour-KeysOf r key value averages block e h)

  average_speeds-KeysOf :
      (r : ℕ) (speeds : HashMap NonNormalCountKey NonNormalRawSpeedValue)
      (averages : HashMap NonNormalCountKey NonNormalAvgSpeedValue)
      → KeysOf r speeds
      → KeysOf r averages
      → KeysOf r (average_speeds speeds averages)
  unfolding average_speeds
  average_speeds-KeysOf r [] averages ks h = h
  average_speeds-KeysOf r ((key, value) ∷ rest) averages ks h =
      average_speeds-KeysOf r rest _ ks.1 (average_hours-KeysOf r key value blocks averages ks.0 h)

  -- Every row has the record number of the metadata.
  pub create_non_normal_speedavg_count-recordnum :
      (m : FieldMetadata) (counts : List IndividualVehicle)
      → Gives (All (λ v. v.recordnum ≡ m.recordnum)) (create_non_normal_speedavg_count m counts)
  unfolding create_non_normal_speedavg_count average_row
  create_non_normal_speedavg_count-recordnum m counts =
      Gives-then (KeysOf m.recordnum) (All (λ v. v.recordnum ≡ m.recordnum))
        (fold_loop (gather_speeds m) counts []) _
        (Gives-fold_loop (KeysOf m.recordnum) (gather_speeds m) (gather_speeds-KeysOf m) counts []
          tt)
        (λ speeds h.
          All-map _ average_row (average_speeds speeds [])
            (average_speeds-KeysOf m.recordnum speeds [] h tt))
