-- ===== src/SpeedClass/Result.antt =====
-- What `create_speed_and_class_count` returns, for at least one vehicle.
use starnext_import.Binning.Bins.{IsWhole, Progression, bin_second, create_time_bins-Progression}
use starnext_import.Binning.Time.{width}
use starnext_import.Binning.{TimeInterval, hour, fifteen_min}
use starnext_import.External.Chrono.{Chrono, ChronoLaws, pair_le}
use starnext_import.External.Float.{Float}
use starnext_import.FieldMetadata.{FieldMetadata}
use starnext_import.Prelude.HashMap.{lookup, IsPresent}
use starnext_import.Prelude.Sort.{sort_by_ends}
use starnext_import.Prelude.{
  ℕ, suc, ◌+◌, ◌*◌, ◌/◌, ◌≤◌, ◌<◌, ◌≡◌, refl, List, [], ◌∷◌, ◌⊎◌, inl, inr, map, ok, All, All-imp,
  arith, sym, leb,
}
use starnext_import.Records.{IndividualVehicle}
use starnext_import.SpeedClass.Fill.{
  Recognised, HasSecond, fill-Agrees, all_keys-Recognised, all_keys-All, lanes-Recognised,
  lanes-given,
}
use starnext_import.SpeedClass.Gather.{Agrees, given, Fits, hits, gather-Agrees}
use starnext_import.SpeedClass.{
  BinnedCountKey, key_eq, Maps, all_lanes, all_keys, sort_key, moment, speed_row, class_row,
  speed_and_class_maps, create_speed_and_class_count,
}

-- The item is in the list.
abbrev pub Occurs : {A : Type 0} → A → List A → Type 0
Occurs x [] = ⊥
Occurs x (y ∷ ys) = (x ≡ y) ⊎ Occurs x ys

All-occur : {A : Type 0} (xs : List A) → All (λ x. Occurs x xs) xs
All-occur [] = tt
All-occur (x ∷ xs) = (inl refl, All-imp (λ y h. inr h) xs (All-occur xs))

All-both :
    {A : Type 0} (P Q : A → Type 0) (xs : List A) → All P xs → All Q xs → All (λ x. P x × Q x) xs
All-both P Q [] h k = tt
All-both P Q (x ∷ xs) h k = ((h.0, k.0), All-both P Q xs h.1 k.1)

module _ ⦃c : Chrono⦄ ⦃f : Float⦄ (laws : ChronoLaws c) (interval : TimeInterval)
    (m : FieldMetadata) where
  open laws use {seconds}

  -- The lane of the vehicle does not panic, and its moment is a whole second not before `lo` and
  -- not after `hi`.
  pub record Usable (lo hi : ℕ) (v : IndividualVehicle) : Type 0 where
    pub lane_fits : Fits m.directions v.lane
    pub whole : IsWhole laws (moment v)
    pub from_lo : lo ≤ seconds (moment v)
    pub to_hi : seconds (moment v) ≤ hi

  -- The maps hold a count for each bin and each lane with a direction from the first to the last of
  -- the vehicles, and at every key the number of its vehicles.
  pub record Counted (counts : List IndividualVehicle) (earliest latest : IndividualVehicle)
      (maps : Maps) : Type 0 where
    pub earliest_occurs : Occurs earliest counts
    pub latest_occurs : Occurs latest counts
    pub at_least : All (λ v. seconds (moment earliest) ≤ seconds (moment v)) counts
    pub at_most : All (λ v. seconds (moment v) ≤ seconds (moment latest)) counts
    pub bins : List c.NaiveDateTime
    pub progress :
        Progression laws
          (width interval * 60)
          (bin_second laws interval (moment latest))
          (bin_second laws interval (moment earliest))
          bins
    pub present :
        All
          (λ bin.
            (lane : ℕ)
            → Recognised m.directions lane
            → IsPresent (lookup (record { date = c.date bin; time = bin; lane = lane }) maps.1))
          bins
    pub agrees :
        (k : BinnedCountKey)
        → Agrees m.recordnum
            (given m.directions k.lane)
            (hits interval m.directions k counts)
            (lookup k maps.0)
            (lookup k maps.1)

  sort_order :
      (v w : IndividualVehicle)
      → IsWhole laws (moment v)
      → IsWhole laws (moment w)
      → pair_le (sort_key v) (sort_key w) ≡ leb (seconds (moment v)) (seconds (moment w))
  sort_order v w p q =
      rw (sym (laws.datetime_le-pair_le v.date w.date (c.time v.time) (c.time w.time)))
        (laws.datetime_le-seconds (moment v) (moment w) p q)

-- A bin is no longer than an hour and no shorter than a quarter of one.
pub bin_bound :
    (interval : TimeInterval) (lo hi a z fuel : ℕ)
    → lo ≤ a
    → z ≤ hi
    → hi < lo + fuel * 900
    → z / (width interval * 60) * (width interval * 60)
      < a / (width interval * 60) * (width interval * 60) + suc fuel * (width interval * 60)
bin_bound hour lo hi a z fuel p q h = omega arith
bin_bound fifteen_min lo hi a z fuel p q h = omega arith

pub bin_top :
    (interval : TimeInterval) (z hi top : ℕ)
    → z ≤ hi
    → hi + 3600 ≤ top
    → z + width interval * 60 ≤ top
bin_top hour z hi top p q = omega arith
bin_top fifteen_min z hi top p q = omega arith

module _ ⦃c : Chrono⦄ ⦃f : Float⦄ (laws : ChronoLaws c) (interval : TimeInterval)
    (m : FieldMetadata) where
  open laws use {seconds}

  -- The speed and class counts of at least one vehicle, if no lane panics, a third direction comes
  -- with a second one, all moments are whole seconds from `lo` to `hi`, the fuel is enough for
  -- the bins between and the calendar goes on for an hour: the run ends without a panic or an
  -- error, its rows are those of two maps, which hold a count for every lane with a direction and for
  -- every bin from the first to the last vehicle, and at every key both maps count the vehicles of
  -- that key, with the direction of its lane; those in a lane other than 1, 2 and 3 are not counted.
  pub create_speed_and_class_count-Counted :
      (lo hi fuel : ℕ) (count : IndividualVehicle) (counts : List IndividualVehicle)
      → All (Usable laws interval m lo hi) (count ∷ counts)
      → HasSecond m.directions
      → hi < lo + fuel * 900
      → hi + 3600 ≤ laws.last_second
      → (maps : Maps) × (earliest latest : IndividualVehicle) × (create_speed_and_class_count
            (suc (suc fuel))
            interval
            m
            (count ∷ counts)
          ≡ ok (map speed_row maps.0, map class_row maps.1))
        × Counted laws interval m (count ∷ counts) earliest latest maps
  unfolding create_speed_and_class_count speed_and_class_maps
  create_speed_and_class_count-Counted lo hi fuel count counts usable known enough top =
      let (gathered, eg, ag) =
        gather-Agrees laws interval m (count ∷ counts)
          (All-imp (λ v u. u.lane_fits) (count ∷ counts) usable) in
      let (a, z, ea, ez, least, most, ua, uz) =
        sort_by_ends (λ v. Usable laws interval m lo hi v × Occurs v (count ∷ counts))
          (λ v w. pair_le (sort_key v) (sort_key w)) (λ v. seconds (moment v))
          (λ v w p q. sort_order laws interval m v w p.0.whole q.0.whole) count counts
          (All-both (Usable laws interval m lo hi) (λ v. Occurs v (count ∷ counts)) (count ∷ counts)
            usable (All-occur (count ∷ counts))) in
      let (bins, eb, progress) =
        create_time_bins-Progression laws (suc fuel) (moment a) (moment z) interval ua.0.whole
          uz.0.whole (bin_top interval (seconds (moment z)) hi laws.last_second uz.0.to_hi top)
          (bin_bound interval lo hi (seconds (moment a)) (seconds (moment z)) fuel ua.0.from_lo
            uz.0.to_hi enough) in
      let (filled, ef, af, pf, present) =
        fill-Agrees m (all_keys (all_lanes m.directions) bins) gathered (
          all_keys-Recognised m (all_lanes m.directions) bins (
            lanes-Recognised m.directions.direction1 m.directions.direction2 m.directions.direction3
              known)) in
      (
        filled,
        a,
        z,
        rw (eg, ea, ez, eb, ef) refl,
        record {
          earliest_occurs = ua.1;
          latest_occurs = uz.1;
          at_least = least;
          at_most = most;
          bins = bins;
          progress = progress;
          present =
              All-imp
                (λ bin at_lanes lane.
                  lanes-given m.directions.direction1
                    (λ lane.
                      IsPresent
                        (lookup (record { date = c.date bin; time = bin; lane = lane }) filled.1))
                    m.directions.direction2 m.directions.direction3 known at_lanes lane)
                bins
                (all_keys-All m (λ k. IsPresent (lookup k filled.1)) (all_lanes m.directions) bins
                  present);
          agrees = λ k. af k (hits interval m.directions k (count ∷ counts)) (ag k);
        },
      )
