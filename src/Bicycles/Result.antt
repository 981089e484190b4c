-- ===== src/Bicycles/Result.antt =====
-- What `create_binned_bicycle_vol_count` returns, for at least one bicycle.
use starnext_import.Bicycles.Gather.{Rides, hit, gather_bicycles-lookup}
use starnext_import.Bicycles.{
  DataKey, DataValues, key_beq, key_beq_iff, key_eq, Volumes, values, fill, sort_key, moment,
  volume_row, bicycle_volumes, create_binned_bicycle_vol_count,
}
use starnext_import.Binning.Bins.{IsWhole, Progression, bin_second, create_time_bins-Progression}
use starnext_import.Binning.Time.{width}
use starnext_import.Binning.{TimeInterval}
use starnext_import.External.Chrono.{Chrono, ChronoLaws, pair_le}
use starnext_import.FieldMetadata.{FieldMetadata}
use starnext_import.Prelude.HashMap.{
  lookup, or_insert, lookup-upsert, modified_or, IsPresent, upsert-IsPresent, upsert-IsPresent_self,
}
use starnext_import.Prelude.Sort.{sort_by_ends}
use starnext_import.Prelude.{
  ℕ, suc, ◌+◌, ◌*◌, ◌≤◌, ◌<◌, ◌≡◌, ap, refl, sym, Bool, true, false, List, [], ◌∷◌, map, Option,
  none, some, ok, All, leb, if◌then◌else◌, sum_by,
}
use starnext_import.Records.{IndividualBicycle}
use starnext_import.SpeedClass.Result.{bin_bound, bin_top}

-- A missing value stands for no bicycle.
Rides-new :
    (r i o : ℕ) (v : Option DataValues)
    → Rides r i o v
    → Rides r i o (some (modified_or (λ w. w) (values r 0 0 0) v))
Rides-new r i o none h = rw (h.0, h.1) (refl, refl, refl, refl)
Rides-new r i o (some v) h = h

Rides-if :
    (b : Bool) (r i o : ℕ) (v w : Option DataValues)
    → (b ≡ true → w ≡ v)
    → Rides r i o v
    → Rides r i o (if b then some (modified_or (λ x. x) (values r 0 0 0) w) else v)
Rides-if true r i o v w same h = Rides-new r i o w (rw (same refl) h)
Rides-if false r i o v w same h = h

module _ ⦃c : Chrono⦄ (m : FieldMetadata) where
  abbrev pub key_at : c.NaiveDateTime → DataKey
  key_at dt = record { date = c.date dt; time = dt }

  fill-Rides :
      (dts : List c.NaiveDateTime) (volumes : Volumes) (k : DataKey) (i o : ℕ)
      → Rides m.recordnum i o (lookup k volumes)
      → Rides m.recordnum i o (lookup k (fill m volumes dts))
  unfolding fill
  fill-Rides [] volumes k i o h = h
  fill-Rides (dt ∷ dts) volumes k i o h =
      fill-Rides dts (or_insert (key_at dt) (values m.recordnum 0 0 0) volumes) k i o (
        rw (lookup-upsert k (key_at dt) (λ x. x) (values m.recordnum 0 0 0) volumes) (
          Rides-if (key_beq k (key_at dt)) m.recordnum i o (lookup k volumes)
            (lookup (key_at dt) volumes)
            (λ same. ap (λ j. lookup j volumes) (sym ((key_beq_iff k (key_at dt)).0 same))) h))

  fill-keeps :
      (dts : List c.NaiveDateTime) (volumes : Volumes) (k : DataKey)
      → IsPresent (lookup k volumes)
      → IsPresent (lookup k (fill m volumes dts))
  unfolding fill
  fill-keeps [] volumes k h = h
  fill-keeps (dt ∷ dts) volumes k h =
      fill-keeps dts (or_insert (key_at dt) (values m.recordnum 0 0 0) volumes) k
        (upsert-IsPresent k (key_at dt) (λ x. x) (values m.recordnum 0 0 0) volumes h)

  fill-IsPresent :
      (dts : List c.NaiveDateTime) (volumes : Volumes)
      → All (λ dt. IsPresent (lookup (key_at dt) (fill m volumes dts))) dts
  unfolding fill
  fill-IsPresent [] volumes = tt
  fill-IsPresent (dt ∷ dts) volumes =
      let added = or_insert (key_at dt) (values m.recordnum 0 0 0) volumes in
      (
        fill-keeps dts added (key_at dt)
            (upsert-IsPresent_self (key_at dt) (λ x. x) (values m.recordnum 0 0 0) volumes),
        fill-IsPresent dts added,
      )

module _ ⦃c : Chrono⦄ (laws : ChronoLaws c) (interval : TimeInterval) (m : FieldMetadata) where
  open laws use {seconds}

  -- The moment of the bicycle is a whole second not before `lo` and not after `hi`.
  pub record Timed (lo hi : ℕ) (v : IndividualBicycle) : Type 0 where
    pub whole : IsWhole laws (moment v)
    pub from_lo : lo ≤ seconds (moment v)
    pub to_hi : seconds (moment v) ≤ hi

  -- The map holds volumes for each bin from the first to the last bicycle, and at every key those of
  -- its bicycles.
  pub record Filled (counts : List IndividualBicycle) (earliest latest : IndividualBicycle)
      (volumes : Volumes) : Type 0 where
    pub at_least : All (λ v. seconds (moment earliest) ≤ seconds (moment v)) counts
    pub at_most : All (λ v. seconds (moment v) ≤ seconds (moment latest)) counts
    pub bins : List c.NaiveDateTime
    pub progress :
        Progression laws
          (width interval * 60)
          (bin_second laws interval (moment latest))
          (bin_second laws interval (moment earliest))
          bins
    pub present : All (λ dt. IsPresent (lookup (key_at m dt) volumes)) bins
    pub rides :
        (k : DataKey)
        → Rides m.recordnum
            (sum_by (hit interval 1 k) counts)
            (sum_by (hit interval 2 k) counts)
            (lookup k volumes)

  order_of_keys :
      (v w : IndividualBicycle)
      → IsWhole laws (moment v)
      → IsWhole laws (moment w)
      → pair_le (sort_key v) (sort_key w) ≡ leb (seconds (moment v)) (seconds (moment w))
  order_of_keys v w p q =
      rw (sym (laws.datetime_le-pair_le v.date w.date (c.time v.time) (c.time w.time)))
        (laws.datetime_le-seconds (moment v) (moment w) p q)

module _ ⦃c : Chrono⦄ (laws : ChronoLaws c) (interval : TimeInterval) (m : FieldMetadata) where
  open laws use {seconds}

  -- The volumes of at least one bicycle, if all moments are whole seconds from `lo` to `hi`, the fuel
  -- is enough for the bins between and the calendar goes on for an hour: the run ends without a panic
  -- or an error, its rows are those of a map that holds volumes for every bin from the first to the
  -- last bicycle, and at every key the volumes are the numbers of its bicycles in lanes 1 and 2 with
  -- their sum, each modulo 2^16.
  pub create_binned_bicycle_vol_count-Filled :
      (lo hi fuel : ℕ) (count : IndividualBicycle) (counts : List IndividualBicycle)
      → All (Timed laws interval m lo hi) (count ∷ counts)
      → hi < lo + fuel * 900
      → hi + 3600 ≤ laws.last_second
      → (volumes : Volumes) × (earliest latest : IndividualBicycle)
        × (create_binned_bicycle_vol_count (suc (suc fuel)) interval m (count ∷ counts)
            ≡ ok (map volume_row volumes))
        × Filled laws interval m (count ∷ counts) earliest latest volumes
  unfolding create_binned_bicycle_vol_count bicycle_volumes
  create_binned_bicycle_vol_count-Filled lo hi fuel count counts timed enough top =
      let (gathered, eg, rides) = gather_bicycles-lookup laws interval m (count ∷ counts) in
      let (a, z, ea, ez, least, most, ta, tz) =
        sort_by_ends (Timed laws interval m lo hi) (λ v w. pair_le (sort_key v) (sort_key w))
          (λ v. seconds (moment v)) (λ v w p q. order_of_keys laws interval m v w p.whole q.whole)
          count counts timed in
      let (bins, eb, progress) =
        create_time_bins-Progression laws (suc fuel) (moment a) (moment z) interval ta.whole
          tz.whole (bin_top interval (seconds (moment z)) hi laws.last_second tz.to_hi top)
          (bin_bound interval lo hi (seconds (moment a)) (seconds (moment z)) fuel ta.from_lo
            tz.to_hi enough) in
      (
        fill m gathered bins,
        a,
        z,
        rw (eg, ea, ez, eb) refl,
        record {
          at_least = least;
          at_most = most;
          bins = bins;
          progress = progress;
          present = fill-IsPresent m bins gathered;
          rides = λ k.
              fill-Rides m bins gathered k (sum_by (hit interval 1 k) (count ∷ counts))
                (sum_by (hit interval 2 k) (count ∷ counts)) (rides k);
        },
      )
