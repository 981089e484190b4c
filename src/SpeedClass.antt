-- ===== src/SpeedClass.antt =====
-- `create_speed_and_class_count` of src/lib.rs: speed and class counts of individual vehicles.
pub mod Gather
pub mod Fill
pub mod Result
pub mod Numbers
mod Tests
use starnext_import.Binning.{TimeInterval, bin_time, create_time_bins}
use starnext_import.External.Chrono.{Chrono, pair_le}
use starnext_import.External.Float.{Float}
use starnext_import.FieldMetadata.{FieldMetadata}
use starnext_import.Intermediate.ClassCount
use starnext_import.Intermediate.ClassCount.{VehicleClassCount}
use starnext_import.Intermediate.SpeedRange
use starnext_import.Intermediate.SpeedRange.{SpeedRangeCount}
use starnext_import.Prelude.HashMap.{HashMap, upsert, or_insert}
use starnext_import.Prelude.Sort.{sort_by, first, last}
use starnext_import.Prelude.{
  ℕ, Bool, true, false, ◌&&◌, List, [], ◌∷◌, ◌++◌, map, Option, none, some, Outcome, ok, unwrap,
  ◌>>=◌, fold_loop, Eq, ==_iff, ◌==◌, if◌then◌else◌, ◌↔◌, ◌≡◌, arith, refl,
}
use starnext_import.Records.{
  IndividualVehicle, TimeBinnedVehicleClassCount, TimeBinnedSpeedRangeCount,
}
use starnext_import.Types.Direction.{Directions, LaneDirection}
use starnext_import.Types.Errors.{CountError}

-- `BinnedCountKey` of src/intermediate.rs.
pub record BinnedCountKey ⦃c : Chrono⦄ : Type 0 where
  pub date : c.NaiveDate
  pub time : c.NaiveDateTime
  pub lane : ℕ

-- The match on a lane: its direction, or none with an error in the log. A lane whose direction is
-- missing panics.
unfoldable pub lane_direction : Directions → ℕ → Outcome CountError (Option LaneDirection)
lane_direction ds lane =
    if lane == 1
    then ok (some ds.direction1)
    else if lane == 2
    then (unwrap ds.direction2 >>= λ d. ok (some d))
    else if lane == 3
    then (unwrap ds.direction3 >>= λ d. ok (some d))
    else ok none

abbrev pub all_lanes : Directions → List ℕ
all_lanes ds = elim ds.direction3 [
  | some _ ↦ 1 ∷ 2 ∷ 3 ∷ []
  | none ↦ elim ds.direction2 [ some _ ↦ 1 ∷ 2 ∷ [] | none ↦ 1 ∷ [] ]
]

module _ ⦃c : Chrono⦄ where
  -- The derived `PartialEq` of the key.
  abbrev pub key_beq : BinnedCountKey → BinnedCountKey → Bool
  key_beq k j = c.date_eq.beq k.date j.date && c.datetime_eq.beq k.time j.time && k.lane == j.lane

  pub key_beq_iff : (k j : BinnedCountKey) → (key_beq k j ≡ true) ↔ (k ≡ j)
  key_beq_iff k j =
      ground (arith, c.date_eq.beq_iff k.date j.date, c.datetime_eq.beq_iff k.time j.time)

  instance abbrev pub key_eq : Eq BinnedCountKey
  key_eq = record { beq = key_beq; beq_iff = key_beq_iff }

  -- `for datetime in all_datetimes { for lane in all_lanes { all_keys.push(…) } }`.
  unfoldable pub keys_of : List ℕ → c.NaiveDateTime → List BinnedCountKey
  keys_of [] dt = []
  keys_of (lane ∷ lanes) dt = record { date = c.date dt; time = dt; lane = lane } ∷ keys_of lanes dt

  unfoldable pub all_keys : List ℕ → List c.NaiveDateTime → List BinnedCountKey
  unfolding keys_of
  all_keys lanes [] = []
  all_keys lanes (dt ∷ dts) = keys_of lanes dt ++ all_keys lanes dts

  abbrev pub Maps : Type 0
  Maps = HashMap BinnedCountKey SpeedRangeCount × HashMap BinnedCountKey VehicleClassCount

  -- A round of the loop over `all_keys`.
  pub fill_key : FieldMetadata → Maps → BinnedCountKey → Outcome CountError Maps
  fill_key m maps key = do
    direction ← lane_direction m.directions key.lane
    elim direction [
      | none ↦ ok maps
      | some direction ↦ ok (
        or_insert key (SpeedRange.new m.recordnum direction) maps.0,
        or_insert key (ClassCount.new m.recordnum direction) maps.1,
      )
    ]

  -- A row of the TC_SPECOUNT table.
  unfoldable pub speed_row : BinnedCountKey × SpeedRangeCount → TimeBinnedSpeedRangeCount
  speed_row (key, value) = record {
    date = key.date;
    time = key.time;
    lane = some key.lane;
    recordnum = value.recordnum;
    direction = some value.direction;
    s1 = value.s1;
    s2 = value.s2;
    s3 = value.s3;
    s4 = value.s4;
    s5 = value.s5;
    s6 = value.s6;
    s7 = value.s7;
    s8 = value.s8;
    s9 = value.s9;
    s10 = value.s10;
    s11 = value.s11;
    s12 = value.s12;
    s13 = value.s13;
    s14 = value.s14;
    total = value.total;
  }

  -- A row of the TC_CLACOUNT table.
  unfoldable pub class_row : BinnedCountKey × VehicleClassCount → TimeBinnedVehicleClassCount
  class_row (key, value) = record {
    date = key.date;
    time = key.time;
    lane = some key.lane;
    recordnum = value.recordnum;
    direction = some value.direction;
    c1 = value.c1;
    c2 = value.c2;
    c3 = value.c3;
    c4 = value.c4;
    c5 = value.c5;
    c6 = value.c6;
    c7 = value.c7;
    c8 = value.c8;
    c9 = value.c9;
    c10 = value.c10;
    c11 = value.c11;
    c12 = value.c12;
    c13 = value.c13;
    c15 = some value.c15;
    total = value.total;
  }

module _ ⦃c : Chrono⦄ ⦃f : Float⦄ where
  -- The key of the interval and lane of a vehicle.
  pub binned_key : TimeInterval → IndividualVehicle → Outcome CountError BinnedCountKey
  binned_key interval count = do
    time_part ← bin_time (c.time count.time) interval
    ok (record { date = count.date; time = c.datetime count.date time_part; lane = count.lane })

  -- A round of the loop over the counts.
  pub gather : TimeInterval → FieldMetadata → Maps → IndividualVehicle → Outcome CountError Maps
  gather interval m maps count = do
    direction ← lane_direction m.directions count.lane
    elim direction [
      | none ↦ ok maps
      | some direction ↦ do
        key ← binned_key interval count
        ok (
          upsert key (λ v. SpeedRange.insert v count.speed)
              (SpeedRange.first m.recordnum direction count.speed) maps.0,
          upsert key (λ v. ClassCount.insert v count.class)
              (ClassCount.first m.recordnum direction count.class) maps.1,
        )
    ]

  -- `(c.date, c.time.time())`, and `NaiveDateTime::new` of it.
  abbrev pub sort_key : IndividualVehicle → c.NaiveDate × c.NaiveTime
  sort_key v = (v.date, c.time v.time)

  abbrev pub moment : IndividualVehicle → c.NaiveDateTime
  moment v = c.datetime v.date (c.time v.time)

  -- The two maps at the end of the function, for at least one count.
  pub speed_and_class_maps :
      ℕ → TimeInterval → FieldMetadata → List IndividualVehicle → Outcome CountError Maps
  speed_and_class_maps fuel interval m counts = do
    maps ← fold_loop (gather interval m) counts ([], [])
    let sorted = sort_by (λ v w. pair_le (sort_key v) (sort_key w)) counts
    earliest ← unwrap (first sorted)
    latest ← unwrap (last sorted)
    all_datetimes ← create_time_bins fuel (moment earliest) (moment latest) interval
    fold_loop (fill_key m) (all_keys (all_lanes m.directions) all_datetimes) maps

  unfoldable pub create_speed_and_class_count :
      ℕ
      → TimeInterval
      → FieldMetadata
      → List IndividualVehicle
      → Outcome CountError (List TimeBinnedSpeedRangeCount × List TimeBinnedVehicleClassCount)
  create_speed_and_class_count fuel interval m [] = ok ([], [])
  create_speed_and_class_count fuel interval m (count ∷ counts) = do
    maps ← speed_and_class_maps fuel interval m (count ∷ counts)
    ok (map speed_row maps.0, map class_row maps.1)
