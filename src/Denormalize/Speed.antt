-- ===== src/Denormalize/Speed.antt =====
-- `create_non_normal_speedavg_count` of src/denormalize.rs, with `NonNormalRawSpeedValue` and
-- `NonNormalAvgSpeedValue` of src/intermediate.rs as records of 24 fields.
pub mod Raw
use starnext_import.Denormalize.Keys.{NonNormalCountKey, key_eq}
use starnext_import.External.Chrono.{Chrono}
use starnext_import.External.Float.{Float}
use starnext_import.FieldMetadata.{FieldMetadata}
use starnext_import.Intermediate.HourFields.{HourFields, all_hours, change_hour}
use starnext_import.Prelude.HashMap.{HashMap, upsert}
use starnext_import.Prelude.Text.{Text, codes, match_text}
use starnext_import.Prelude.{
  ℕ, List, [], ◌∷◌, ◌++◌, map, length, Option, none, some, Outcome, ok, ◌>>=◌, fold_loop,
}
use starnext_import.Records.{IndividualVehicle}
use starnext_import.SpeedClass.{lane_direction}
use starnext_import.Types.Direction.{LaneDirection}
use starnext_import.Types.Errors.{CountError}

-- The fields `am12` … `pm11` are `hours`.
pub record NonNormalAvgSpeedCount ⦃c : Chrono⦄ ⦃f : Float⦄ : Type 0 where
  pub recordnum : ℕ
  pub date : c.NaiveDate
  pub direction : Option LaneDirection
  pub lane : Option ℕ
  pub hours : HourFields (Option f.F32)

module _ ⦃f : Float⦄ where
  abbrev pub NonNormalRawSpeedValue : Type 0
  NonNormalRawSpeedValue = HourFields (List f.F32)

  abbrev pub NonNormalAvgSpeedValue : Type 0
  NonNormalAvgSpeedValue = HourFields (Option f.F32)

  -- `NonNormalRawSpeedValue::first`.
  unfoldable pub raw_first : ℕ → f.F32 → NonNormalRawSpeedValue
  unfolding change_hour all_hours
  raw_first hour speed = change_hour hour (λ _. speed ∷ []) (all_hours [])

  -- The closure of `and_modify` in the loop over the counts.
  unfoldable pub raw_insert : NonNormalRawSpeedValue → ℕ → f.F32 → NonNormalRawSpeedValue
  unfolding change_hour
  raw_insert v hour speed = change_hour hour (λ speeds. speeds ++ speed ∷ []) v

  -- The arms of the match in `NonNormalAvgSpeedValue::first`.
  unfoldable pub average_arms : f.F32 → List (Text × NonNormalAvgSpeedValue)
  unfolding all_hours
  average_arms average =
      (codes "am12", record (all_hours none) { am12 = some average })
      ∷ (codes "am1", record (all_hours none) { am1 = some average })
      ∷ (codes "am2", record (all_hours none) { am2 = some average })
      ∷ (codes "am3", record (all_hours none) { am3 = some average })
      ∷ (codes "am4", record (all_hours none) { am4 = some average })
      ∷ (codes "am5", record (all_hours none) { am5 = some average })
      ∷ (codes "am6", record (all_hours none) { am6 = some average })
      ∷ (codes "am7", record (all_hours none) { am7 = some average })
      ∷ (codes "am8", record (all_hours none) { am8 = some average })
      ∷ (codes "am9", record (all_hours none) { am9 = some average })
      ∷ (codes "am10", record (all_hours none) { am10 = some average })
      ∷ (codes "am11", record (all_hours none) { am11 = some average })
      ∷ (codes "pm12", record (all_hours none) { pm12 = some average })
      ∷ (codes "pm1", record (all_hours none) { pm1 = some average })
      ∷ (codes "pm2", record (all_hours none) { pm2 = some average })
      ∷ (codes "pm3", record (all_hours none) { pm3 = some average })
      ∷ (codes "pm4", record (all_hours none) { pm4 = some average })
      ∷ (codes "pm5", record (all_hours none) { pm5 = some average })
      ∷ (codes "pm6", record (all_hours none) { pm6 = some average })
      ∷ (codes "pm7", record (all_hours none) { pm7 = some average })
      ∷ (codes "pm8", record (all_hours none) { pm8 = some average })
      ∷ (codes "pm9", record (all_hours none) { pm9 = some average })
      ∷ (codes "pm10", record (all_hours none) { pm10 = some average })
      ∷ (codes "pm11", record (all_hours none) { pm11 = some average })
      ∷ []

  -- `NonNormalAvgSpeedValue::first`.
  unfoldable pub avg_first : Text → f.F32 → NonNormalAvgSpeedValue
  unfolding average_arms match_text all_hours
  avg_first hour_as_str average = match_text hour_as_str (average_arms average) (all_hours none)

  -- An hour: its name, its raw speeds, and the change of its average.
  abbrev pub Block : Type 0
  Block =
      Text
      × (NonNormalRawSpeedValue → List f.F32)
      × (Option f.F32 → NonNormalAvgSpeedValue → NonNormalAvgSpeedValue)

  -- The 24 blocks of the loop over the raw speeds.
  unfoldable pub blocks : List Block
  blocks =
      (codes "am12", (λ v. v.am12), (λ x a. record a { am12 = x }))
      ∷ (codes "am1", (λ v. v.am1), (λ x a. record a { am1 = x }))
      ∷ (codes "am2", (λ v. v.am2), (λ x a. record a { am2 = x }))
      ∷ (codes "am3", (λ v. v.am3), (λ x a. record a { am3 = x }))
      ∷ (codes "am4", (λ v. v.am4), (λ x a. record a { am4 = x }))
      ∷ (codes "am5", (λ v. v.am5), (λ x a. record a { am5 = x }))
      ∷ (codes "am6", (λ v. v.am6), (λ x a. record a { am6 = x }))
      ∷ (codes "am7", (λ v. v.am7), (λ x a. record a { am7 = x }))
      ∷ (codes "am8", (λ v. v.am8), (λ x a. record a { am8 = x }))
      ∷ (codes "am9", (λ v. v.am9), (λ x a. record a { am9 = x }))
      ∷ (codes "am10", (λ v. v.am10), (λ x a. record a { am10 = x }))
      ∷ (codes "am11", (λ v. v.am11), (λ x a. record a { am11 = x }))
      ∷ (codes "pm12", (λ v. v.pm12), (λ x a. record a { pm12 = x }))
      ∷ (codes "pm1", (λ v. v.pm1), (λ x a. record a { pm1 = x }))
      ∷ (codes "pm2", (λ v. v.pm2), (λ x a. record a { pm2 = x }))
      ∷ (codes "pm3", (λ v. v.pm3), (λ x a. record a { pm3 = x }))
      ∷ (codes "pm4", (λ v. v.pm4), (λ x a. record a { pm4 = x }))
      ∷ (codes "pm5", (λ v. v.pm5), (λ x a. record a { pm5 = x }))
      ∷ (codes "pm6", (λ v. v.pm6), (λ x a. record a { pm6 = x }))
      ∷ (codes "pm7", (λ v. v.pm7), (λ x a. record a { pm7 = x }))
      ∷ (codes "pm8", (λ v. v.pm8), (λ x a. record a { pm8 = x }))
      ∷ (codes "pm9", (λ v. v.pm9), (λ x a. record a { pm9 = x }))
      ∷ (codes "pm10", (λ v. v.pm10), (λ x a. record a { pm10 = x }))
      ∷ (codes "pm11", (λ v. v.pm11), (λ x a. record a { pm11 = x }))
      ∷ []

  -- `speeds.iter().sum::<f32>() / speeds.len() as f32`.
  abbrev pub mean : List f.F32 → f.F32
  mean speeds = f.div (f.sum speeds) (f.of_nat (length speeds))

module _ ⦃c : Chrono⦄ ⦃f : Float⦄ where
  abbrev pub speed_key : FieldMetadata → LaneDirection → IndividualVehicle → NonNormalCountKey
  speed_key m direction count = record {
    recordnum = m.recordnum;
    date = count.date;
    direction = some direction;
    lane = some count.lane;
  }

  -- A round of the loop over the counts.
  unfoldable pub gather_speeds :
      FieldMetadata
      → HashMap NonNormalCountKey NonNormalRawSpeedValue
      → IndividualVehicle
      → Outcome CountError (HashMap NonNormalCountKey NonNormalRawSpeedValue)
  unfolding raw_first raw_insert lane_direction
  gather_speeds m speeds count = do
    direction ← lane_direction m.directions count.lane
    elim direction [
      | none ↦ ok speeds
      | some direction ↦ ok (
          upsert (speed_key m direction count)
            (λ v. raw_insert v (c.hour (c.time count.time)) count.speed)
            (raw_first (c.hour (c.time count.time)) count.speed) speeds)
    ]

  -- A block: `if !speeds.is_empty() { … }`.
  unfoldable pub average_hour :
      NonNormalCountKey
      → NonNormalRawSpeedValue
      → HashMap NonNormalCountKey NonNormalAvgSpeedValue
      → Block
      → HashMap NonNormalCountKey NonNormalAvgSpeedValue
  unfolding avg_first
  average_hour key value averages (name, speeds, set) = elim (speeds value) [
    | [] ↦ averages
    | speed ∷ more ↦
        upsert key (set (some (mean (speed ∷ more)))) (avg_first name (mean (speed ∷ more)))
          averages
  ]

  unfoldable pub average_hours :
      NonNormalCountKey
      → NonNormalRawSpeedValue
      → List Block
      → HashMap NonNormalCountKey NonNormalAvgSpeedValue
      → HashMap NonNormalCountKey NonNormalAvgSpeedValue
  unfolding average_hour
  average_hours key value [] averages = averages
  average_hours key value (block ∷ rest) averages =
      average_hours key value rest (average_hour key value averages block)

  -- The loop over the raw speeds.
  unfoldable pub average_speeds :
      HashMap NonNormalCountKey NonNormalRawSpeedValue
      → HashMap NonNormalCountKey NonNormalAvgSpeedValue
      → HashMap NonNormalCountKey NonNormalAvgSpeedValue
  unfolding average_hours blocks
  average_speeds [] averages = averages
  average_speeds ((key, value) ∷ rest) averages =
      average_speeds rest (average_hours key value blocks averages)

  -- A row of the TC_SPESUM table.
  unfoldable pub average_row : NonNormalCountKey × NonNormalAvgSpeedValue → NonNormalAvgSpeedCount
  average_row (key, value) = record {
    recordnum = key.recordnum;
    date = key.date;
    direction = key.direction;
    lane = key.lane;
    hours = value;
  }

  unfoldable pub create_non_normal_speedavg_count :
      FieldMetadata → List IndividualVehicle → Outcome CountError (List NonNormalAvgSpeedCount)
  unfolding gather_speeds average_speeds average_row
  create_non_normal_speedavg_count m counts = do
    speeds ← fold_loop (gather_speeds m) counts []
    ok (map average_row (average_speeds speeds []))
