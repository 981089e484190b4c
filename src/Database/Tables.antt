-- ===== src/Database/Tables.antt =====
-- The trait `Crud` of src/db/crud.rs and its implementations: the table of each kind of count, the
-- columns of its insert statement, and the values that are bound to them.
use starnext_import.Database.Value.{of_lane_direction, of_option}
use starnext_import.Denormalize.Speed.{NonNormalAvgSpeedCount}
use starnext_import.Denormalize.Volume.{NonNormalVolCount}
use starnext_import.External.Chrono.{Chrono}
use starnext_import.External.Float.{Float}
use starnext_import.External.Oracle.{Oracle}
use starnext_import.Intermediate.HourFields.{HourFields}
use starnext_import.Prelude.Text.{Text, codes, text_eq}
use starnext_import.Prelude.{ℕ, List, [], ◌∷◌, Bool, ◌||◌, if◌then◌else◌}
use starnext_import.Records.{
  FifteenMinuteBicycle, FifteenMinutePedestrian, FifteenMinuteVehicle, TimeBinnedSpeedRangeCount,
  TimeBinnedVehicleClassCount,
}

-- What an implementation gives: the names, the statement of `prepare_insert` as its columns and the
-- number of its placeholders, and the values of `insert`. A column is written in lower case; "IN" and
-- "OUT" stand in quotes in the source because they are reserved words.
pub record Crud (SqlValue A : Type 0) : Type 0 where
  pub count_table : Text
  pub count_recordnum_field : Text
  pub columns : List Text
  pub placeholders : ℕ
  pub values : A → List SqlValue

-- The columns `am12` … `pm11`.
abbrev pub hour_columns : List Text
hour_columns =
    codes "am12"
    ∷ codes "am1"
    ∷ codes "am2"
    ∷ codes "am3"
    ∷ codes "am4"
    ∷ codes "am5"
    ∷ codes "am6"
    ∷ codes "am7"
    ∷ codes "am8"
    ∷ codes "am9"
    ∷ codes "am10"
    ∷ codes "am11"
    ∷ codes "pm12"
    ∷ codes "pm1"
    ∷ codes "pm2"
    ∷ codes "pm3"
    ∷ codes "pm4"
    ∷ codes "pm5"
    ∷ codes "pm6"
    ∷ codes "pm7"
    ∷ codes "pm8"
    ∷ codes "pm9"
    ∷ codes "pm10"
    ∷ codes "pm11"
    ∷ []

module _ ⦃c : Chrono⦄ ⦃f : Float⦄ (o : Oracle c f) where
  -- The values of the columns `am12` … `pm11`.
  abbrev pub hour_values : {A : Type 0} → (A → o.SqlValue) → HourFields A → List o.SqlValue
  hour_values write h =
      write h.am12
      ∷ write h.am1
      ∷ write h.am2
      ∷ write h.am3
      ∷ write h.am4
      ∷ write h.am5
      ∷ write h.am6
      ∷ write h.am7
      ∷ write h.am8
      ∷ write h.am9
      ∷ write h.am10
      ∷ write h.am11
      ∷ write h.pm12
      ∷ write h.pm1
      ∷ write h.pm2
      ∷ write h.pm3
      ∷ write h.pm4
      ∷ write h.pm5
      ∷ write h.pm6
      ∷ write h.pm7
      ∷ write h.pm8
      ∷ write h.pm9
      ∷ write h.pm10
      ∷ write h.pm11
      ∷ []

  -- `impl Crud for TimeBinnedVehicleClassCount`.
  abbrev pub class_values : TimeBinnedVehicleClassCount → List o.SqlValue
  class_values v =
      o.of_u32 v.recordnum
      ∷ o.of_date v.date
      ∷ o.of_datetime v.time
      ∷ of_option o o.of_u8 v.lane
      ∷ o.of_u32 v.total
      ∷ of_option o (of_lane_direction o) v.direction
      ∷ o.of_u32 v.c1
      ∷ o.of_u32 v.c2
      ∷ o.of_u32 v.c3
      ∷ o.of_u32 v.c4
      ∷ o.of_u32 v.c5
      ∷ o.of_u32 v.c6
      ∷ o.of_u32 v.c7
      ∷ o.of_u32 v.c8
      ∷ o.of_u32 v.c9
      ∷ o.of_u32 v.c10
      ∷ o.of_u32 v.c11
      ∷ o.of_u32 v.c12
      ∷ o.of_u32 v.c13
      ∷ of_option o o.of_u32 v.c15
      ∷ []

  abbrev pub class_table : Crud o.SqlValue TimeBinnedVehicleClassCount
  class_table = record {
    count_table = codes "tc_clacount";
    count_recordnum_field = codes "recordnum";
    columns =
        codes "recordnum"
        ∷ codes "countdate"
        ∷ codes "counttime"
        ∷ codes "countlane"
        ∷ codes "total"
        ∷ codes "ctdir"
        ∷ codes "bikes"
        ∷ codes "cars_and_tlrs"
        ∷ codes "ax2_long"
        ∷ codes "buses"
        ∷ codes "ax2_6_tire"
        ∷ codes "ax3_single"
        ∷ codes "ax4_single"
        ∷ codes "lt_5_ax_double"
        ∷ codes "ax5_double"
        ∷ codes "gt_5_ax_double"
        ∷ codes "lt_6_ax_multi"
        ∷ codes "ax6_multi"
        ∷ codes "gt_6_ax_multi"
        ∷ codes "unclassified"
        ∷ [];
    placeholders = 20;
    values = class_values;
  }

  -- `impl Crud for TimeBinnedSpeedRangeCount`.
  abbrev pub speed_values : TimeBinnedSpeedRangeCount → List o.SqlValue
  speed_values v =
      o.of_u32 v.recordnum
      ∷ o.of_date v.date
      ∷ o.of_datetime v.time
      ∷ of_option o o.of_u8 v.lane
      ∷ o.of_u32 v.total
      ∷ of_option o (of_lane_direction o) v.direction
      ∷ o.of_u32 v.s1
      ∷ o.of_u32 v.s2
      ∷ o.of_u32 v.s3
      ∷ o.of_u32 v.s4
      ∷ o.of_u32 v.s5
      ∷ o.of_u32 v.s6
      ∷ o.of_u32 v.s7
      ∷ o.of_u32 v.s8
      ∷ o.of_u32 v.s9
      ∷ o.of_u32 v.s10
      ∷ o.of_u32 v.s11
      ∷ o.of_u32 v.s12
      ∷ o.of_u32 v.s13
      ∷ o.of_u32 v.s14
      ∷ []

  abbrev pub speed_table : Crud o.SqlValue TimeBinnedSpeedRangeCount
  speed_table = record {
    count_table = codes "tc_specount";
    count_recordnum_field = codes "recordnum";
    columns =
        codes "recordnum"
        ∷ codes "countdate"
        ∷ codes "counttime"
        ∷ codes "countlane"
        ∷ codes "total"
        ∷ codes "ctdir"
        ∷ codes "s1"
        ∷ codes "s2"
        ∷ codes "s3"
        ∷ codes "s4"
        ∷ codes "s5"
        ∷ codes "s6"
        ∷ codes "s7"
        ∷ codes "s8"
        ∷ codes "s9"
        ∷ codes "s10"
        ∷ codes "s11"
        ∷ codes "s12"
        ∷ codes "s13"
        ∷ codes "s14"
        ∷ [];
    placeholders = 20;
    values = speed_values;
  }

  -- `impl Crud for NonNormalAvgSpeedCount`.
  abbrev pub average_values : NonNormalAvgSpeedCount → List o.SqlValue
  average_values v =
      o.of_u32 v.recordnum
      ∷ o.of_date v.date
      ∷ of_option o (of_lane_direction o) v.direction
      ∷ of_option o o.of_u8 v.lane
      ∷ hour_values (of_option o o.of_f32) v.hours

  abbrev pub average_table : Crud o.SqlValue NonNormalAvgSpeedCount
  average_table = record {
    count_table = codes "tc_spesum";
    count_recordnum_field = codes "recordnum";
    columns =
        codes "recordnum" ∷ codes "countdate" ∷ codes "ctdir" ∷ codes "countlane" ∷ hour_columns;
    placeholders = 28;
    values = average_values;
  }

  -- `impl Crud for NonNormalVolCount`.
  abbrev pub volume_values : NonNormalVolCount → List o.SqlValue
  volume_values v =
      o.of_u32 v.recordnum
      ∷ o.of_date v.date
      ∷ of_option o o.of_u32 v.totalcount
      ∷ of_option o (of_lane_direction o) v.direction
      ∷ of_option o o.of_u8 v.lane
      ∷ hour_values (of_option o o.of_u32) v.hours

  abbrev pub volume_table : Crud o.SqlValue NonNormalVolCount
  volume_table = record {
    count_table = codes "tc_volcount";
    count_recordnum_field = codes "recordnum";
    columns =
        codes "recordnum"
        ∷ codes "countdate"
        ∷ codes "totalcount"
        ∷ codes "cntdir"
        ∷ codes "countlane"
        ∷ hour_columns;
    placeholders = 29;
    values = volume_values;
  }

  -- `impl Crud for FifteenMinuteVehicle`.
  abbrev pub vehicle_values : FifteenMinuteVehicle → List o.SqlValue
  vehicle_values v =
      o.of_u32 v.recordnum
      ∷ o.of_date v.date
      ∷ o.of_datetime v.time
      ∷ o.of_u16 v.count
      ∷ of_option o (of_lane_direction o) v.direction
      ∷ of_option o o.of_u8 v.lane
      ∷ []

  abbrev pub vehicle_table : Crud o.SqlValue FifteenMinuteVehicle
  vehicle_table = record {
    count_table = codes "tc_15minvolcount";
    count_recordnum_field = codes "recordnum";
    columns =
        codes "recordnum"
        ∷ codes "countdate"
        ∷ codes "counttime"
        ∷ codes "volcount"
        ∷ codes "cntdir"
        ∷ codes "countlane"
        ∷ [];
    placeholders = 6;
    values = vehicle_values;
  }

  -- `impl Crud for FifteenMinuteBicycle`.
  abbrev pub bicycle_values : FifteenMinuteBicycle → List o.SqlValue
  bicycle_values v =
      o.of_u32 v.recordnum
      ∷ o.of_date v.date
      ∷ o.of_datetime v.time
      ∷ o.of_u16 v.total
      ∷ of_option o o.of_u16 v.indir
      ∷ of_option o o.of_u16 v.outdir
      ∷ []

  abbrev pub bicycle_table : Crud o.SqlValue FifteenMinuteBicycle
  bicycle_table = record {
    count_table = codes "tc_bikecount";
    count_recordnum_field = codes "dvrpcnum";
    columns =
        codes "dvrpcnum"
        ∷ codes "countdate"
        ∷ codes "counttime"
        ∷ codes "total"
        ∷ codes "incount"
        ∷ codes "outcount"
        ∷ [];
    placeholders = 6;
    values = bicycle_values;
  }

  -- `impl Crud for FifteenMinutePedestrian`.
  abbrev pub pedestrian_values : FifteenMinutePedestrian → List o.SqlValue
  pedestrian_values v =
      o.of_u32 v.recordnum
      ∷ o.of_date v.date
      ∷ o.of_datetime v.time
      ∷ o.of_u16 v.total
      ∷ of_option o o.of_u16 v.indir
      ∷ of_option o o.of_u16 v.outdir
      ∷ []

  abbrev pub pedestrian_table : Crud o.SqlValue FifteenMinutePedestrian
  pedestrian_table = record {
    count_table = codes "tc_pedcount";
    count_recordnum_field = codes "dvrpcnum";
    columns =
        codes "dvrpcnum"
        ∷ codes "countdate"
        ∷ codes "counttime"
        ∷ codes "total"
        ∷ codes "in"
        ∷ codes "out"
        ∷ [];
    placeholders = 6;
    values = pedestrian_values;
  }

-- The tables of counts, and the field with the record number of each.
unfoldable pub is_count_table : Text → Bool
unfolding text_eq
is_count_table table =
    text_eq table (codes "tc_clacount")
    || text_eq table (codes "tc_specount")
    || text_eq table (codes "tc_spesum")
    || text_eq table (codes "tc_volcount")
    || text_eq table (codes "tc_15minvolcount")
    || text_eq table (codes "tc_bikecount")
    || text_eq table (codes "tc_pedcount")

unfoldable pub record_field : Text → Text
unfolding text_eq
record_field table =
    if text_eq table (codes "tc_bikecount") || text_eq table (codes "tc_pedcount")
    then codes "dvrpcnum"
    else codes "recordnum"
