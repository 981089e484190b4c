-- ===== src/Database/Rows.antt =====
-- `#[derive(RowValue)]` of the structs in src/lib.rs and src/denormalize.rs: how a row of a table is
-- read, by the names of its columns.
use starnext_import.Database.Tables.{Crud}
use starnext_import.Database.Value.{as_lane_direction, as_option}
use starnext_import.Denormalize.Speed.{NonNormalAvgSpeedCount}
use starnext_import.Denormalize.Volume.{NonNormalVolCount}
use starnext_import.External.Chrono.{Chrono}
use starnext_import.External.Float.{Float}
use starnext_import.External.Oracle.{Oracle}
use starnext_import.Intermediate.HourFields.{HourFields}
use starnext_import.Prelude.Text.{Text, codes, text_eq}
use starnext_import.Prelude.{List, [], ◌∷◌, ◌++◌, map, Outcome, ok, err, ◌>>=◌, if◌then◌else◌}
use starnext_import.Records.{
  FifteenMinuteBicycle, FifteenMinutePedestrian, FifteenMinuteVehicle, TimeBinnedSpeedRangeCount,
  TimeBinnedVehicleClassCount,
}

module _ ⦃c : Chrono⦄ ⦃f : Float⦄ (o : Oracle c f) where
  -- The columns of a row with their values.
  abbrev pub Row : Type 0
  Row = List (Text × o.SqlValue)

  -- Each column with the value that is bound to its placeholder.
  unfoldable pub bind : List Text → List o.SqlValue → Row
  bind [] values = []
  bind (name ∷ names) [] = []
  bind (name ∷ names) (value ∷ values) = (name, value) ∷ bind names values

  -- `row.get(name)`: a value of the first column of that name.
  unfoldable pub column :
      {A : Type 0} → Row → Text → (o.SqlValue → Outcome o.OracleError A) → Outcome o.OracleError A
  unfolding text_eq
  column [] name read = err (o.invalid_column_name name)
  column ((n, value) ∷ row) name read = if text_eq n name then read value else column row name read

  -- The row that an insert makes: the columns of the statement, and NULL in the others of the table.
  abbrev pub inserted : {A : Type 0} → Crud o.SqlValue A → List Text → A → Row
  inserted table others v =
      bind table.columns (table.values v) ++ map (λ name. (name, o.null)) others

  unfoldable pub read_class : Row → Outcome o.OracleError TimeBinnedVehicleClassCount
  unfolding column
  read_class row = do
    date ← column row (codes "countdate") o.as_date
    time ← column row (codes "counttime") o.as_datetime
    lane ← column row (codes "countlane") (as_option o o.as_u8)
    recordnum ← column row (codes "recordnum") o.as_u32
    direction ← column row (codes "ctdir") (as_option o (as_lane_direction o))
    c1 ← column row (codes "bikes") o.as_u32
    c2 ← column row (codes "cars_and_tlrs") o.as_u32
    c3 ← column row (codes "ax2_long") o.as_u32
    c4 ← column row (codes "buses") o.as_u32
    c5 ← column row (codes "ax2_6_tire") o.as_u32
    c6 ← column row (codes "ax3_single") o.as_u32
    c7 ← column row (codes "ax4_single") o.as_u32
    c8 ← column row (codes "lt_5_ax_double") o.as_u32
    c9 ← column row (codes "ax5_double") o.as_u32
    c10 ← column row (codes "gt_5_ax_double") o.as_u32
    c11 ← column row (codes "lt_6_ax_multi") o.as_u32
    c12 ← column row (codes "ax6_multi") o.as_u32
    c13 ← column row (codes "gt_6_ax_multi") o.as_u32
    c15 ← column row (codes "unclassified") (as_option o o.as_u32)
    total ← column row (codes "total") o.as_u32
    ok (record {
      date = date;
      time = time;
      lane = lane;
      recordnum = recordnum;
      direction = direction;
      c1 = c1;
      c2 = c2;
      c3 = c3;
      c4 = c4;
      c5 = c5;
      c6 = c6;
      c7 = c7;
      c8 = c8;
      c9 = c9;
      c10 = c10;
      c11 = c11;
      c12 = c12;
      c13 = c13;
      c15 = c15;
      total = total;
    })

  unfoldable pub read_speed : Row → Outcome o.OracleError TimeBinnedSpeedRangeCount
  unfolding column
  read_speed row = do
    date ← column row (codes "countdate") o.as_date
    time ← column row (codes "counttime") o.as_datetime
    lane ← column row (codes "countlane") (as_option o o.as_u8)
    recordnum ← column row (codes "recordnum") o.as_u32
    direction ← column row (codes "ctdir") (as_option o (as_lane_direction o))
    s1 ← column row (codes "s1") o.as_u32
    s2 ← column row (codes "s2") o.as_u32
    s3 ← column row (codes "s3") o.as_u32
    s4 ← column row (codes "s4") o.as_u32
    s5 ← column row (codes "s5") o.as_u32
    s6 ← column row (codes "s6") o.as_u32
    s7 ← column row (codes "s7") o.as_u32
    s8 ← column row (codes "s8") o.as_u32
    s9 ← column row (codes "s9") o.as_u32
    s10 ← column row (codes "s10") o.as_u32
    s11 ← column row (codes "s11") o.as_u32
    s12 ← column row (codes "s12") o.as_u32
    s13 ← column row (codes "s13") o.as_u32
    s14 ← column row (codes "s14") o.as_u32
    total ← column row (codes "total") o.as_u32
    ok (record {
      date = date;
      time = time;
      lane = lane;
      recordnum = recordnum;
      direction = direction;
      s1 = s1;
      s2 = s2;
      s3 = s3;
      s4 = s4;
      s5 = s5;
      s6 = s6;
      s7 = s7;
      s8 = s8;
      s9 = s9;
      s10 = s10;
      s11 = s11;
      s12 = s12;
      s13 = s13;
      s14 = s14;
      total = total;
    })

  unfoldable pub read_hours :
      {A : Type 0}
      → (o.SqlValue → Outcome o.OracleError A)
      → Row
      → Outcome o.OracleError (HourFields A)
  unfolding column
  read_hours read row = do
    am12 ← column row (codes "am12") read
    am1 ← column row (codes "am1") read
    am2 ← column row (codes "am2") read
    am3 ← column row (codes "am3") read
    am4 ← column row (codes "am4") read
    am5 ← column row (codes "am5") read
    am6 ← column row (codes "am6") read
    am7 ← column row (codes "am7") read
    am8 ← column row (codes "am8") read
    am9 ← column row (codes "am9") read
    am10 ← column row (codes "am10") read
    am11 ← column row (codes "am11") read
    pm12 ← column row (codes "pm12") read
    pm1 ← column row (codes "pm1") read
    pm2 ← column row (codes "pm2") read
    pm3 ← column row (codes "pm3") read
    pm4 ← column row (codes "pm4") read
    pm5 ← column row (codes "pm5") read
    pm6 ← column row (codes "pm6") read
    pm7 ← column row (codes "pm7") read
    pm8 ← column row (codes "pm8") read
    pm9 ← column row (codes "pm9") read
    pm10 ← column row (codes "pm10") read
    pm11 ← column row (codes "pm11") read
    ok (record {
      am12 = am12;
      am1 = am1;
      am2 = am2;
      am3 = am3;
      am4 = am4;
      am5 = am5;
      am6 = am6;
      am7 = am7;
      am8 = am8;
      am9 = am9;
      am10 = am10;
      am11 = am11;
      pm12 = pm12;
      pm1 = pm1;
      pm2 = pm2;
      pm3 = pm3;
      pm4 = pm4;
      pm5 = pm5;
      pm6 = pm6;
      pm7 = pm7;
      pm8 = pm8;
      pm9 = pm9;
      pm10 = pm10;
      pm11 = pm11;
    })

  unfoldable pub read_average : Row → Outcome o.OracleError NonNormalAvgSpeedCount
  unfolding column read_hours
  read_average row = do
    recordnum ← column row (codes "recordnum") o.as_u32
    date ← column row (codes "countdate") o.as_date
    direction ← column row (codes "ctdir") (as_option o (as_lane_direction o))
    lane ← column row (codes "countlane") (as_option o o.as_u8)
    hours ← read_hours (as_option o o.as_f32) row
    ok (record {
      recordnum = recordnum;
      date = date;
      direction = direction;
      lane = lane;
      hours = hours;
    })

  unfoldable pub read_volume : Row → Outcome o.OracleError NonNormalVolCount
  unfolding column read_hours
  read_volume row = do
    recordnum ← column row (codes "recordnum") o.as_u32
    date ← column row (codes "countdate") o.as_date
    direction ← column row (codes "cntdir") (as_option o (as_lane_direction o))
    lane ← column row (codes "countlane") (as_option o o.as_u8)
    setflag ← column row (codes "setflag") (as_option o o.as_i8)
    totalcount ← column row (codes "totalcount") (as_option o o.as_u32)
    hours ← read_hours (as_option o o.as_u32) row
    ok (record {
      recordnum = recordnum;
      date = date;
      direction = direction;
      lane = lane;
      setflag = setflag;
      totalcount = totalcount;
      hours = hours;
    })

  unfoldable pub read_vehicle : Row → Outcome o.OracleError FifteenMinuteVehicle
  unfolding column
  read_vehicle row = do
    recordnum ← column row (codes "recordnum") o.as_u32
    date ← column row (codes "countdate") o.as_date
    time ← column row (codes "counttime") o.as_datetime
    count ← column row (codes "volcount") o.as_u16
    direction ← column row (codes "cntdir") (as_option o (as_lane_direction o))
    lane ← column row (codes "countlane") (as_option o o.as_u8)
    ok (record {
      recordnum = recordnum;
      date = date;
      time = time;
      count = count;
      direction = direction;
      lane = lane;
    })

  unfoldable pub read_bicycle : Row → Outcome o.OracleError FifteenMinuteBicycle
  unfolding column
  read_bicycle row = do
    recordnum ← column row (codes "dvrpcnum") o.as_u32
    date ← column row (codes "countdate") o.as_date
    time ← column row (codes "counttime") o.as_datetime
    total ← column row (codes "total") o.as_u16
    indir ← column row (codes "incount") (as_option o o.as_u16)
    outdir ← column row (codes "outcount") (as_option o o.as_u16)
    ok (record {
      recordnum = recordnum;
      date = date;
      time = time;
      total = total;
      indir = indir;
      outdir = outdir;
    })

  unfoldable pub read_pedestrian : Row → Outcome o.OracleError FifteenMinutePedestrian
  unfolding column
  read_pedestrian row = do
    recordnum ← column row (codes "dvrpcnum") o.as_u32
    date ← column row (codes "countdate") o.as_date
    time ← column row (codes "counttime") o.as_datetime
    total ← column row (codes "total") o.as_u16
    indir ← column row (codes "incount") (as_option o o.as_u16)
    outdir ← column row (codes "outcount") (as_option o o.as_u16)
    ok (record {
      recordnum = recordnum;
      date = date;
      time = time;
      total = total;
      indir = indir;
      outdir = outdir;
    })
