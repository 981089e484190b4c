-- ===== src/Database/Hours.antt =====
-- What is inserted into the tables with a column for each hour is read back from them.
use starnext_import.Database.RoundTrip.{FitsOption, u8-back, u32-back, f32-back, direction-back}
use starnext_import.Database.Rows.{bind, column, inserted, read_hours, read_average, read_volume}
use starnext_import.Database.Tables.{average_table, volume_table}
use starnext_import.Database.Value.{as_option, of_option, as_option-none}
use starnext_import.Denormalize.Speed.{NonNormalAvgSpeedCount}
use starnext_import.Denormalize.Volume.{NonNormalVolCount}
use starnext_import.External.Chrono.{Chrono}
use starnext_import.External.Float.{Float}
use starnext_import.External.Oracle.{Oracle, OracleLaws}
use starnext_import.Intermediate.HourFields.{hour_list}
use starnext_import.Prelude.Text.{Text, codes, text_eq}
use starnext_import.Prelude.{◌<◌, ◌≡◌, refl, List, ◌∷◌, none, ok, u8_mod, u32_mod, All}

module _ ⦃c : Chrono⦄ ⦃f : Float⦄ where
  -- The numbers of a record are of their types.
  pub record FitsAverage (v : NonNormalAvgSpeedCount) : Type 0 where
    pub recordnum-lt : v.recordnum < u32_mod
    pub lane-Fits : FitsOption u8_mod v.lane

  -- As above; and `setflag` is not set, since no statement inserts it.
  pub record FitsVolume (v : NonNormalVolCount) : Type 0 where
    pub recordnum-lt : v.recordnum < u32_mod
    pub lane-Fits : FitsOption u8_mod v.lane
    pub totalcount-Fits : FitsOption u32_mod v.totalcount
    pub setflag-none : v.setflag ≡ none
    pub hours-Fit : All (FitsOption u32_mod) (hour_list v.hours)

module _ ⦃c : Chrono⦄ ⦃f : Float⦄ {o : Oracle c f} (laws : OracleLaws o) where
  -- A row of TC_SPESUM that is inserted is read back, whatever other columns the table has.
  pub read_average-inserted :
      (others : List Text) (v : NonNormalAvgSpeedCount)
      → FitsAverage v
      → read_average o (inserted o (average_table o) others v) ≡ ok v
  unfolding read_average read_hours bind column text_eq
  read_average-inserted others v h =
      rw
        (
          laws.as_u32-of_u32 v.recordnum h.recordnum-lt,
          laws.as_date-of_date v.date,
          direction-back laws v.direction,
          u8-back laws v.lane h.lane-Fits,
          f32-back laws v.hours.am12,
          f32-back laws v.hours.am1,
          f32-back laws v.hours.am2,
          f32-back laws v.hours.am3,
          f32-back laws v.hours.am4,
          f32-back laws v.hours.am5,
          f32-back laws v.hours.am6,
          f32-back laws v.hours.am7,
          f32-back laws v.hours.am8,
          f32-back laws v.hours.am9,
          f32-back laws v.hours.am10,
          f32-back laws v.hours.am11,
          f32-back laws v.hours.pm12,
          f32-back laws v.hours.pm1,
          f32-back laws v.hours.pm2,
          f32-back laws v.hours.pm3,
          f32-back laws v.hours.pm4,
          f32-back laws v.hours.pm5,
          f32-back laws v.hours.pm6,
          f32-back laws v.hours.pm7,
          f32-back laws v.hours.pm8,
          f32-back laws v.hours.pm9,
          f32-back laws v.hours.pm10,
          f32-back laws v.hours.pm11,
        )
        refl

  setflag-back :
      (v : NonNormalVolCount) → v.setflag ≡ none → as_option o o.as_i8 o.null ≡ ok v.setflag
  setflag-back v unset =
      rw unset (unfold of_option in as_option-none laws o.of_i8 o.as_i8 laws.as_i8-null)

  -- A row of TC_VOLCOUNT whose numbers fit their types and whose SETFLAG is not set is read back after
  -- it was inserted, if the table has the column SETFLAG, which the insertion does not name.
  pub read_volume-inserted :
      (others : List Text) (v : NonNormalVolCount)
      → FitsVolume v
      → read_volume o (inserted o (volume_table o) (codes "setflag" ∷ others) v) ≡ ok v
  unfolding read_volume read_hours bind column text_eq
  read_volume-inserted others v h =
      rw
        (
          laws.as_u32-of_u32 v.recordnum h.recordnum-lt,
          laws.as_date-of_date v.date,
          direction-back laws v.direction,
          u8-back laws v.lane h.lane-Fits,
          setflag-back v h.setflag-none,
          u32-back laws v.totalcount h.totalcount-Fits,
          u32-back laws v.hours.am12 h.hours-Fit.0,
          u32-back laws v.hours.am1 h.hours-Fit.1.0,
          u32-back laws v.hours.am2 h.hours-Fit.1.1.0,
          u32-back laws v.hours.am3 h.hours-Fit.1.1.1.0,
          u32-back laws v.hours.am4 h.hours-Fit.1.1.1.1.0,
          u32-back laws v.hours.am5 h.hours-Fit.1.1.1.1.1.0,
          u32-back laws v.hours.am6 h.hours-Fit.1.1.1.1.1.1.0,
          u32-back laws v.hours.am7 h.hours-Fit.1.1.1.1.1.1.1.0,
          u32-back laws v.hours.am8 h.hours-Fit.1.1.1.1.1.1.1.1.0,
          u32-back laws v.hours.am9 h.hours-Fit.1.1.1.1.1.1.1.1.1.0,
          u32-back laws v.hours.am10 h.hours-Fit.1.1.1.1.1.1.1.1.1.1.0,
          u32-back laws v.hours.am11 h.hours-Fit.1.1.1.1.1.1.1.1.1.1.1.0,
          u32-back laws v.hours.pm12 h.hours-Fit.1.1.1.1.1.1.1.1.1.1.1.1.0,
          u32-back laws v.hours.pm1 h.hours-Fit.1.1.1.1.1.1.1.1.1.1.1.1.1.0,
          u32-back laws v.hours.pm2 h.hours-Fit.1.1.1.1.1.1.1.1.1.1.1.1.1.1.0,
          u32-back laws v.hours.pm3 h.hours-Fit.1.1.1.1.1.1.1.1.1.1.1.1.1.1.1.0,
          u32-back laws v.hours.pm4 h.hours-Fit.1.1.1.1.1.1.1.1.1.1.1.1.1.1.1.1.0,
          u32-back laws v.hours.pm5 h.hours-Fit.1.1.1.1.1.1.1.1.1.1.1.1.1.1.1.1.1.0,
          u32-back laws v.hours.pm6 h.hours-Fit.1.1.1.1.1.1.1.1.1.1.1.1.1.1.1.1.1.1.0,
          u32-back laws v.hours.pm7 h.hours-Fit.1.1.1.1.1.1.1.1.1.1.1.1.1.1.1.1.1.1.1.0,
          u32-back laws v.hours.pm8 h.hours-Fit.1.1.1.1.1.1.1.1.1.1.1.1.1.1.1.1.1.1.1.1.0,
          u32-back laws v.hours.pm9 h.hours-Fit.1.1.1.1.1.1.1.1.1.1.1.1.1.1.1.1.1.1.1.1.1.0,
          u32-back laws v.hours.pm10 h.hours-Fit.1.1.1.1.1.1.1.1.1.1.1.1.1.1.1.1.1.1.1.1.1.1.0,
          u32-back laws v.hours.pm11 h.hours-Fit.1.1.1.1.1.1.1.1.1.1.1.1.1.1.1.1.1.1.1.1.1.1.1.0,
        )
        refl
