-- ===== src/External/FileSystem.antt =====
-- The files that the program reads and removes, and the texts that `format!` makes of values of
-- other crates and of types with a derived `Debug` or `Display`.
use starnext_import.External.Chrono.{Chrono}
use starnext_import.External.Float.{Float}
use starnext_import.Denormalize.Speed.{NonNormalAvgSpeedCount}
use starnext_import.Denormalize.Volume.{NonNormalVolCount}
use starnext_import.Extract.Input.{InputCount}
use starnext_import.Extract.Rows.{Opened}
use starnext_import.Prelude.FilePath.{FilePath}
use starnext_import.Prelude.Text.{Text}
use starnext_import.Prelude.{Option, Outcome}
use starnext_import.Records.{
  FifteenMinuteBicycle, FifteenMinutePedestrian, FifteenMinuteVehicle, TimeBinnedSpeedRangeCount,
  TimeBinnedVehicleClassCount,
}
use starnext_import.Types.Errors.{CountError}

pub record FileSystem : Type 1 where
  pub Disk : Type 0
  -- `File::open` and what is read from the file
  pub open_file : FilePath → Disk → Outcome Text Opened
  -- `fs::remove_file`: `none` is `Ok(())`, else the text of the error
  pub remove_file : FilePath → Disk → Option Text × Disk

pub record Formats ⦃c : Chrono⦄ ⦃f : Float⦄ : Type 0 where
  -- `{}` of a `CountError`, of a date and of a time, of an `f32`, and `{:.1}` of an `f32`
  pub display_error : CountError → Text
  pub display_date : c.NaiveDate → Text
  pub display_time : c.NaiveTime → Text
  pub display_f32 : f.F32 → Text
  pub display_f32_1 : f.F32 → Text
  -- `{:?}`
  pub debug_path : FilePath → Text
  pub debug_input : InputCount → Text
  pub debug_class : TimeBinnedVehicleClassCount → Text
  pub debug_speed : TimeBinnedSpeedRangeCount → Text
  pub debug_average : NonNormalAvgSpeedCount → Text
  pub debug_volume : NonNormalVolCount → Text
  pub debug_vehicle : FifteenMinuteVehicle → Text
  pub debug_bicycle : FifteenMinuteBicycle → Text
  pub debug_pedestrian : FifteenMinutePedestrian → Text
