-- ===== src/Database/RoundTrip.antt =====
-- What is inserted into a table is read back from it.
use starnext_import.Database.Rows.{
  bind, column, inserted, read_vehicle, read_bicycle, read_class, read_speed,
}
use starnext_import.Database.Tables.{vehicle_table, bicycle_table, class_table, speed_table}
use starnext_import.Database.Value.{
  as_option, of_option, as_lane_direction, of_lane_direction, as_option-none, as_option-some,
  as_option-of_option, as_lane_direction-of_lane_direction, as_lane_direction-null,
}
use starnext_import.External.Chrono.{Chrono}
use starnext_import.External.Float.{Float}
use starnext_import.External.Oracle.{Oracle, OracleLaws}
use starnext_import.Prelude.Text.{Text, text_eq}
use starnext_import.Prelude.{
  ℕ, ◌<◌, ◌≡◌, refl, List, [], ◌∷◌, Option, none, some, ok, u8_mod, u16_mod, u32_mod, All,
}
use starnext_import.Records.{
  FifteenMinuteBicycle, FifteenMinuteVehicle, TimeBinnedSpeedRangeCount,
  TimeBinnedVehicleClassCount,
}
use starnext_import.Types.Direction.{LaneDirection}

-- A value, if there is one, is below the bound.
abbrev pub FitsOption : ℕ → Option ℕ → Type 0
FitsOption bound none = Unit
FitsOption bound (some n) = n < bound

module _ ⦃c : Chrono⦄ ⦃f : Float⦄ {o : Oracle c f} (laws : OracleLaws o) where
  pub u8-back :
      (v : Option ℕ) → FitsOption u8_mod v → as_option o o.as_u8 (of_option o o.of_u8 v) ≡ ok v
  u8-back none h = as_option-none laws o.of_u8 o.as_u8 laws.as_u8-null
  u8-back (some n) h = as_option-some laws o.of_u8 o.as_u8 n (laws.as_u8-of_u8 n h)

  pub u16-back :
      (v : Option ℕ) → FitsOption u16_mod v → as_option o o.as_u16 (of_option o o.of_u16 v) ≡ ok v
  u16-back none h = as_option-none laws o.of_u16 o.as_u16 laws.as_u16-null
  u16-back (some n) h = as_option-some laws o.of_u16 o.as_u16 n (laws.as_u16-of_u16 n h)

  pub u32-back :
      (v : Option ℕ) → FitsOption u32_mod v → as_option o o.as_u32 (of_option o o.of_u32 v) ≡ ok v
  u32-back none h = as_option-none laws o.of_u32 o.as_u32 laws.as_u32-null
  u32-back (some n) h = as_option-some laws o.of_u32 o.as_u32 n (laws.as_u32-of_u32 n h)

  pub f32-back : (v : Option f.F32) → as_option o o.as_f32 (of_option o o.of_f32 v) ≡ ok v
  f32-back v = as_option-of_option laws o.of_f32 o.as_f32 v laws.as_f32-null laws.as_f32-of_f32

  pub direction-back :
      (v : Option LaneDirection)
      → as_option o (as_lane_direction o) (of_option o (of_lane_direction o) v) ≡ ok v
  direction-back v =
      as_option-of_option laws (of_lane_direction o) (as_lane_direction o) v
        (as_lane_direction-null laws) (as_lane_direction-of_lane_direction laws)

module _ ⦃c : Chrono⦄ ⦃f : Float⦄ where
  -- The numbers of a record are of their types.
  pub record FitsVehicle (v : FifteenMinuteVehicle) : Type 0 where
    pub recordnum-lt : v.recordnum < u32_mod
    pub count-lt : v.count < u16_mod
    pub lane-Fits : FitsOption u8_mod v.lane

  pub record FitsBicycle (v : FifteenMinuteBicycle) : Type 0 where
    pub recordnum-lt : v.recordnum < u32_mod
    pub total-lt : v.total < u16_mod
    pub indir-Fits : FitsOption u16_mod v.indir
    pub outdir-Fits : FitsOption u16_mod v.outdir

  pub record FitsClass (v : TimeBinnedVehicleClassCount) : Type 0 where
    pub recordnum-lt : v.recordnum < u32_mod
    pub lane-Fits : FitsOption u8_mod v.lane
    pub total-lt : v.total < u32_mod
    pub c15-Fits : FitsOption u32_mod v.c15
    pub words :
        All
          (λ n. n < u32_mod)
          (v.c1 ∷ v.c2 ∷ v.c3 ∷ v.c4 ∷ v.c5 ∷ v.c6 ∷ v.c7 ∷ v.c8 ∷ v.c9 ∷ v.c10 ∷ v.c11 ∷ v.c12
            ∷ v.c13 ∷ [])

  pub record FitsSpeed (v : TimeBinnedSpeedRangeCount) : Type 0 where
    pub recordnum-lt : v.recordnum < u32_mod
    pub lane-Fits : FitsOption u8_mod v.lane
    pub total-lt : v.total < u32_mod
    pub words :
        All
          (λ n. n < u32_mod)
          (v.s1 ∷ v.s2 ∷ v.s3 ∷ v.s4 ∷ v.s5 ∷ v.s6 ∷ v.s7 ∷ v.s8 ∷ v.s9 ∷ v.s10 ∷ v.s11 ∷ v.s12
            ∷ v.s13 ∷ v.s14 ∷ [])

module _ ⦃c : Chrono⦄ ⦃f : Float⦄ {o : Oracle c f} (laws : OracleLaws o) where
  -- A row of TC_15MINVOLCOUNT that is inserted is read back, whatever other columns the table has.
  pub read_vehicle-inserted :
      (others : List Text) (v : FifteenMinuteVehicle)
      → FitsVehicle v
      → read_vehicle o (inserted o (vehicle_table o) others v) ≡ ok v
  unfolding read_vehicle bind column text_eq
  read_vehicle-inserted others v h =
      rw
        (
          laws.as_u32-of_u32 v.recordnum h.recordnum-lt,
          laws.as_date-of_date v.date,
          laws.as_datetime-of_datetime v.time,
          laws.as_u16-of_u16 v.count h.count-lt,
          direction-back laws v.direction,
          u8-back laws v.lane h.lane-Fits,
        )
        refl

  -- A row of TC_BIKECOUNT that is inserted is read back, whatever other columns the table has.
  pub read_bicycle-inserted :
      (others : List Text) (v : FifteenMinuteBicycle)
      → FitsBicycle v
      → read_bicycle o (inserted o (bicycle_table o) others v) ≡ ok v
  unfolding read_bicycle bind column text_eq
  read_bicycle-inserted others v h =
      rw
        (
          laws.as_u32-of_u32 v.recordnum h.recordnum-lt,
          laws.as_date-of_date v.date,
          laws.as_datetime-of_datetime v.time,
          laws.as_u16-of_u16 v.total h.total-lt,
          u16-back laws v.indir h.indir-Fits,
          u16-back laws v.outdir h.outdir-Fits,
        )
        refl

  -- A row of TC_CLACOUNT whose numbers fit their types is read back after it was inserted, whatever
  -- other columns the table has.
  pub read_class-inserted :
      (others : List Text) (v : TimeBinnedVehicleClassCount)
      → FitsClass v
      → read_class o (inserted o (class_table o) others v) ≡ ok v
  unfolding read_class bind column text_eq
  read_class-inserted others v h =
      rw
        (
          laws.as_date-of_date v.date,
          laws.as_datetime-of_datetime v.time,
          u8-back laws v.lane h.lane-Fits,
          laws.as_u32-of_u32 v.recordnum h.recordnum-lt,
          direction-back laws v.direction,
          laws.as_u32-of_u32 v.c1 h.words.0,
          laws.as_u32-of_u32 v.c2 h.words.1.0,
          laws.as_u32-of_u32 v.c3 h.words.1.1.0,
          laws.as_u32-of_u32 v.c4 h.words.1.1.1.0,
          laws.as_u32-of_u32 v.c5 h.words.1.1.1.1.0,
          laws.as_u32-of_u32 v.c6 h.words.1.1.1.1.1.0,
          laws.as_u32-of_u32 v.c7 h.words.1.1.1.1.1.1.0,
          laws.as_u32-of_u32 v.c8 h.words.1.1.1.1.1.1.1.0,
          laws.as_u32-of_u32 v.c9 h.words.1.1.1.1.1.1.1.1.0,
          laws.as_u32-of_u32 v.c10 h.words.1.1.1.1.1.1.1.1.1.0,
          laws.as_u32-of_u32 v.c11 h.words.1.1.1.1.1.1.1.1.1.1.0,
          laws.as_u32-of_u32 v.c12 h.words.1.1.1.1.1.1.1.1.1.1.1.0,
          laws.as_u32-of_u32 v.c13 h.words.1.1.1.1.1.1.1.1.1.1.1.1.0,
          u32-back laws v.c15 h.c15-Fits,
          laws.as_u32-of_u32 v.total h.total-lt,
        )
        refl

  -- A row of TC_SPECOUNT that is inserted is read back, whatever other columns the table has.
  pub read_speed-inserted :
      (others : List Text) (v : TimeBinnedSpeedRangeCount)
      → FitsSpeed v
      → read_speed o (inserted o (speed_table o) others v) ≡ ok v
  unfolding read_speed bind column text_eq
  read_speed-inserted others v h =
      rw
        (
          laws.as_date-of_date v.date,
          laws.as_datetime-of_datetime v.time,
          u8-back laws v.lane h.lane-Fits,
          laws.as_u32-of_u32 v.recordnum h.recordnum-lt,
          direction-back laws v.direction,
          laws.as_u32-of_u32 v.s1 h.words.0,
          laws.as_u32-of_u32 v.s2 h.words.1.0,
          laws.as_u32-of_u32 v.s3 h.words.1.1.0,
          laws.as_u32-of_u32 v.s4 h.words.1.1.1.0,
          laws.as_u32-of_u32 v.s5 h.words.1.1.1.1.0,
          laws.as_u32-of_u32 v.s6 h.words.1.1.1.1.1.0,
          laws.as_u32-of_u32 v.s7 h.words.1.1.1.1.1.1.0,
          laws.as_u32-of_u32 v.s8 h.words.1.1.1.1.1.1.1.0,
          laws.as_u32-of_u32 v.s9 h.words.1.1.1.1.1.1.1.1.0,
          laws.as_u32-of_u32 v.s10 h.words.1.1.1.1.1.1.1.1.1.0,
          laws.as_u32-of_u32 v.s11 h.words.1.1.1.1.1.1.1.1.1.1.0,
          laws.as_u32-of_u32 v.s12 h.words.1.1.1.1.1.1.1.1.1.1.1.0,
          laws.as_u32-of_u32 v.s13 h.words.1.1.1.1.1.1.1.1.1.1.1.1.0,
          laws.as_u32-of_u32 v.s14 h.words.1.1.1.1.1.1.1.1.1.1.1.1.1.0,
          laws.as_u32-of_u32 v.total h.total-lt,
        )
        refl
