-- ===== src/Records.antt =====
-- The records of counts of src/lib.rs: what is read from files, and what goes into the tables.
use starnext_import.External.Chrono.{Chrono}
use starnext_import.External.Float.{Float}
use starnext_import.Prelude.{ℕ, Option, Outcome, ok, ◌>>=◌}
use starnext_import.Types.Direction.{LaneDirection}
use starnext_import.Types.Errors.{CountError}
use starnext_import.Types.VehicleClass.{VehicleClass, from_num}

pub record IndividualVehicle ⦃c : Chrono⦄ ⦃f : Float⦄ : Type 0 where
  pub date : c.NaiveDate
  pub time : c.NaiveDateTime
  pub lane : ℕ
  pub class : VehicleClass
  pub speed : f.F32

pub record IndividualBicycle ⦃c : Chrono⦄ : Type 0 where
  pub date : c.NaiveDate
  pub time : c.NaiveDateTime
  pub lane : ℕ

-- Also `FifteenMinutePedestrian`, which has the same fields.
pub record FifteenMinuteBicycle ⦃c : Chrono⦄ : Type 0 where
  pub recordnum : ℕ
  pub date : c.NaiveDate
  pub time : c.NaiveDateTime
  pub total : ℕ
  pub indir : Option ℕ
  pub outdir : Option ℕ

pub record FifteenMinutePedestrian ⦃c : Chrono⦄ : Type 0 where
  pub recordnum : ℕ
  pub date : c.NaiveDate
  pub time : c.NaiveDateTime
  pub total : ℕ
  pub indir : Option ℕ
  pub outdir : Option ℕ

pub record FifteenMinuteVehicle ⦃c : Chrono⦄ : Type 0 where
  pub recordnum : ℕ
  pub date : c.NaiveDate
  pub time : c.NaiveDateTime
  pub count : ℕ
  pub direction : Option LaneDirection
  pub lane : Option ℕ

pub record TimeBinnedVehicleClassCount ⦃c : Chrono⦄ : Type 0 where
  pub date : c.NaiveDate
  pub time : c.NaiveDateTime
  pub lane : Option ℕ
  pub recordnum : ℕ
  pub direction : Option LaneDirection
  pub c1 : ℕ
  pub c2 : ℕ
  pub c3 : ℕ
  pub c4 : ℕ
  pub c5 : ℕ
  pub c6 : ℕ
  pub c7 : ℕ
  pub c8 : ℕ
  pub c9 : ℕ
  pub c10 : ℕ
  pub c11 : ℕ
  pub c12 : ℕ
  pub c13 : ℕ
  pub c15 : Option ℕ
  pub total : ℕ

pub record TimeBinnedSpeedRangeCount ⦃c : Chrono⦄ : Type 0 where
  pub date : c.NaiveDate
  pub time : c.NaiveDateTime
  pub lane : Option ℕ
  pub recordnum : ℕ
  pub direction : Option LaneDirection
  pub s1 : ℕ
  pub s2 : ℕ
  pub s3 : ℕ
  pub s4 : ℕ
  pub s5 : ℕ
  pub s6 : ℕ
  pub s7 : ℕ
  pub s8 : ℕ
  pub s9 : ℕ
  pub s10 : ℕ
  pub s11 : ℕ
  pub s12 : ℕ
  pub s13 : ℕ
  pub s14 : ℕ
  pub total : ℕ

-- `IndividualVehicle::new`.
unfoldable pub new_vehicle :
    ⦃c : Chrono⦄ ⦃f : Float⦄
    → c.NaiveDate
    → c.NaiveDateTime
    → ℕ
    → ℕ
    → f.F32
    → Outcome CountError IndividualVehicle
new_vehicle date time lane class speed = do
  class ← from_num class
  ok (record { date = date; time = time; lane = lane; class = class; speed = speed })

-- `IndividualBicycle::new`.
abbrev pub new_bicycle :
    ⦃c : Chrono⦄ → c.NaiveDate → c.NaiveDateTime → ℕ → Outcome CountError IndividualBicycle
new_bicycle date time lane = ok (record { date = date; time = time; lane = lane })
