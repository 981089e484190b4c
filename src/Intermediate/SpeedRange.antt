-- ===== src/Intermediate/SpeedRange.antt =====
-- `SpeedRangeCount` of src/intermediate.rs: one counter for each range of speeds.
pub mod Ranges
pub mod Effect
pub mod Gaps
use starnext_import.External.Float.{Float}
use starnext_import.Prelude.{
  ℕ, ◌+◌, ◌-◌, ◌*◌, ◌/◌, ◌%◌, ◌≤◌, ◌<◌, ◌≡◌, refl, Bool, true, false, ◌&&◌, add_u32, u32_mod, leb,
  ltb, ◌==◌, if◌then◌else◌, arith,
}
use starnext_import.Types.Direction.{LaneDirection}

pub record SpeedRangeCount : Type 0 where
  pub recordnum : ℕ
  pub direction : LaneDirection
  pub s1 : ℕ
  pub s2 : ℕ
  pub s3 : ℕ
  pub s4 : ℕ
  pub s5 : ℕ
  pub s6 : ℕ
  pub s7 : ℕ
  pub s8 : ℕ
  pub s9 : ℕ
  pub s10 : ℕ
  pub s11 : ℕ
  pub s12 : ℕ
  pub s13 : ℕ
  pub s14 : ℕ
  pub total : ℕ

-- `SpeedRangeCount::new`.
unfoldable pub new : ℕ → LaneDirection → SpeedRangeCount
new recordnum direction = record {
  recordnum = recordnum;
  direction = direction;
  s1 = 0;
  s2 = 0;
  s3 = 0;
  s4 = 0;
  s5 = 0;
  s6 = 0;
  s7 = 0;
  s8 = 0;
  s9 = 0;
  s10 = 0;
  s11 = 0;
  s12 = 0;
  s13 = 0;
  s14 = 0;
  total = 0;
}

module _ ⦃f : Float⦄ where
  -- `(lo..=hi).contains(&speed)`, with bounds in tenths.
  abbrev pub within : ℕ → ℕ → f.F32 → Bool
  within lo hi speed = f.le (f.tenths lo) speed && f.le speed (f.tenths hi)

  -- The ladder of tests in `insert`.
  unfoldable pub add_speed : SpeedRangeCount → f.F32 → SpeedRangeCount
  add_speed s speed =
      if f.is_sign_negative speed
      then record s { s1 = add_u32 s.s1 1 }
      else if within 0 150 speed
      then record s { s1 = add_u32 s.s1 1 }
      else if within 151 200 speed
      then record s { s2 = add_u32 s.s2 1 }
      else if within 201 250 speed
      then record s { s3 = add_u32 s.s3 1 }
      else if within 251 300 speed
      then record s { s4 = add_u32 s.s4 1 }
      else if within 301 350 speed
      then record s { s5 = add_u32 s.s5 1 }
      else if within 351 400 speed
      then record s { s6 = add_u32 s.s6 1 }
      else if within 401 450 speed
      then record s { s7 = add_u32 s.s7 1 }
      else if within 451 500 speed
      then record s { s8 = add_u32 s.s8 1 }
      else if within 501 550 speed
      then record s { s9 = add_u32 s.s9 1 }
      else if within 551 600 speed
      then record s { s10 = add_u32 s.s10 1 }
      else if within 601 650 speed
      then record s { s11 = add_u32 s.s11 1 }
      else if within 651 700 speed
      then record s { s12 = add_u32 s.s12 1 }
      else if within 701 750 speed
      then record s { s13 = add_u32 s.s13 1 }
      else if f.le (f.tenths 751) speed
      then record s { s14 = add_u32 s.s14 1 }
      else s

  unfoldable pub insert : SpeedRangeCount → f.F32 → SpeedRangeCount
  unfolding add_speed
  insert s speed = let s' = add_speed s speed in record s' { total = add_u32 s'.total 1 }

  -- `SpeedRangeCount::first`.
  unfoldable pub first : ℕ → LaneDirection → f.F32 → SpeedRangeCount
  unfolding new insert
  first recordnum direction speed = insert (new recordnum direction) speed
