-- ===== src/Binning.antt =====
-- Time intervals and bins of src/lib.rs.
pub mod Time
pub mod Bins
mod Tests
use starnext_import.External.Chrono.{Chrono}
use starnext_import.Prelude.{
  ℕ, zero, suc, Bool, true, false, List, [], ◌∷◌, ◌++◌, Outcome, ok, running, unwrap, ◌>>=◌, leb,
  if◌then◌else◌,
}
use starnext_import.Types.Errors.{CountError}

pub data TimeInterval : Type 0 where
  hour fifteen_min : TimeInterval

-- `match time.minute() { 0..=14 => …, 15..=29 => …, 30..=44 => …, _ => … }`.
abbrev pub quarter : ℕ → ℕ
quarter m = if leb m 14 then 0 else if leb m 29 then 15 else if leb m 44 then 30 else 45

module _ ⦃c : Chrono⦄ where
  unfoldable pub bin_time : c.NaiveTime → TimeInterval → Outcome CountError c.NaiveTime
  bin_time time hour = do time ← unwrap (c.with_second time 0); unwrap (c.with_minute time 0)
  bin_time time fifteen_min = do
    time ← unwrap (c.with_second time 0)
    unwrap (c.with_minute time (quarter (c.minute time)))

  abbrev pub time_to_add : TimeInterval → c.TimeDelta
  time_to_add hour = c.hours 1
  time_to_add fifteen_min = c.minutes 15

  -- `while current_bin <= last_bin`; `dts` holds the bins that were pushed.
  unfoldable pub push_bins :
      ℕ
      → c.TimeDelta
      → c.NaiveDateTime
      → c.NaiveDateTime
      → List c.NaiveDateTime
      → Outcome CountError (List c.NaiveDateTime)
  push_bins zero step last current dts = running
  push_bins (suc fuel) step last current dts =
      let rest =
        (unwrap (c.checked_add_signed current step) >>= λ next.
        push_bins fuel step last next (dts ++ current ∷ [])) in
      if c.datetime_le current last then rest else ok dts

  unfoldable pub create_time_bins :
      ℕ
      → c.NaiveDateTime
      → c.NaiveDateTime
      → TimeInterval
      → Outcome CountError (List c.NaiveDateTime)
  unfolding bin_time push_bins
  create_time_bins fuel first_dt last_dt interval = do
    first_time ← bin_time (c.time first_dt) interval
    last_time ← bin_time (c.time last_dt) interval
    let first_bin = c.datetime (c.date first_dt) first_time
    let last_bin = c.datetime (c.date last_dt) last_time
    push_bins fuel (time_to_add interval) last_bin first_bin []
