-- ===== src/Binning/Time.antt =====
-- What `bin_time` does to the fields of a time.
use starnext_import.Binning.{TimeInterval, hour, fifteen_min, quarter, bin_time}
use starnext_import.External.Chrono.{Chrono, ChronoLaws}
use starnext_import.Prelude.{ℕ, ◌*◌, ◌/◌, ◌<◌, ◌≡◌, ok, arith, ◌∙◌}

-- The length of an interval in minutes.
abbrev pub width : TimeInterval → ℕ
width hour = 60
width fifteen_min = 15

-- `u` is the start of the interval in which `t` lies.
pub record IsBinOf (c : Chrono) (interval : TimeInterval) (t u : c.NaiveTime) : Type 0 where
  pub same_hour : c.hour u ≡ c.hour t
  pub whole_intervals : c.minute u ≡ c.minute t / width interval * width interval
  pub no_seconds : c.second u ≡ 0
  pub same_fraction : c.nanosecond u ≡ c.nanosecond t

quarter_lem : (m : ℕ) → m < 60 → quarter m ≡ m / 15 * 15
quarter_lem m h = ground arith

quarter-lt : (m : ℕ) → quarter m < 60
quarter-lt m = ground arith

module _ ⦃c : Chrono⦄ (laws : ChronoLaws c) where
  -- A time has a bin: the call does not panic, and its result has the hour of the time, no seconds,
  -- and the greatest number of whole intervals that the minutes hold.
  pub bin_time-IsBinOf :
      (t : c.NaiveTime) (interval : TimeInterval)
      → (u : c.NaiveTime) × (bin_time t interval ≡ ok u) × IsBinOf c interval t u
  unfolding bin_time
  bin_time-IsBinOf t hour =
      let (s, es, sh, sm, ss, sn) = laws.with_second-eq_some t 0 (omega arith) in
      let (u, eu, uh, um, us, un) = laws.with_minute-eq_some s 0 (omega arith) in
      (
        u,
        rw (es, eu),
        record {
          same_hour = uh ∙ sh;
          whole_intervals = omega (arith, laws.minute-lt t);
          no_seconds = us ∙ ss;
          same_fraction = un ∙ sn;
        },
      )
  bin_time-IsBinOf t fifteen_min =
      let (s, es, sh, sm, ss, sn) = laws.with_second-eq_some t 0 (omega arith) in
      let (u, eu, uh, um, us, un) =
        laws.with_minute-eq_some s (quarter (c.minute s)) (quarter-lt (c.minute s)) in
      (
        u,
        rw (es, eu),
        record {
          same_hour = uh ∙ sh;
          whole_intervals = um ∙ quarter_lem (c.minute s) (laws.minute-lt s) ∙ rw sm;
          no_seconds = us ∙ ss;
          same_fraction = un ∙ sn;
        },
      )
