-- ===== src/External/Chrono.antt =====
-- The types `NaiveDate`, `NaiveTime`, `NaiveDateTime` and `TimeDelta` of the crate chrono, with the
-- operations that the program calls and what chrono's documentation says of them. A time that has
-- a fraction of a second, or a leap second, is left out of the laws on the time line.
use starnext_import.Prelude.{
  ℕ, ◌+◌, ◌*◌, ◌≤◌, ◌<◌, ◌≡◌, Bool, Option, some, none, Eq, leb, if◌then◌else◌,
}
use starnext_import.Prelude.Text.{Text}

pub record Chrono : Type 1 where
  pub NaiveDate : Type 0
  pub NaiveTime : Type 0
  pub NaiveDateTime : Type 0
  pub TimeDelta : Type 0
  -- `PartialEq`, and `PartialOrd` as `<=`
  pub date_eq : Eq NaiveDate
  pub datetime_eq : Eq NaiveDateTime
  pub date_le : NaiveDate → NaiveDate → Bool
  pub time_le : NaiveTime → NaiveTime → Bool
  pub datetime_le : NaiveDateTime → NaiveDateTime → Bool
  -- `NaiveDateTime::new`, `.date()` and `.time()`
  pub datetime : NaiveDate → NaiveTime → NaiveDateTime
  pub date : NaiveDateTime → NaiveDate
  pub time : NaiveDateTime → NaiveTime
  -- `Timelike`
  pub hour : NaiveTime → ℕ
  pub minute : NaiveTime → ℕ
  pub second : NaiveTime → ℕ
  pub nanosecond : NaiveTime → ℕ
  pub with_second : NaiveTime → ℕ → Option NaiveTime
  pub with_minute : NaiveTime → ℕ → Option NaiveTime
  -- `TimeDelta::hours`, `TimeDelta::minutes` and `checked_add_signed`
  pub hours : ℕ → TimeDelta
  pub minutes : ℕ → TimeDelta
  pub checked_add_signed : NaiveDateTime → TimeDelta → Option NaiveDateTime
  -- `parse_from_str(text, format)`; `none` is an error
  pub parse_date : Text → Text → Option NaiveDate
  pub parse_time : Text → Text → Option NaiveTime
  pub parse_datetime : Text → Text → Option NaiveDateTime

-- The order of the pairs `(date, time)`, by which the counts are sorted, and of `NaiveDateTime`.
abbrev pub pair_le : ⦃c : Chrono⦄ → c.NaiveDate × c.NaiveTime → c.NaiveDate × c.NaiveTime → Bool
pair_le ⦃c⦄ a b = if c.date_eq.beq a.0 b.0 then c.time_le a.1 b.1 else c.date_le a.0 b.0

-- What the documentation says of these operations. `seconds` is the place of a moment on the time
-- line, counted from the first moment of the calendar, and `last_second` that of the last one.
pub record ChronoLaws (c : Chrono) : Type 0 where
  pub date_of_datetime : (d : c.NaiveDate) (t : c.NaiveTime) → c.date (c.datetime d t) ≡ d
  pub time_of_datetime : (d : c.NaiveDate) (t : c.NaiveTime) → c.time (c.datetime d t) ≡ t
  pub datetime_of_parts : (x : c.NaiveDateTime) → c.datetime (c.date x) (c.time x) ≡ x
  pub datetime_le-pair_le :
      (d e : c.NaiveDate) (t u : c.NaiveTime)
      → c.datetime_le (c.datetime d t) (c.datetime e u) ≡ pair_le ⦃c = c⦄ (d, t) (e, u)
  pub hour-lt : (t : c.NaiveTime) → c.hour t < 24
  pub minute-lt : (t : c.NaiveTime) → c.minute t < 60
  pub second-lt : (t : c.NaiveTime) → c.second t < 60
  pub with_second-eq_some :
      (t : c.NaiveTime) (s : ℕ)
      → s < 60
      → (u : c.NaiveTime) × (c.with_second t s ≡ some u)
        × (c.hour u ≡ c.hour t)
        × (c.minute u ≡ c.minute t)
        × (c.second u ≡ s)
        × (c.nanosecond u ≡ c.nanosecond t)
  pub with_minute-eq_some :
      (t : c.NaiveTime) (m : ℕ)
      → m < 60
      → (u : c.NaiveTime) × (c.with_minute t m ≡ some u)
        × (c.hour u ≡ c.hour t)
        × (c.minute u ≡ m)
        × (c.second u ≡ c.second t)
        × (c.nanosecond u ≡ c.nanosecond t)
  pub day : c.NaiveDate → ℕ
  pub seconds : c.NaiveDateTime → ℕ
  pub last_second : ℕ
  pub num_seconds : c.TimeDelta → ℕ
  pub num_seconds-hours : (n : ℕ) → num_seconds (c.hours n) ≡ n * 3600
  pub num_seconds-minutes : (n : ℕ) → num_seconds (c.minutes n) ≡ n * 60
  pub seconds-datetime :
      (d : c.NaiveDate) (t : c.NaiveTime)
      → seconds (c.datetime d t) ≡ day d * 86400 + c.hour t * 3600 + c.minute t * 60 + c.second t
  pub datetime_le-seconds :
      (x y : c.NaiveDateTime)
      → c.nanosecond (c.time x) ≡ 0
      → c.nanosecond (c.time y) ≡ 0
      → c.datetime_le x y ≡ leb (seconds x) (seconds y)
  pub seconds_injective :
      (x y : c.NaiveDateTime)
      → c.nanosecond (c.time x) ≡ 0
      → c.nanosecond (c.time y) ≡ 0
      → seconds x ≡ seconds y
      → x ≡ y
  pub checked_add_signed-eq_some :
      (x : c.NaiveDateTime) (d : c.TimeDelta)
      → c.nanosecond (c.time x) ≡ 0
      → seconds x + num_seconds d ≤ last_second
      → (y : c.NaiveDateTime) × (c.checked_add_signed x d ≡ some y)
        × (seconds y ≡ seconds x + num_seconds d)
        × (c.nanosecond (c.time y) ≡ 0)
  pub checked_add_signed-eq_none :
      (x : c.NaiveDateTime) (d : c.TimeDelta)
      → c.nanosecond (c.time x) ≡ 0
      → last_second < seconds x + num_seconds d
      → c.checked_add_signed x d ≡ none
