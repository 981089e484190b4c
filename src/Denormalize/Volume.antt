-- ===== src/Denormalize/Volume.antt =====
-- `denormalize_vol_count` and `hourly_counts` of src/denormalize.rs, and `NonNormalVolCountValue` of
-- src/intermediate.rs.
pub mod Totals
use starnext_import.Denormalize.Keys.{NonNormalCountKey, key_eq}
use starnext_import.External.Chrono.{Chrono}
use starnext_import.Intermediate.HourFields.{HourFields, all_hours, change_hour}
use starnext_import.Prelude.HashMap.{HashMap, upsert}
use starnext_import.Prelude.Text.{Text, codes}
use starnext_import.Prelude.{
  ℕ, ◌%◌, List, [], ◌∷◌, ◌++◌, map, Option, none, some, Outcome, ok, err, unwrap_ok, map_err, ◌>>=◌,
  fold_loop, add_u32, u8_mod,
}
use starnext_import.Types.Direction.Lane
use starnext_import.Types.Direction.{LaneDirection}
use starnext_import.Types.Errors.{CountError, db_error, oracle_error}

-- `Weather` of src/lib.rs.
pub data Weather : Type 0 where
  fair rain sunny : Weather

pub record HourlyCount ⦃c : Chrono⦄ : Type 0 where
  pub recordnum : ℕ
  pub datetime : c.NaiveDateTime
  pub count : ℕ
  pub dir : LaneDirection
  pub lane : ℕ

-- The fields `am12` … `pm11` are `hours`.
pub record NonNormalVolCountValue : Type 0 where
  pub setflag : Option ℕ
  pub totalcount : Option ℕ
  pub weather : Option Weather
  pub hours : HourFields (Option ℕ)

pub record NonNormalVolCount ⦃c : Chrono⦄ : Type 0 where
  pub recordnum : ℕ
  pub date : c.NaiveDate
  pub direction : Option LaneDirection
  pub lane : Option ℕ
  pub setflag : Option ℕ
  pub totalcount : Option ℕ
  pub hours : HourFields (Option ℕ)

-- A row that the query gives: time, date, sum of the volumes, direction and lane.
abbrev pub HourRow : ⦃c : Chrono⦄ → Type 0
HourRow ⦃c⦄ = c.NaiveDateTime × c.NaiveDate × ℕ × Text × ℕ

module _ ⦃c : Chrono⦄ where
  -- `NonNormalVolCountValue::first`.
  unfoldable pub first : HourlyCount → NonNormalVolCountValue
  unfolding change_hour all_hours
  first count = record {
    setflag = none;
    totalcount = some count.count;
    weather = none;
    hours = change_hour (c.hour (c.time count.datetime)) (λ _. some count.count) (all_hours none);
  }

  -- `c.totalcount.map_or(Some(count), |c| Some(c + count))`.
  abbrev pub add_total : Option ℕ → ℕ → Option ℕ
  add_total none count = some count
  add_total (some t) count = some (add_u32 t count)

  -- The closure of `and_modify`.
  unfoldable pub insert : NonNormalVolCountValue → HourlyCount → NonNormalVolCountValue
  unfolding change_hour
  insert v count = record v {
    totalcount = add_total v.totalcount count.count;
    hours = change_hour (c.hour (c.time count.datetime)) (λ _. some count.count) v.hours;
  }

  abbrev pub count_key : HourlyCount → NonNormalCountKey
  count_key count = record {
    recordnum = count.recordnum;
    date = c.date count.datetime;
    direction = some count.dir;
    lane = some count.lane;
  }

  -- The loop over the counts.
  unfoldable pub gather_volumes :
      List HourlyCount
      → HashMap NonNormalCountKey NonNormalVolCountValue
      → HashMap NonNormalCountKey NonNormalVolCountValue
  unfolding insert first
  gather_volumes [] m = m
  gather_volumes (count ∷ counts) m =
      gather_volumes counts (upsert (count_key count) (λ v. insert v count) (first count) m)

  -- A row of the TC_VOLCOUNT table.
  unfoldable pub volume_row : NonNormalCountKey × NonNormalVolCountValue → NonNormalVolCount
  volume_row (key, value) = record {
    recordnum = key.recordnum;
    date = key.date;
    direction = key.direction;
    lane = key.lane;
    setflag = none;
    totalcount = value.totalcount;
    hours = value.hours;
  }

  -- A round of the loop over the rows; `lane as u8` keeps the low eight bits. A row that cannot be
  -- read gives the error of the database.
  unfoldable pub hourly_count :
      ℕ → List HourlyCount → Outcome Text HourRow → Outcome CountError (List HourlyCount)
  hourly_count recordnum counts result = do
    (counttime, countdate, count, dir, lane) ← map_err oracle_error result
    let datetime = c.datetime countdate (c.time counttime)
    dir ← unwrap_ok (Lane.from_str dir)
    ok (
        counts
        ++ record {
          recordnum = recordnum;
          datetime = datetime;
          count = count;
          dir = dir;
          lane = lane % u8_mod;
        }
          ∷ [])

  -- `hourly_counts`, for what the query gave; `not_found` is the text of the error.
  unfoldable pub hourly_counts :
      ℕ → Text → Outcome Text (List (Outcome Text HourRow)) → Outcome CountError (List HourlyCount)
  hourly_counts recordnum not_found results = do
    results ← map_err (λ _. db_error not_found) results
    fold_loop (hourly_count recordnum) results []

  unfoldable pub denormalize_vol_count :
      ℕ
      → Text
      → Outcome Text (List (Outcome Text HourRow))
      → Outcome CountError (List NonNormalVolCount)
  denormalize_vol_count recordnum not_found results = do
    counts ← hourly_counts recordnum not_found results
    elim counts [
      | [] ↦ ok []
      | count ∷ rest ↦ ok (map volume_row (gather_volumes (count ∷ rest) []))
    ]
