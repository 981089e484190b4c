-- ===== src/Bicycles.antt =====
-- `create_binned_bicycle_vol_count` of src/lib.rs: volumes of individual bicycles.
pub mod Gather
pub mod Result
pub mod Numbers
mod Tests
use starnext_import.Binning.{TimeInterval, bin_time, create_time_bins}
use starnext_import.External.Chrono.{Chrono, pair_le}
use starnext_import.FieldMetadata.{FieldMetadata}
use starnext_import.Prelude.HashMap.{HashMap, upsert, or_insert}
use starnext_import.Prelude.Sort.{sort_by, first, last}
use starnext_import.Prelude.{
  ℕ, Bool, true, ◌&&◌, List, [], ◌∷◌, map, Option, none, some, Outcome, ok, unwrap, ◌>>=◌,
  fold_loop, Eq, ◌==◌, if◌then◌else◌, ◌↔◌, ◌≡◌, arith, add_u16,
}
use starnext_import.Records.{IndividualBicycle, FifteenMinuteBicycle}
use starnext_import.Types.Errors.{CountError}

pub record DataKey ⦃c : Chrono⦄ : Type 0 where
  pub date : c.NaiveDate
  pub time : c.NaiveDateTime

pub record DataValues : Type 0 where
  pub recordnum : ℕ
  pub total : ℕ
  pub indir : Option ℕ
  pub outdir : Option ℕ

-- `if let Some(mut v) = o { v += 1; Some(v) } else { Some(1) }`.
abbrev pub one_more : Option ℕ → Option ℕ
one_more (some v) = some (add_u16 v 1)
one_more none = some 1

-- The closures of `and_modify` for lanes 1 and 2.
unfoldable pub ride_in : DataValues → DataValues
ride_in v = record v { total = add_u16 v.total 1; indir = one_more v.indir }

unfoldable pub ride_out : DataValues → DataValues
ride_out v = record v { total = add_u16 v.total 1; outdir = one_more v.outdir }

abbrev pub values : ℕ → ℕ → ℕ → ℕ → DataValues
values recordnum total indir outdir = record {
  recordnum = recordnum;
  total = total;
  indir = some indir;
  outdir = some outdir;
}

module _ ⦃c : Chrono⦄ where
  -- The derived `PartialEq` of the key.
  abbrev pub key_beq : DataKey → DataKey → Bool
  key_beq k j = c.date_eq.beq k.date j.date && c.datetime_eq.beq k.time j.time

  pub key_beq_iff : (k j : DataKey) → (key_beq k j ≡ true) ↔ (k ≡ j)
  key_beq_iff k j =
      ground (arith, c.date_eq.beq_iff k.date j.date, c.datetime_eq.beq_iff k.time j.time)

  instance abbrev pub key_eq : Eq DataKey
  key_eq = record { beq = key_beq; beq_iff = key_beq_iff }

  abbrev pub Volumes : Type 0
  Volumes = HashMap DataKey DataValues

  unfoldable pub bicycle_key : TimeInterval → IndividualBicycle → Outcome CountError DataKey
  bicycle_key interval count = do
    time_part ← bin_time (c.time count.time) interval
    ok (record { date = count.date; time = c.datetime count.date time_part })

  -- A round of the loop over the counts.
  unfoldable pub gather :
      TimeInterval → FieldMetadata → Volumes → IndividualBicycle → Outcome CountError Volumes
  unfolding bicycle_key ride_in ride_out
  gather interval m volumes count = do
    key ← bicycle_key interval count
    ok (
        if count.lane == 1
        then upsert key ride_in (values m.recordnum 1 1 0) volumes
        else if count.lane == 2
        then upsert key ride_out (values m.recordnum 1 0 1) volumes
        else volumes)

  -- A round of the loop over all moments: a missing period has no bicycles.
  unfoldable pub fill : FieldMetadata → Volumes → List c.NaiveDateTime → Volumes
  fill m volumes [] = volumes
  fill m volumes (dt ∷ dts) =
      fill m (or_insert (record { date = c.date dt; time = dt }) (values m.recordnum 0 0 0) volumes)
        dts

  abbrev pub sort_key : IndividualBicycle → c.NaiveDate × c.NaiveTime
  sort_key v = (v.date, c.time v.time)

  abbrev pub moment : IndividualBicycle → c.NaiveDateTime
  moment v = c.datetime v.date (c.time v.time)

  unfoldable pub volume_row : DataKey × DataValues → FifteenMinuteBicycle
  volume_row (key, value) = record {
    recordnum = value.recordnum;
    date = key.date;
    time = key.time;
    total = value.total;
    indir = value.indir;
    outdir = value.outdir;
  }

  -- The map at the end of the function, for at least one count.
  unfoldable pub bicycle_volumes :
      ℕ → TimeInterval → FieldMetadata → List IndividualBicycle → Outcome CountError Volumes
  unfolding gather fill
  bicycle_volumes fuel interval m counts = do
    volumes ← fold_loop (gather interval m) counts []
    let sorted = sort_by (λ v w. pair_le (sort_key v) (sort_key w)) counts
    earliest ← unwrap (first sorted)
    latest ← unwrap (last sorted)
    all_datetimes ← create_time_bins fuel (moment earliest) (moment latest) interval
    ok (fill m volumes all_datetimes)

  unfoldable pub create_binned_bicycle_vol_count :
      ℕ
      → TimeInterval
      → FieldMetadata
      → List IndividualBicycle
      → Outcome CountError (List FifteenMinuteBicycle)
  unfolding bicycle_volumes volume_row
  create_binned_bicycle_vol_count fuel interval m [] = ok []
  create_binned_bicycle_vol_count fuel interval m (count ∷ counts) = do
    volumes ← bicycle_volumes fuel interval m (count ∷ counts)
    ok (map volume_row volumes)
