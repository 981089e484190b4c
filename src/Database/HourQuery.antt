-- ===== src/Database/HourQuery.antt =====
-- `hourly_counts` and the trait `Denormalize` of src/denormalize.rs on a connection: the query and
-- the conversion of its rows. What is made of the rows is `denormalize_vol_count`.
use starnext_import.Denormalize.Volume
use starnext_import.Denormalize.Volume.{HourRow, NonNormalVolCount}
use starnext_import.External.Chrono.{Chrono}
use starnext_import.External.Connection.{Connection}
use starnext_import.External.Float.{Float}
use starnext_import.External.Oracle.{Oracle}
use starnext_import.FieldMetadata.Decimal.{decimal}
use starnext_import.Prelude.Text.{Text, codes}
use starnext_import.Prelude.{
  ℕ, List, [], ◌∷◌, ◌++◌, map, Option, none, some, Outcome, ok, err, map_err, ◌>>=◌, get_elem?,
}
use starnext_import.Types.Errors.{CountError}

-- The constants of an implementation of `Denormalize`.
pub record Normalized : Type 0 where
  pub normalized_table : Text
  pub dir_field : Text
  pub vol_field : Text

abbrev pub class_source : Normalized
class_source = record {
  normalized_table = codes "tc_clacount";
  dir_field = codes "ctdir";
  vol_field = codes "total";
}

abbrev pub vehicle_source : Normalized
vehicle_source = record {
  normalized_table = codes "tc_15minvolcount";
  dir_field = codes "cntdir";
  vol_field = codes "volcount";
}

module _ ⦃c : Chrono⦄ ⦃f : Float⦄ (o : Oracle c f) where
  abbrev pub of_value :
      {A : Type 0}
      → ℕ
      → (o.SqlValue → Outcome o.OracleError A)
      → Option o.SqlValue
      → Outcome o.OracleError A
  of_value i read none = err (o.invalid_column_index i)
  of_value i read (some v) = read v

  -- A column of a row by its place, as for the tuples that a query gives.
  unfoldable pub nth :
      {A : Type 0}
      → List o.SqlValue
      → ℕ
      → (o.SqlValue → Outcome o.OracleError A)
      → Outcome o.OracleError A
  nth row i read = of_value i read (get_elem? row i)

  -- A row of the query, as a tuple.
  unfoldable pub hour_row : List o.SqlValue → Outcome o.OracleError HourRow
  unfolding nth
  hour_row row = do
    counttime ← nth row 0 o.as_datetime
    countdate ← nth row 1 o.as_date
    count ← nth row 2 o.as_u32
    dir ← nth row 3 o.as_text
    lane ← nth row 4 o.as_u32
    ok (counttime, countdate, count, dir, lane)

  -- The statement, with a space for each line break.
  abbrev pub hour_sql : Normalized → Text
  hour_sql source =
      codes "select TRUNC(counttime, 'HH24'), countdate, sum("
      ++ source.vol_field
      ++ codes "), "
      ++ source.dir_field
      ++ codes ", countlane from "
      ++ source.normalized_table
      ++ codes " where recordnum = :1 group by (countdate, trunc(counttime, 'HH24')), "
      ++ source.dir_field
      ++ codes ", countlane order by countdate"

  abbrev pub hour_results :
      Outcome o.OracleError (List (Outcome o.OracleError (List o.SqlValue)))
      → Outcome Text (List (Outcome Text HourRow))
  hour_results found = map_err o.display found >>= λ rows.
      ok (map (λ row. map_err o.display (row >>= hour_row)) rows)

  module _ (conn : Connection o) where
    unfoldable pub denormalized :
        Normalized → ℕ → conn.State → Outcome CountError (List NonNormalVolCount) × conn.State
    unfolding Volume.denormalize_vol_count
    denormalized source recordnum s =
        let found = conn.query (hour_sql source) (o.of_u32 recordnum ∷ []) s in
        (
          Volume.denormalize_vol_count recordnum
              (decimal recordnum ++ codes " not found in " ++ source.normalized_table)
              (hour_results found.0),
          found.1,
        )
