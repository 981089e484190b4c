-- ===== src/Checks/Directions.antt =====
-- The checks of src/check_data.rs on the proportion of the two directions of a count.
use starnext_import.Checks.{CheckResult, dir_proportion_lower_bound, hundred, share}
use starnext_import.Database.Crud.{of_oracle}
use starnext_import.Database.HourQuery.{nth}
use starnext_import.External.Chrono.{Chrono}
use starnext_import.External.Connection.{Connection, info, warn}
use starnext_import.External.FileSystem.{Formats}
use starnext_import.External.Float.{Float}
use starnext_import.External.Oracle.{Oracle}
use starnext_import.Prelude.HashMap.{HashMap, upsert}
use starnext_import.Prelude.Text.{Text, codes, text_eq, text_eq_iff}
use starnext_import.Prelude.{
  ℕ, List, [], ◌∷◌, ◌++◌, ◌||◌, ltb, leb, if◌then◌else◌, Outcome, ok, err, panic, running, map_err,
  ◌>>=◌, fold_loop, add_u32, Eq,
}
use starnext_import.Types.Errors.{CountError}

instance abbrev pub text_keys : Eq Text
text_keys = record { beq = text_eq; beq_iff = text_eq_iff }

-- `max_by` gives the last of the greatest entries, and `min_by` the first of the least.
unfoldable pub max_by : Text × ℕ → HashMap Text ℕ → Text × ℕ
max_by a [] = a
max_by a (b ∷ m) = max_by (if leb a.1 b.1 then b else a) m

unfoldable pub min_by : Text × ℕ → HashMap Text ℕ → Text × ℕ
min_by a [] = a
min_by a (b ∷ m) = min_by (if ltb b.1 a.1 then b else a) m

-- `*count_by_dir.entry(direction).or_insert(total) += total`: the total is also added to itself
-- where it was inserted.
unfoldable pub add_direction : HashMap Text ℕ → Text → ℕ → HashMap Text ℕ
add_direction m direction total = upsert direction (λ t. add_u32 t total) (add_u32 total total) m

module _ ⦃c : Chrono⦄ ⦃f : Float⦄ {o : Oracle c f} (conn : Connection o) where
  -- A round of the loop over the results.
  unfoldable pub direction_row :
      HashMap Text ℕ → Outcome o.OracleError (List o.SqlValue) → Outcome CountError (HashMap Text ℕ)
  unfolding nth add_direction
  direction_row count_by_dir result = do
    row ← map_err (of_oracle conn) result
    total ← map_err (of_oracle conn) (nth o row 0 o.as_u32)
    direction ← map_err (of_oracle conn) (nth o row 1 o.as_text)
    ok (add_direction count_by_dir direction total)

  unfoldable pub counts_by_dir :
      Outcome o.OracleError (List (Outcome o.OracleError (List o.SqlValue)))
      → Outcome CountError (HashMap Text ℕ)
  unfolding direction_row
  counts_by_dir found = do
    results ← map_err (of_oracle conn) found
    fold_loop direction_row results []

module _ ⦃c : Chrono⦄ ⦃f : Float⦄ {o : Oracle c f} (conn : Connection o) (formats : Formats) where
  -- The end of the messages: the bounds that are expected.
  abbrev pub expectation : Text
  expectation =
      codes "%. (Expectation is that proportions are no less/more than "
      ++ formats.display_f32 (f.mul dir_proportion_lower_bound hundred)
      ++ codes "%/"
      ++ formats.display_f32 (f.sub hundred (f.mul dir_proportion_lower_bound hundred))
      ++ codes "%.)"

  abbrev pub within_expectations : CheckResult
  within_expectations = record {
    level = info;
    message = codes "Direction proportions is within expectations";
  }

  abbrev pub one_direction : CheckResult
  one_direction = record {
    level = info;
    message = codes "Skipping disproportional directionality check - count only one direction.";
  }

  -- The result for the smaller and the larger of two directions or more.
  unfoldable pub proportion_result : Text × ℕ → Text × ℕ → CheckResult
  proportion_result smaller larger =
      let total = add_u32 smaller.1 larger.1 in
      let smaller_share = share smaller.1 total in
      let larger_share = share larger.1 total in
      if f.lt smaller_share dir_proportion_lower_bound
      then record {
        level = warn;
        message =
            codes "Abnormal direction proportions: "
            ++ smaller.0
            ++ codes " has "
            ++ formats.display_f32_1 (f.mul smaller_share hundred)
            ++ codes "% of total, "
            ++ larger.0
            ++ codes " has "
            ++ formats.display_f32_1 (f.mul larger_share hundred)
            ++ expectation;
      }
      else within_expectations

  unfoldable pub vehicle_dir_result : HashMap Text ℕ → CheckResult
  unfolding proportion_result max_by min_by
  vehicle_dir_result [] = record { level = info; message = codes "Count is empty" }
  vehicle_dir_result (e ∷ []) = one_direction
  vehicle_dir_result (e ∷ d ∷ m) = proportion_result (min_by e (d ∷ m)) (max_by e (d ∷ m))

  unfoldable pub check_vehicle_dir_proportionality :
      ℕ → conn.State → Outcome CountError CheckResult × conn.State
  unfolding counts_by_dir vehicle_dir_result
  check_vehicle_dir_proportionality recordnum s =
      let found =
        conn.query (codes "select totalcount, cntdir from tc_volcount where recordnum = :1")
          (o.of_u32 recordnum ∷ []) s in
      (counts_by_dir conn found.0 >>= λ m. ok (vehicle_dir_result m), found.1)

  -- The result for the sums of a table: the total, and the volumes in and out.
  unfoldable pub bike_result : ℕ → ℕ → ℕ → CheckResult
  bike_result total incount outcount =
      let incount_share = share incount total in
      let outcount_share = share outcount total in
      if f.lt incount_share dir_proportion_lower_bound
        || f.lt outcount_share dir_proportion_lower_bound
      then record {
        level = warn;
        message =
            codes "Abnormal direction proportions: INCOUNT has "
            ++ formats.display_f32_1 (f.mul incount_share hundred)
            ++ codes "% of total, OUTCOUNT has "
            ++ formats.display_f32_1 (f.mul outcount_share hundred)
            ++ expectation;
      }
      else within_expectations

  -- What the row of the sums gives.
  unfoldable pub bike_sums :
      Outcome o.OracleError (List o.SqlValue) → Outcome CountError CheckResult
  unfolding nth bike_result
  bike_sums found = do
    row ← map_err (of_oracle conn) found
    total ← map_err (of_oracle conn) (nth o row 0 o.as_u32)
    incount ← map_err (of_oracle conn) (nth o row 1 o.as_u32)
    outcount ← map_err (of_oracle conn) (nth o row 2 o.as_u32)
    ok (bike_result total incount outcount)

  -- The second query is made if the direction is `both`.
  abbrev pub if_both :
      ℕ → Outcome CountError Text → conn.State → Outcome CountError CheckResult × conn.State
  if_both recordnum (ok direction) s =
      if text_eq direction (codes "both")
      then (let found =
            conn.query_row
              (codes
                "select sum(total), sum(incount), sum(outcount) from tc_bikecount where dvrpcnum = :1")
              (o.of_u32 recordnum ∷ []) s in
          (bike_sums found.0, found.1))
      else (ok one_direction, s)
  if_both recordnum (err e) s = (err e, s)
  if_both recordnum panic s = (panic, s)
  if_both recordnum running s = (running, s)

  unfoldable pub check_bike_dir_proportionality :
      ℕ → conn.State → Outcome CountError CheckResult × conn.State
  unfolding bike_sums nth
  check_bike_dir_proportionality recordnum s =
      let found =
        conn.query_row (codes "select cntdir from tc_header where recordnum = :1")
          (o.of_u32 recordnum ∷ []) s in
      if_both recordnum (map_err (of_oracle conn) (found.0 >>= λ row. nth o row 0 o.as_text))
        found.1
