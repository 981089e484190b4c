-- ===== src/Checks/Queries.antt =====
-- The checks of src/check_data.rs that read rows of a table: the shares of classes, and the volumes
-- of bicycles.
use starnext_import.Checks.{CheckResult, add_all, bike_count_max, hundred, share}
use starnext_import.Database.Crud.{of_oracle}
use starnext_import.Database.HourQuery.{nth}
use starnext_import.External.Chrono.{Chrono}
use starnext_import.External.Connection.{Connection, info, warn}
use starnext_import.External.FileSystem.{Formats}
use starnext_import.External.Float.{Float}
use starnext_import.External.Oracle.{Oracle}
use starnext_import.FieldMetadata.Decimal.{decimal}
use starnext_import.Prelude.Text.{Text, codes}
use starnext_import.Prelude.{
  ℕ, List, [], ◌∷◌, ◌++◌, map, ltb, if◌then◌else◌, Outcome, ok, map_err, unwrap_ok, ◌>>=◌,
  fold_loop,
}
use starnext_import.Types.Direction.Lane
use starnext_import.Types.Direction.{LaneDirection}
use starnext_import.Types.Errors.{CountError}

pub record ClassCountCheck ⦃c : Chrono⦄ : Type 0 where
  pub datetime : c.NaiveDateTime
  pub lane : ℕ
  pub dir : LaneDirection
  pub c2 : ℕ
  pub c15 : ℕ
  pub total : ℕ

-- A volume above the threshold: its date, its time, the volume and the name of the column.
abbrev pub Excess : ⦃c : Chrono⦄ → Type 0
Excess ⦃c⦄ = c.NaiveDate × c.NaiveTime × ℕ × Text

module _ ⦃c : Chrono⦄ ⦃f : Float⦄ {o : Oracle c f} (conn : Connection o) where
  -- What a query gives.
  abbrev pub Found : Type 0
  Found = Outcome o.OracleError (List (Outcome o.OracleError (List o.SqlValue)))

  -- A round of the loop of `get_c2_c15_total_counts`.
  unfoldable pub class_check :
      List ClassCountCheck
      → Outcome o.OracleError (List o.SqlValue)
      → Outcome CountError (List ClassCountCheck)
  unfolding nth Lane.from_str
  class_check counts result = do
    row ← map_err (of_oracle conn) result
    count_date ← map_err (of_oracle conn) (nth o row 0 o.as_date)
    count_time ← map_err (of_oracle conn) (nth o row 1 o.as_datetime)
    lane ← map_err (of_oracle conn) (nth o row 2 o.as_u8)
    direction ← map_err (of_oracle conn) (nth o row 3 o.as_text)
    total ← map_err (of_oracle conn) (nth o row 4 o.as_u32)
    c2 ← map_err (of_oracle conn) (nth o row 5 o.as_u32)
    c15 ← map_err (of_oracle conn) (nth o row 6 o.as_u32)
    dir ← unwrap_ok (Lane.from_str direction)
    ok (
        counts
        ++ record {
          datetime = c.datetime count_date (c.time count_time);
          lane = lane;
          dir = dir;
          c2 = c2;
          c15 = c15;
          total = total;
        }
          ∷ [])

  unfoldable pub class_checks : Found → Outcome CountError (List ClassCountCheck)
  unfolding class_check
  class_checks found = do results ← map_err (of_oracle conn) found; fold_loop class_check results []

  unfoldable pub get_c2_c15_total_counts :
      ℕ → conn.State → Outcome CountError (List ClassCountCheck) × conn.State
  unfolding class_checks
  get_c2_c15_total_counts recordnum s =
      let found =
        conn.query
          (codes
            "select countdate, counttime, countlane, ctdir, total, cars_and_tlrs, unclassified from tc_clacount where recordnum = :1")
          (o.of_u32 recordnum ∷ []) s in
      (class_checks found.0, found.1)

  -- A round of the loop of `check_excessive_bicycles`.
  unfoldable pub excess_row :
      List Excess → Outcome o.OracleError (List o.SqlValue) → Outcome CountError (List Excess)
  unfolding nth
  excess_row excessive result = do
    row ← map_err (of_oracle conn) result
    countdate ← map_err (of_oracle conn) (nth o row 0 o.as_date)
    counttime ← map_err (of_oracle conn) (nth o row 1 o.as_datetime)
    incount ← map_err (of_oracle conn) (nth o row 2 o.as_u32)
    outcount ← map_err (of_oracle conn) (nth o row 3 o.as_u32)
    let with_in =
        if ltb bike_count_max incount
        then excessive ++ (countdate, c.time counttime, incount, codes "incount") ∷ []
        else excessive
    ok (
        if ltb bike_count_max outcount
        then with_in ++ (countdate, c.time counttime, outcount, codes "outcount") ∷ []
        else with_in)

  unfoldable pub excesses : Found → Outcome CountError (List Excess)
  unfolding excess_row
  excesses found = do results ← map_err (of_oracle conn) found; fold_loop excess_row results []

module _ ⦃c : Chrono⦄ ⦃f : Float⦄ {o : Oracle c f} (conn : Connection o) (formats : Formats) where
  -- The two results of `check_share_class2_vehicles`, for the counts of the query.
  unfoldable pub class2_result : List ClassCountCheck → CheckResult
  unfolding add_all
  class2_result counts =
      let c2_percent =
        f.mul
          (share (add_all 0 (map (λ count. count.c2) counts))
            (add_all 0 (map (λ count. count.total) counts)))
          hundred in
      if f.lt c2_percent (f.tenths 750)
      then record {
        level = warn;
        message =
            codes "Class 2 vehicles are less than 75% ("
            ++ formats.display_f32_1 c2_percent
            ++ codes "%) of total.";
      }
      else record {
        level = info;
        message = codes "Share of class 2 vehicles is within expectations";
      }

  unfoldable pub check_share_class2_vehicles :
      ℕ → conn.State → Outcome CountError CheckResult × conn.State
  check_share_class2_vehicles recordnum s =
      let counts = get_c2_c15_total_counts conn recordnum s in
      (counts.0 >>= λ v. ok (class2_result v), counts.1)

  -- The same of `check_share_unclassed_vehicles`.
  unfoldable pub unclassed_result : List ClassCountCheck → CheckResult
  unfolding add_all
  unclassed_result counts =
      let c15_percent =
        f.mul
          (share (add_all 0 (map (λ count. count.c15) counts))
            (add_all 0 (map (λ count. count.total) counts)))
          hundred in
      if f.lt (f.tenths 100) c15_percent
      then record {
        level = warn;
        message =
            codes "Unclassed vehicles are greater than 10% ("
            ++ formats.display_f32_1 c15_percent
            ++ codes "%) of total.";
      }
      else record {
        level = info;
        message = codes "Share of unclassed vehicles is within expectations";
      }

  unfoldable pub check_share_unclassed_vehicles :
      ℕ → conn.State → Outcome CountError CheckResult × conn.State
  check_share_unclassed_vehicles recordnum s =
      let counts = get_c2_c15_total_counts conn recordnum s in
      (counts.0 >>= λ v. ok (unclassed_result v), counts.1)

  -- The text of the excesses.
  unfoldable pub excess_text : Text → List Excess → Text
  excess_text output [] = output
  excess_text output ((countdate, counttime, count, column) ∷ excessive) =
      excess_text
        (output
          ++ formats.display_date countdate
          ++ codes " "
          ++ formats.display_time counttime
          ++ codes ": "
          ++ decimal count
          ++ codes " ("
          ++ column
          ++ codes "); ")
        excessive

  unfoldable pub excess_result : List Excess → CheckResult
  unfolding excess_text
  excess_result [] = record { level = info; message = codes "All counts under excessive threshold" }
  excess_result (e ∷ excessive) = record {
    level = warn;
    message =
        codes "Found more than "
        ++ decimal bike_count_max
        ++ codes " bicycles counted in the following periods: "
        ++ excess_text [] (e ∷ excessive);
  }

  unfoldable pub check_excessive_bicycles :
      ℕ → conn.State → Outcome CountError CheckResult × conn.State
  unfolding excesses excess_result
  check_excessive_bicycles recordnum s =
      let found =
        conn.query
          (codes
            "select countdate, counttime, incount, outcount from tc_bikecount where dvrpcnum = :1 order by countdate, counttime")
          (o.of_u32 recordnum ∷ []) s in
      (excesses conn found.0 >>= λ excessive. ok (excess_result excessive), found.1)
