-- ===== src/Checks/Tests.antt =====
-- Rows of a database that the checks read.
use starnext_import.Checks.Directions.{counts_by_dir, text_keys}
use starnext_import.Checks.Dispatch.{is_warning}
use starnext_import.Checks.Excesses.{any_excess, bike_values, check_excessive_bicycles-Warns}
use starnext_import.Checks.Queries.{check_excessive_bicycles}
use starnext_import.Checks.Tally.{counts_by_dir-first_twice, direction_values, first_twice, totals}
use starnext_import.Checks.{CheckResult}
use starnext_import.Database.Memory.{Tables, tables}
use starnext_import.External.Connection.{Connection}
use starnext_import.External.FileSystem.{Formats}
use starnext_import.External.Instances.{calendar, hundredths}
use starnext_import.External.Memory.{memory, memory_laws}
use starnext_import.Prelude.HashMap.{HashMap, lookup}
use starnext_import.Prelude.Text.{Text, codes}
use starnext_import.Prelude.{some, ℕ, ◌≡◌, refl, [], ◌∷◌, map, ok, arith}

-- 3 and 4 vehicles go east: the value is 10.
eastward :
    (m : HashMap Text ℕ) × (counts_by_dir tables (
        ok (
          map
            (λ row. ok (direction_values memory_laws tables row))
            ((3, codes "east") ∷ (4, codes "east") ∷ [])))
      ≡ ok m)
    × (lookup (codes "east") m
        ≡ first_twice (totals (codes "east") ((3, codes "east") ∷ (4, codes "east") ∷ [])))
eastward =
    counts_by_dir-first_twice memory_laws tables ((3, codes "east") ∷ (4, codes "east") ∷ [])
      (codes "east") (omega arith, (omega arith, tt))

-- Every query finds one period with 25 bicycles in.
abbrev busy : Connection memory
busy = record tables {
  query = λ sql values s.
      (ok (ok (bike_values memory_laws tables (0, (0, (0, omega arith)), 25, 3)) ∷ []), s);
}

abbrev plain : Formats
plain = record {
  display_error = λ e. [];
  display_date = λ d. [];
  display_time = λ t. [];
  display_f32 = λ x. [];
  display_f32_1 = λ x. [];
  debug_path = λ p. [];
  debug_input = λ i. [];
  debug_class = λ v. [];
  debug_speed = λ v. [];
  debug_average = λ v. [];
  debug_volume = λ v. [];
  debug_vehicle = λ v. [];
  debug_bicycle = λ v. [];
  debug_pedestrian = λ v. [];
}

abbrev no_rows : Tables
no_rows = record { session = λ t. []; stored = λ t. []; room = some 2 }

busy_warned :
    (v : CheckResult) × ((check_excessive_bicycles busy plain 7 no_rows).0 ≡ ok v)
    × (is_warning v.level ≡ any_excess ((0, (0, (0, omega arith)), 25, 3) ∷ []))
busy_warned =
    check_excessive_bicycles-Warns memory_laws busy plain 7 no_rows
      ((0, (0, (0, omega arith)), 25, 3) ∷ []) ((omega arith, omega arith), tt) refl
