-- ===== src/Checks.antt =====
-- src/check_data.rs: the checks of a count that was inserted. What `check` sets up from the
-- environment is left out: it panics there if the program is misconfigured.
pub mod Queries
pub mod Directions
pub mod Dispatch
pub mod Tally
pub mod Excesses
mod Tests
use starnext_import.External.Connection.{Level}
use starnext_import.External.Float.{Float}
use starnext_import.Prelude.Text.{Text}
use starnext_import.Prelude.{ℕ, List, [], ◌∷◌, add_u32}

pub record CheckResult : Type 0 where
  pub level : Level
  pub message : Text

-- `Iterator::sum::<u32>`.
unfoldable pub add_all : ℕ → List ℕ → ℕ
add_all total [] = total
add_all total (n ∷ ns) = add_all (add_u32 total n) ns

-- `BIKE_COUNT_MAX`.
abbrev pub bike_count_max : ℕ
bike_count_max = 20

module _ ⦃f : Float⦄ where
  -- `DIR_PROPORTION_LOWER_BOUND`.
  abbrev pub dir_proportion_lower_bound : f.F32
  dir_proportion_lower_bound = f.tenths 4

  -- `100_f32`.
  abbrev pub hundred : f.F32
  hundred = f.tenths 1000

  -- `a as f32 / b as f32`.
  abbrev pub share : ℕ → ℕ → f.F32
  share a b = f.div (f.of_nat a) (f.of_nat b)
