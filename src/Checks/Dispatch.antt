-- ===== src/Checks/Dispatch.antt =====
-- `check` of src/check_data.rs, which runs the checks of a kind of count and logs their warnings, and
-- `get_count_kind` of src/db/mod.rs.
use starnext_import.Checks.{CheckResult}
use starnext_import.Checks.Directions.{
  check_bike_dir_proportionality, check_vehicle_dir_proportionality,
}
use starnext_import.Checks.Queries.{
  check_excessive_bicycles, check_share_class2_vehicles, check_share_unclassed_vehicles,
}
use starnext_import.Database.HourQuery.{nth}
use starnext_import.Database.Value.{as_count_kind, as_option}
use starnext_import.External.Chrono.{Chrono}
use starnext_import.External.Connection.{Connection, Level, warn}
use starnext_import.External.FileSystem.{FileSystem, Formats}
use starnext_import.External.Float.{Float}
use starnext_import.External.Oracle.{Oracle}
use starnext_import.Logging.{World, data_check_log, log_msg}
use starnext_import.Prelude.Text.{codes}
use starnext_import.Prelude.{
  ℕ, [], ◌∷◌, Bool, true, false, Option, none, some, if◌then◌else◌, Outcome, ok, err, panic,
  running, map_err, ◌>>=◌,
}
use starnext_import.Types.CountKind.{
  CountKind, bicycle1, bicycle2, bicycle3, bicycle4, bicycle5, bicycle6, class, fifteen_min_volume,
  volume,
}
use starnext_import.Types.Errors.{CountError, data_check_error, db_error}

-- The tests of `matches!`.
abbrev pub is_class : CountKind → Bool
is_class class = true
is_class _ = false

abbrev pub is_volume : CountKind → Bool
is_volume class = true
is_volume volume = true
is_volume fifteen_min_volume = true
is_volume _ = false

abbrev pub is_bicycle : CountKind → Bool
is_bicycle bicycle1 = true
is_bicycle bicycle2 = true
is_bicycle bicycle3 = true
is_bicycle bicycle4 = true
is_bicycle bicycle5 = true
is_bicycle bicycle6 = true
is_bicycle _ = false

abbrev pub is_warning : Level → Bool
is_warning warn = true
is_warning _ = false

module _ ⦃c : Chrono⦄ ⦃f : Float⦄ {o : Oracle c f} (conn : Connection o) where
  unfoldable pub get_count_kind :
      ℕ → conn.State → Outcome CountError (Option CountKind) × conn.State
  unfolding nth as_option as_count_kind
  get_count_kind recordnum s =
      let found =
        conn.query_row (codes "select type from tc_header where recordnum = :1")
          (o.of_u32 recordnum ∷ []) s in
      (
        map_err (λ e. db_error (o.display e))
            (found.0 >>= λ row. nth o row 0 (as_option o (as_count_kind o))),
        found.1,
      )

module _ ⦃c : Chrono⦄ ⦃f : Float⦄ {o : Oracle c f} (conn : Connection o) (fs : FileSystem)
    (formats : Formats) where
  -- What `check` has done so far.
  abbrev pub Checked : Type 0
  Checked = Outcome CountError (Unit {0}) × World conn fs

  -- The next check, unless the program panicked.
  abbrev pub and_then : Checked → (World conn fs → Checked) → Checked
  and_then (ok u, w) rest = rest w
  and_then (err e, w) rest = (err e, w)
  and_then (panic, w) rest = (panic, w)
  and_then (running, w) rest = (running, w)

  -- The match on the result of a check: a warning is logged, an error is dropped.
  unfoldable pub log_warning :
      ℕ → Outcome CountError CheckResult × conn.State → World conn fs → Checked
  log_warning recordnum (ok v, s) w =
      if is_warning v.level
      then (ok tt, log_msg conn fs recordnum data_check_log warn v.message (record w { db = s }))
      else (ok tt, record w { db = s })
  log_warning recordnum (err e, s) w = (ok tt, record w { db = s })
  log_warning recordnum (panic, s) w = (panic, record w { db = s })
  log_warning recordnum (running, s) w = (running, record w { db = s })

  abbrev pub check_if :
      Bool
      → (ℕ → conn.State → Outcome CountError CheckResult × conn.State)
      → ℕ
      → World conn fs
      → Checked
  check_if applies run recordnum w =
      if applies then log_warning recordnum (run recordnum w.db) w else (ok tt, w)

  -- The checks of a kind of count.
  unfoldable pub check_kind : CountKind → ℕ → World conn fs → Checked
  unfolding log_warning
  check_kind count_kind recordnum w =
      and_then
        (check_if (is_class count_kind) (check_share_unclassed_vehicles conn formats) recordnum w)
        (λ w.
          and_then
            (check_if (is_class count_kind) (check_share_class2_vehicles conn formats) recordnum w)
            (λ w.
              and_then
                (check_if (is_volume count_kind) (check_vehicle_dir_proportionality conn formats)
                  recordnum w)
                (λ w.
                  and_then
                    (check_if (is_bicycle count_kind) (check_bike_dir_proportionality conn formats)
                      recordnum w)
                    (λ w.
                      check_if (is_bicycle count_kind) (check_excessive_bicycles conn formats)
                        recordnum w))))

  -- The match on the kind.
  unfoldable pub check_found :
      ℕ → Outcome CountError (Option CountKind) × conn.State → World conn fs → Checked
  unfolding check_kind
  check_found recordnum (ok (some count_kind), s) w =
      check_kind count_kind recordnum (record w { db = s })
  check_found recordnum (ok none, s) w =
      (err (data_check_error (codes "unable to identify type of count")), record w { db = s })
  check_found recordnum (err e, s) w =
      (err (db_error (formats.display_error e)), record w { db = s })
  check_found recordnum (panic, s) w = (panic, record w { db = s })
  check_found recordnum (running, s) w = (running, record w { db = s })

  unfoldable pub check : ℕ → World conn fs → Checked
  unfolding check_found
  check recordnum w = check_found recordnum (get_count_kind conn recordnum w.db) w
