-- ===== src/Import/Keeps/InCheck.antt =====
-- What the checks of src/check_data.rs keep.
use starnext_import.Checks.Directions.{
  check_bike_dir_proportionality, check_vehicle_dir_proportionality, if_both,
}
use starnext_import.Checks.Dispatch.{
  Checked, and_then, check, check_found, check_if, check_kind, get_count_kind, is_bicycle, is_class,
  is_volume, is_warning, log_warning,
}
use starnext_import.Checks.Queries.{
  check_excessive_bicycles, check_share_class2_vehicles, check_share_unclassed_vehicles,
  get_c2_c15_total_counts,
}
use starnext_import.Checks.{CheckResult}
use starnext_import.Import.Keeps.{KeepsRound}
use starnext_import.Types.CountKind.{CountKind}
use starnext_import.External.Chrono.{Chrono}
use starnext_import.External.Connection.{Connection}
use starnext_import.External.FileSystem.{FileSystem, Formats}
use starnext_import.External.Float.{Float}
use starnext_import.External.Oracle.{Oracle}
use starnext_import.Logging.{World}
use starnext_import.Prelude.FilePath.{FilePath}
use starnext_import.Prelude.Text.{Text, codes, text_eq}
use starnext_import.Prelude.{
  ℕ, Bool, true, false, Option, none, some, Outcome, ok, err, panic, running, Bool-cases, inl, inr,
}
use starnext_import.Types.Errors.{CountError}

module _ ⦃c : Chrono⦄ ⦃f : Float⦄ {o : Oracle c f} (conn : Connection o) (fs : FileSystem)
    (formats : Formats) where
  module _ {flag : Bool} {path : FilePath} {r : ℕ} {P Q : World conn fs → Type 0}
      (keeps : KeepsRound conn fs formats flag path r P Q) where
    log_warning-keeps :
        (n : ℕ) (result : Outcome CountError CheckResult × conn.State) (w : World conn fs)
        → P (record w { db = result.1 })
        → P (log_warning conn fs formats n result w).1
    unfolding log_warning
    log_warning-keeps n (ok v, s) w h = elim (Bool-cases (is_warning v.level)) [
      | inl e ↦ rw e (keeps.counted.logs _ _ _ _ _ h)
      | inr e ↦ rw e h
    ]
    log_warning-keeps n (err e, s) w h = h
    log_warning-keeps n (panic, s) w h = h
    log_warning-keeps n (running, s) w h = h

    -- The state after a part of `check`.
    record IsKept (m : Checked conn fs formats) : Type 0 where
      kept : P m.1

    check_if-IsKept :
        (applies : Bool) (run : ℕ → conn.State → Outcome CountError CheckResult × conn.State)
        (n : ℕ) (w : World conn fs)
        → P w
        → P (record w { db = (run n w.db).1 })
        → IsKept (check_if conn fs formats applies run n w)
    check_if-IsKept true run n w h k = record { kept = log_warning-keeps n (run n w.db) w k }
    check_if-IsKept false run n w h k = record { kept = h }

    and_then-IsKept :
        (m : Checked conn fs formats) (rest : World conn fs → Checked conn fs formats)
        → IsKept m
        → ((w : World conn fs) → P w → IsKept (rest w))
        → IsKept (and_then conn fs formats m rest)
    and_then-IsKept (ok u, w) rest h k = k w h.kept
    and_then-IsKept (err e, w) rest h k = h
    and_then-IsKept (panic, w) rest h k = h
    and_then-IsKept (running, w) rest h k = h

    if_both-keeps :
        (n : ℕ) (direction : Outcome CountError Text) (w : World conn fs)
        → P w
        → P (record w { db = (if_both conn formats n direction w.db).1 })
    if_both-keeps n (ok direction) w h = elim (Bool-cases (text_eq direction (codes "both"))) [
      | inl e ↦ rw e (keeps.row_queries _ _ w h)
      | inr e ↦ rw e h
    ]
    if_both-keeps n (err e) w h = h
    if_both-keeps n panic w h = h
    if_both-keeps n running w h = h

    bike-keeps :
        (n : ℕ) (w : World conn fs)
        → P w
        → P (record w { db = (check_bike_dir_proportionality conn formats n w.db).1 })
    unfolding check_bike_dir_proportionality
    bike-keeps n w h = if_both-keeps n _ _ (keeps.row_queries _ _ w h)

    check_kind-IsKept :
        (kind : CountKind) (n : ℕ) (w : World conn fs)
        → P w
        → IsKept (check_kind conn fs formats kind n w)
    unfolding check_kind check_share_unclassed_vehicles check_share_class2_vehicles
        check_vehicle_dir_proportionality check_excessive_bicycles get_c2_c15_total_counts
    check_kind-IsKept kind n w h =
        and_then-IsKept _ _
          (check_if-IsKept (is_class kind) (check_share_unclassed_vehicles conn formats) n w h
            (keeps.counted.queries _ _ w h))
          (λ w h.
            and_then-IsKept _ _
              (check_if-IsKept (is_class kind) (check_share_class2_vehicles conn formats) n w h
                (keeps.counted.queries _ _ w h))
              (λ w h.
                and_then-IsKept _ _
                  (check_if-IsKept (is_volume kind) (check_vehicle_dir_proportionality conn formats)
                    n w h (keeps.counted.queries _ _ w h))
                  (λ w h.
                    and_then-IsKept _ _
                      (check_if-IsKept (is_bicycle kind)
                        (check_bike_dir_proportionality conn formats) n w h (bike-keeps n w h))
                      (λ w h.
                        check_if-IsKept (is_bicycle kind) (check_excessive_bicycles conn formats) n
                          w h (keeps.counted.queries _ _ w h)))))

    check_found-keeps :
        (n : ℕ) (found : Outcome CountError (Option CountKind) × conn.State) (w : World conn fs)
        → P (record w { db = found.1 })
        → P (check_found conn fs formats n found w).1
    unfolding check_found
    check_found-keeps n (ok (some kind), s) w h = (check_kind-IsKept kind n _ h).kept
    check_found-keeps n (ok none, s) w h = h
    check_found-keeps n (err e, s) w h = h
    check_found-keeps n (panic, s) w h = h
    check_found-keeps n (running, s) w h = h

    pub check-keeps : (n : ℕ) (w : World conn fs) → P w → P (check conn fs formats n w).1
    unfolding check get_count_kind
    check-keeps n w h = check_found-keeps n _ w (keeps.row_queries _ _ w h)
