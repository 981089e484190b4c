-- ===== src/Binning/Tests.antt =====
-- Bins of moments on one day.
use starnext_import.Binning.Bins.{Progression, bin_second, create_time_bins-Progression}
use starnext_import.Binning.Time.{IsBinOf, bin_time-IsBinOf, width}
use starnext_import.Binning.{hour, fifteen_min, bin_time, create_time_bins}
use starnext_import.External.Instances.{Time, Moment, calendar, calendar_laws, seconds}
use starnext_import.Prelude.{◌*◌, ◌≡◌, refl, List, ok, arith}

-- 10:51:20
abbrev morning : Time
morning = (39080, omega arith)

morning_bin :
    (u : Time) × (bin_time morning fifteen_min ≡ ok u) × IsBinOf calendar fifteen_min morning u
morning_bin = bin_time-IsBinOf calendar_laws morning fifteen_min

morning_to_noon :
    (bins : List Moment) × (create_time_bins 4 (3, morning) (3, (43200, omega arith)) hour
      ≡ ok bins)
    × Progression calendar_laws
        (width hour * 60)
        (bin_second calendar_laws hour (3, (43200, omega arith)))
        (bin_second calendar_laws hour (3, morning))
        bins
unfolding calendar_laws seconds
morning_to_noon =
    create_time_bins-Progression calendar_laws 3 (3, morning) (3, (43200, omega arith)) hour refl
      refl (omega arith) (omega arith)
