-- ===== src/Binning/Bins.antt =====
-- The bins of `create_time_bins` on the time line.
use starnext_import.Binning.Time.{width, IsBinOf, bin_time-IsBinOf}
use starnext_import.Binning.{
  TimeInterval, hour, fifteen_min, bin_time, time_to_add, push_bins, create_time_bins,
}
use starnext_import.External.Chrono.{Chrono, ChronoLaws}
use starnext_import.Prelude.{
  ℕ, zero, suc, ◌+◌, ◌*◌, ◌/◌, ◌≤◌, ◌<◌, ◌≡◌, refl, List, [], ◌∷◌, ◌++◌, ok, arith, ◌∙◌, sym, ap,
  Bool-cases, inl, inr, leb, false,
}
use mathlib.Core.List.{append_assoc, append-nil}

bin_le :
    (interval : TimeInterval) (s : ℕ) {top : ℕ}
    → s + width interval * 60 ≤ top
    → s / (width interval * 60) * (width interval * 60) + width interval * 60 ≤ top
bin_le hour s h = omega arith
bin_le fifteen_min s h = omega arith

module _ ⦃c : Chrono⦄ (laws : ChronoLaws c) where
  open laws use {seconds}

  -- A moment without a fraction of a second.
  abbrev pub IsWhole : c.NaiveDateTime → Type 0
  IsWhole x = c.nanosecond (c.time x) ≡ 0

  -- The list is the moments at `from`, `from + step`, …, up to `last` and with none left out.
  abbrev pub Progression : ℕ → ℕ → ℕ → List c.NaiveDateTime → Type 0
  Progression step last from [] = last < from
  Progression step last from (x ∷ xs) =
      (seconds x ≡ from) × (from ≤ last) × IsWhole x × Progression step last (from + step) xs

  push_bins-Progression :
      (fuel : ℕ) (d : c.TimeDelta) (last current : c.NaiveDateTime) (dts : List c.NaiveDateTime)
      → IsWhole last
      → IsWhole current
      → seconds last + laws.num_seconds d ≤ laws.last_second
      → seconds last < seconds current + fuel * laws.num_seconds d
      → (bins : List c.NaiveDateTime) × (push_bins (suc fuel) d last current dts ≡ ok (dts ++ bins))
        × Progression (laws.num_seconds d) (seconds last) (seconds current) bins
  unfolding push_bins
  push_bins-Progression zero d last current dts wl wc top enough =
      let past : leb (seconds current) (seconds last) ≡ false = ground arith in
      (
        [],
        rw (laws.datetime_le-seconds current last wc wl, past) (ap ok (sym (append-nil dts))),
        ground arith,
      )
  push_bins-Progression (suc fuel) d last current dts wl wc top enough =
      elim (Bool-cases (leb (seconds current) (seconds last))) [
        | inl more ↦
            let (next, e, later, wn) =
              laws.checked_add_signed-eq_some current d wc (ground arith) in
            let (bins, pushed, progress) =
              push_bins-Progression fuel d last next (dts ++ current ∷ []) wl wn top
                (rw later (grind arith)) in
            (
              current ∷ bins,
              rw (laws.datetime_le-seconds current last wc wl, more, e)
                  (pushed ∙ ap ok (append_assoc dts (current ∷ []) bins)),
              (refl, ground arith, wc, rw later at progress),
            )
        | inr done ↦ (
          [],
          rw (laws.datetime_le-seconds current last wc wl, done) (ap ok (sym (append-nil dts))),
          ground arith,
        )
      ]

  -- The length of an interval in seconds.
  num_seconds-time_to_add :
      (interval : TimeInterval) → laws.num_seconds (time_to_add interval) ≡ width interval * 60
  num_seconds-time_to_add hour = laws.num_seconds-hours 1
  num_seconds-time_to_add fifteen_min = laws.num_seconds-minutes 15

  -- The start of the interval in which the moment lies.
  abbrev pub bin_second : TimeInterval → c.NaiveDateTime → ℕ
  bin_second interval x = seconds x / (width interval * 60) * (width interval * 60)

  pub seconds-bin :
      (interval : TimeInterval) (d : c.NaiveDate) (t u : c.NaiveTime)
      → IsBinOf c interval t u
      → seconds (c.datetime d u) ≡ bin_second interval (c.datetime d t)
  seconds-bin hour d t u b =
      rw
        (
          laws.seconds-datetime d u,
          laws.seconds-datetime d t,
          b.same_hour,
          b.whole_intervals,
          b.no_seconds,
        )
        (omega (arith, laws.hour-lt t, laws.minute-lt t, laws.second-lt t))
  seconds-bin fifteen_min d t u b =
      rw
        (
          laws.seconds-datetime d u,
          laws.seconds-datetime d t,
          b.same_hour,
          b.whole_intervals,
          b.no_seconds,
        )
        (omega (arith, laws.hour-lt t, laws.minute-lt t, laws.second-lt t))

  bin_datetime :
      (interval : TimeInterval) (x : c.NaiveDateTime)
      → IsWhole x
      → (u : c.NaiveTime) × (bin_time (c.time x) interval ≡ ok u)
        × (seconds (c.datetime (c.date x) u) ≡ bin_second interval x)
        × IsWhole (c.datetime (c.date x) u)
  bin_datetime interval x w =
      let (u, e, b) = bin_time-IsBinOf laws (c.time x) interval in
      (
        u,
        e,
        seconds-bin interval (c.date x) (c.time x) u b ∙ rw (laws.datetime_of_parts x),
        rw (laws.time_of_datetime (c.date x) u) (b.same_fraction ∙ w),
      )

  -- With more fuel than there are intervals from the first bin to the last, and a calendar that
  -- goes on for one interval after the last moment, `create_time_bins` ends without a panic. Its
  -- result is the start of the interval of the first moment, then each later start in steps of one
  -- interval, up to the start of the interval of the last moment.
  pub create_time_bins-Progression :
      (fuel : ℕ) (first_dt last_dt : c.NaiveDateTime) (interval : TimeInterval)
      → IsWhole first_dt
      → IsWhole last_dt
      → seconds last_dt + width interval * 60 ≤ laws.last_second
      → bin_second interval last_dt < bin_second interval first_dt + fuel * (width interval * 60)
      → (bins : List c.NaiveDateTime) × (create_time_bins (suc fuel) first_dt last_dt interval
          ≡ ok bins)
        × Progression
            (width interval * 60)
            (bin_second interval last_dt)
            (bin_second interval first_dt)
            bins
  unfolding create_time_bins
  create_time_bins-Progression fuel first_dt last_dt interval wf wl top enough =
      let (tf, ef, sf, wf') = bin_datetime interval first_dt wf in
      let (tl, el, sl, wl') = bin_datetime interval last_dt wl in
      let step = num_seconds-time_to_add interval in
      let (bins, e, p) =
        push_bins-Progression fuel (time_to_add interval) (c.datetime (c.date last_dt) tl)
          (c.datetime (c.date first_dt) tf) [] wl' wf'
          (rw (sl, step) (bin_le interval (seconds last_dt) top)) (rw (sl, sf, step) enough) in
      (bins, rw (ef, el) e, rw (step, sl, sf) at p)
