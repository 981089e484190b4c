-- ===== src/Database/Pedestrians.antt =====
-- The columns of TC_PEDCOUNT: a pedestrian count is inserted under other names than it is read by.
use starnext_import.Database.Rows.{bind, column, inserted, read_pedestrian}
use starnext_import.Database.Tables.{pedestrian_table}
use starnext_import.External.Chrono.{Chrono}
use starnext_import.External.Float.{Float}
use starnext_import.External.Oracle.{Oracle, OracleLaws}
use starnext_import.Prelude.Text.{Text, codes, text_eq, text_eq_iff}
use starnext_import.Prelude.{
  ◌<◌, ◌≡◌, ◌≢◌, refl, List, [], ◌∷◌, map, Outcome, err, u16_mod, u32_mod, All, Bool-cases, inl,
  inr,
}
use starnext_import.Records.{FifteenMinutePedestrian}

module _ ⦃c : Chrono⦄ ⦃f : Float⦄ {o : Oracle c f} (laws : OracleLaws o) where
  column-others :
      {A : Type 0} (others : List Text) (name : Text) (read : o.SqlValue → Outcome o.OracleError A)
      → All (λ n. n ≢ name) others
      → column o (map (λ n. (n, o.null)) others) name read ≡ err (o.invalid_column_name name)
  unfolding column
  column-others [] name read h = refl
  column-others (n ∷ others) name read h = elim (Bool-cases (text_eq n name)) [
    | inl same ↦ absurd (h.0 ((text_eq_iff n name).0 same))
    | inr other ↦ rw other (column-others others name read h.1)
  ]

  -- If the table has no column INCOUNT besides those of the insert statement, a pedestrian count that
  -- is inserted cannot be read: the volumes are inserted as "IN" and "OUT", and read as INCOUNT and
  -- OUTCOUNT.
  pub read_pedestrian-inserted :
      (others : List Text) (v : FifteenMinutePedestrian)
      → v.recordnum < u32_mod
      → v.total < u16_mod
      → All (λ n. n ≢ codes "incount") others
      → read_pedestrian o (inserted o (pedestrian_table o) others v)
        ≡ err (o.invalid_column_name (codes "incount"))
  unfolding read_pedestrian bind column text_eq
  read_pedestrian-inserted others v recordnum-lt total-lt h =
      rw
        (
          laws.as_u32-of_u32 v.recordnum recordnum-lt,
          laws.as_date-of_date v.date,
          laws.as_datetime-of_datetime v.time,
          laws.as_u16-of_u16 v.total total-lt,
          column-others others (codes "incount") _ h,
        )
        refl
