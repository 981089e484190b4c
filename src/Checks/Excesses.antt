-- ===== src/Checks/Excesses.antt =====
-- When `check_excessive_bicycles` of src/check_data.rs warns.
use starnext_import.Checks.Dispatch.{is_warning}
use starnext_import.Checks.Queries.{
  Excess, check_excessive_bicycles, excess_result, excess_row, excesses,
}
use starnext_import.Checks.{CheckResult, bike_count_max}
use starnext_import.Database.HourQuery.{nth}
use starnext_import.External.Chrono.{Chrono}
use starnext_import.External.Connection.{Connection}
use starnext_import.External.FileSystem.{Formats}
use starnext_import.External.Float.{Float}
use starnext_import.External.Oracle.{Oracle, OracleLaws}
use starnext_import.Prelude.Text.{codes}
use starnext_import.Prelude.{
  ℕ, ◌<◌, ◌≡◌, ◌∙◌, refl, ap, Bool, true, false, ◌||◌, List, [], ◌∷◌, ◌++◌, map, ok, fold_loop,
  if◌then◌else◌, ltb, All, u32_mod, arith,
}

-- A row of the query: date, moment, and the bicycles in and out.
abbrev pub BikeRow : ⦃c : Chrono⦄ → Type 0
BikeRow ⦃c⦄ = c.NaiveDate × c.NaiveDateTime × ℕ × ℕ

-- Some row has more than 20 bicycles in one direction.
abbrev pub any_excess : ⦃c : Chrono⦄ → List BikeRow → Bool
any_excess ⦃c⦄ [] = false
any_excess ⦃c⦄ ((d, t, i, n) ∷ rows) = (ltb 20 i || ltb 20 n) || any_excess rows

abbrev has_items : {A : Type 0} → List A → Bool
has_items [] = false
has_items (x ∷ xs) = true

has_items-snoc : {A : Type 0} (xs : List A) (y : A) → has_items (xs ++ y ∷ []) ≡ true
has_items-snoc [] y = refl
has_items-snoc (x ∷ xs) y = refl

-- One item is added under each of two tests.
abbrev two_tests : {A : Type 0} → Bool → Bool → A → A → List A → List A
two_tests p q a b xs =
    let with_a = if p then xs ++ a ∷ [] else xs in if q then with_a ++ b ∷ [] else with_a

has_items-two_tests :
    {A : Type 0} (p q : Bool) (a b : A) (xs : List A)
    → has_items (two_tests p q a b xs) ≡ has_items xs || (p || q)
has_items-two_tests true true a b xs = rw (has_items-snoc (xs ++ a ∷ []) b) or_true
  where
    or_true : true ≡ has_items xs || true
    or_true = ground arith
has_items-two_tests true false a b xs = rw (has_items-snoc xs a) (ground arith)
has_items-two_tests false true a b xs = rw (has_items-snoc xs b) (ground arith)
has_items-two_tests false false a b xs = ground arith

or_assoc : (a b d : Bool) → (a || b) || d ≡ a || (b || d)
or_assoc a b d = ground arith

module _ ⦃c : Chrono⦄ ⦃f : Float⦄ {o : Oracle c f} (laws : OracleLaws o) (conn : Connection o) where
  abbrev pub bike_values : BikeRow → List o.SqlValue
  bike_values (d, t, i, n) = o.of_date d ∷ o.of_datetime t ∷ o.of_u32 i ∷ o.of_u32 n ∷ []

  -- The volumes fit their type.
  abbrev pub FitsBikes : BikeRow → Type 0
  FitsBikes (d, t, i, n) = (i < u32_mod) × (n < u32_mod)

  module _ (formats : Formats) where
    -- The list of excesses after the loop.
    loop :
        (rows : List BikeRow) (excessive : List Excess)
        → All FitsBikes rows
        → (result : List Excess) × (fold_loop
              (excess_row conn)
              (map (λ row. ok (bike_values row)) rows)
              excessive
            ≡ ok result)
          × (has_items result ≡ has_items excessive || any_excess rows)
    unfolding fold_loop excess_row nth
    loop [] excessive h = (excessive, refl, ground arith)
    loop ((d, t, i, n) ∷ rows) excessive h =
        let next =
          two_tests (ltb bike_count_max i) (ltb bike_count_max n) (d, c.time t, i, codes "incount")
            (d, c.time t, n, codes "outcount") excessive in
        let (result, ends, found) = loop rows next h.1 in
        (
          result,
          rw
              (
                laws.as_date-of_date d,
                laws.as_datetime-of_datetime t,
                laws.as_u32-of_u32 i h.0.0,
                laws.as_u32-of_u32 n h.0.1,
              )
              ends,
          found
              ∙ ap (λ b. b || any_excess rows)
                  (has_items-two_tests (ltb bike_count_max i) (ltb bike_count_max n) _ _ excessive)
              ∙ or_assoc (has_items excessive) (ltb 20 i || ltb 20 n) (any_excess rows),
        )

    result-warns :
        (excessive : List Excess)
        → is_warning (excess_result conn formats excessive).level ≡ has_items excessive
    unfolding excess_result
    result-warns [] = refl
    result-warns (e ∷ excessive) = refl

    -- If the query gives rows that can be read, the check ends without error, and it warns exactly if
    -- some row has more than 20 bicycles in or out.
    pub check_excessive_bicycles-Warns :
        (r : ℕ) (s : conn.State) (rows : List BikeRow)
        → All FitsBikes rows
        → (conn.query
            (codes
              "select countdate, counttime, incount, outcount from tc_bikecount where dvrpcnum = :1 order by countdate, counttime")
            (o.of_u32 r ∷ [])
            s).0
          ≡ ok (map (λ row. ok (bike_values row)) rows)
        → (v : CheckResult) × ((check_excessive_bicycles conn formats r s).0 ≡ ok v)
          × (is_warning v.level ≡ any_excess rows)
    unfolding check_excessive_bicycles excesses
    check_excessive_bicycles-Warns r s rows h found =
        let (excessive, ends, warns) = loop rows [] h in
        (
          excess_result conn formats excessive,
          rw (found, ends) refl,
          result-warns excessive ∙ warns,
        )
