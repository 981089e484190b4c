-- ===== src/Checks/Tally.antt =====
-- The totals by direction that `check_vehicle_dir_proportionality` of src/check_data.rs compares.
use starnext_import.Checks.Directions.{add_direction, counts_by_dir, direction_row, text_keys}
use starnext_import.Database.HourQuery.{nth}
use starnext_import.External.Chrono.{Chrono}
use starnext_import.External.Connection.{Connection}
use starnext_import.External.Float.{Float}
use starnext_import.External.Oracle.{Oracle, OracleLaws}
use starnext_import.Prelude.HashMap.{HashMap, lookup, lookup-upsert, modified_or}
use starnext_import.Prelude.Text.{Text, text_eq, text_eq_iff}
use starnext_import.Prelude.{
  ℕ, ◌+◌, ◌%◌, ◌<◌, ◌≡◌, ◌∙◌, refl, Bool-cases, inl, inr, List, [], ◌∷◌, map, Option, none, some,
  ok, fold_loop, if◌then◌else◌, All, sum_by, u32_mod, add_u32, arith,
}

-- The totals of a direction among rows of the table.
unfoldable pub totals : Text → List (ℕ × Text) → List ℕ
totals direction [] = []
totals direction ((total, d) ∷ rows) =
    let rest = totals direction rows in if text_eq direction d then total ∷ rest else rest

-- The sum of the totals, with the first one added once more, at type `u32`.
abbrev pub first_twice : List ℕ → Option ℕ
first_twice [] = none
first_twice (n ∷ ns) = some ((n + (n + sum_by (λ k. k) ns)) % u32_mod)

-- The same for a direction that has a value already.
abbrev onto : Option ℕ → List ℕ → Option ℕ
onto none ns = first_twice ns
onto (some t) [] = some t
onto (some t) (n ∷ ns) = some ((t + (n + sum_by (λ k. k) ns)) % u32_mod)

onto_nil : (o : Option ℕ) → o ≡ onto o []
onto_nil none = refl
onto_nil (some t) = refl

onto-cons :
    (o : Option ℕ) (n : ℕ) (ns : List ℕ)
    → onto (some (modified_or (λ t. add_u32 t n) (add_u32 n n) o)) ns ≡ onto o (n ∷ ns)
onto-cons none n [] = ground arith
onto-cons none n (k ∷ ns) = ground arith
onto-cons (some t) n [] = ground arith
onto-cons (some t) n (k ∷ ns) = ground arith

module _ ⦃c : Chrono⦄ ⦃f : Float⦄ {o : Oracle c f} (laws : OracleLaws o) (conn : Connection o) where
  -- A row of the query: the total and the direction.
  abbrev pub direction_values : ℕ × Text → List o.SqlValue
  direction_values (total, d) = o.of_u32 total ∷ o.of_text d ∷ []

  lookup-add_direction :
      (m : HashMap Text ℕ) (d e : Text) (total : ℕ) (ns : List ℕ)
      → onto (lookup d (add_direction m e total)) ns
        ≡ onto (lookup d m) (if text_eq d e then total ∷ ns else ns)
  unfolding add_direction
  lookup-add_direction m d e total ns = elim (Bool-cases (text_eq d e)) [
    | inl same ↦
        rw
          (
            lookup-upsert d e (λ t. add_u32 t total) (add_u32 total total) m,
            same,
            (text_eq_iff d e).0 same,
          )
          (onto-cons (lookup e m) total ns)
    | inr other ↦ rw (lookup-upsert d e (λ t. add_u32 t total) (add_u32 total total) m, other) refl
  ]

  add_rows :
      (rows : List (ℕ × Text)) (m : HashMap Text ℕ) (d : Text)
      → All (λ row. row.0 < u32_mod) rows
      → (m' : HashMap Text ℕ) × (fold_loop
            (direction_row conn)
            (map (λ row. ok (direction_values row)) rows)
            m
          ≡ ok m')
        × (lookup d m' ≡ onto (lookup d m) (totals d rows))
  unfolding fold_loop direction_row nth totals
  add_rows [] m d h = (m, refl, onto_nil (lookup d m))
  add_rows ((total, e) ∷ rows) m d h =
      let (m', ends, found) = add_rows rows (add_direction m e total) d h.1 in
      (
        m',
        rw (laws.as_u32-of_u32 total h.0, laws.as_text-of_text e) ends,
        found ∙ lookup-add_direction m d e total (totals d rows),
      )

  -- For rows that can be read, the value of a direction that is compared is not the sum of its totals:
  -- the first of them is added twice. There is no value for a direction without a row.
  pub counts_by_dir-first_twice :
      (rows : List (ℕ × Text)) (d : Text)
      → All (λ row. row.0 < u32_mod) rows
      → (m : HashMap Text ℕ) × (counts_by_dir conn
            (ok (map (λ row. ok (direction_values row)) rows))
          ≡ ok m)
        × (lookup d m ≡ first_twice (totals d rows))
  unfolding counts_by_dir lookup
  counts_by_dir-first_twice rows d h = add_rows rows [] d h
