-- ===== src/Intermediate/HourFields/Lookup.antt =====
-- One of the 24 fields, chosen by its hour.
use starnext_import.Intermediate.HourFields.Match.{hour_list-change_hour}
use starnext_import.Intermediate.HourFields.{
  HourFields, all_hours, change_hour, hour_list, change_at,
}
use starnext_import.Prelude.{
  ℕ, zero, suc, ◌<◌, ◌≡◌, ◌∙◌, ap, refl, List, [], ◌∷◌, length, if◌then◌else◌, ◌==◌, arith, All,
}

module _ {A : Type 0} where
  -- The item at an index, and a default past the end.
  abbrev pub item_at : A → ℕ → List A → A
  item_at d h [] = d
  item_at d zero (x ∷ xs) = x
  item_at d (suc h) (x ∷ xs) = item_at d h xs

  -- The field of an hour; a default for 24 and more.
  abbrev pub at_hour : A → ℕ → HourFields A → A
  at_hour d h v = item_at d h (hour_list v)

  item_at-change_at :
      (d : A) (h i : ℕ) (f : A → A) (xs : List A)
      → h < length xs
      → item_at d h (change_at i f xs) ≡ (if h == i then f (item_at d h xs) else item_at d h xs)
  item_at-change_at d h i f [] lt = absurd (omega arith)
  item_at-change_at d zero zero f (x ∷ xs) lt = refl
  item_at-change_at d zero (suc i) f (x ∷ xs) lt = ground arith
  item_at-change_at d (suc h) zero f (x ∷ xs) lt = ground arith
  item_at-change_at d (suc h) (suc i) f (x ∷ xs) lt =
      item_at-change_at d h i f xs (omega arith) ∙ ground arith

  item_at_same : (d : A) (h : ℕ) (xs : List A) → All (λ x. x ≡ d) xs → item_at d h xs ≡ d
  item_at_same d h [] same = refl
  item_at_same d zero (x ∷ xs) same = same.0
  item_at_same d (suc h) (x ∷ xs) same = item_at_same d h xs same.1

  pub at_hour-change_hour :
      (d : A) (h i : ℕ) (f : A → A) (v : HourFields A)
      → h < 24
      → at_hour d h (change_hour i f v) ≡ (if h == i then f (at_hour d h v) else at_hour d h v)
  at_hour-change_hour d h i f v lt =
      ap (item_at d h) (hour_list-change_hour i f v)
      ∙ item_at-change_at d h i f (hour_list v) (omega arith)

  pub at_hour-all_hours : (d : A) (h : ℕ) → at_hour d h (all_hours d) ≡ d
  unfolding all_hours
  at_hour-all_hours d h = item_at_same d h (hour_list (all_hours d)) (
    refl,
    (
      refl,
      (
        refl,
        (
          refl,
          (
            refl,
            (
              refl,
              (
                refl,
                (
                  refl,
                  (
                    refl,
                    (
                      refl,
                      (
                        refl,
                        (
                          refl,
                          (
                            refl,
                            (
                              refl,
                              (
                                refl,
                                (
                                  refl,
                                  (
                                    refl,
                                    (refl, (refl, (refl, (refl, (refl, (refl, (refl, tt))))))),
                                  ),
                                ),
                              ),
                            ),
                          ),
                        ),
                      ),
                    ),
                  ),
                ),
              ),
            ),
          ),
        ),
      ),
    ),
  )
