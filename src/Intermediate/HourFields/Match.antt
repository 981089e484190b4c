-- ===== src/Intermediate/HourFields/Match.antt =====
-- The match over the hour, read against the list of the fields.
use starnext_import.Intermediate.HourFields.{HourFields, change_hour, change_at, hour_list}
use starnext_import.Prelude.{ℕ, zero, suc, ◌≡◌, refl, ◌==◌, ap, ◌≤◌, ltb, true, false, arith}

-- Each number below `k` on its own, and all others.
abbrev Cases : (ℕ → Type 0) → ℕ → Type 0
Cases P zero = (n : ℕ) → P n
Cases P (suc k) = P zero × Cases (λ n. P (suc n)) k

by_cases : (P : ℕ → Type 0) (k : ℕ) → Cases P k → (n : ℕ) → P n
by_cases P zero c n = c n
by_cases P (suc k) c zero = c.0
by_cases P (suc k) c (suc n) = by_cases (λ m. P (suc m)) k c.1 n

not_hour : (hour k : ℕ) → 24 ≤ hour → ltb k 24 ≡ true → (hour == k) ≡ false
not_hour hour k past h = ground arith

module _ {A : Type 0} where
  -- An hour past 23 changes nothing.
  change_hour_past :
      (hour : ℕ) (f : A → A) (v : HourFields A) → 24 ≤ hour → change_hour hour f v ≡ v
  unfolding change_hour
  change_hour_past hour f v past =
      rw
        (
          not_hour hour 0 past refl,
          not_hour hour 1 past refl,
          not_hour hour 2 past refl,
          not_hour hour 3 past refl,
          not_hour hour 4 past refl,
          not_hour hour 5 past refl,
          not_hour hour 6 past refl,
          not_hour hour 7 past refl,
          not_hour hour 8 past refl,
          not_hour hour 9 past refl,
          not_hour hour 10 past refl,
          not_hour hour 11 past refl,
          not_hour hour 12 past refl,
          not_hour hour 13 past refl,
          not_hour hour 14 past refl,
          not_hour hour 15 past refl,
          not_hour hour 16 past refl,
          not_hour hour 17 past refl,
          not_hour hour 18 past refl,
          not_hour hour 19 past refl,
          not_hour hour 20 past refl,
          not_hour hour 21 past refl,
          not_hour hour 22 past refl,
          not_hour hour 23 past refl,
        )
        refl

  -- The match changes the field of its hour, and no other.
  pub hour_list-change_hour :
      (hour : ℕ) (f : A → A) (v : HourFields A)
      → hour_list (change_hour hour f v) ≡ change_at hour f (hour_list v)
  unfolding change_hour
  hour_list-change_hour hour f v =
      by_cases (λ n. hour_list (change_hour n f v) ≡ change_at n f (hour_list v)) 24
        (
          refl,
          (
            refl,
            (
              refl,
              (
                refl,
                (
                  refl,
                  (
                    refl,
                    (
                      refl,
                      (
                        refl,
                        (
                          refl,
                          (
                            refl,
                            (
                              refl,
                              (
                                refl,
                                (
                                  refl,
                                  (
                                    refl,
                                    (
                                      refl,
                                      (
                                        refl,
                                        (
                                          refl,
                                          (
                                            refl,
                                            (
                                              refl,
                                              (
                                                refl,
                                                (
                                                  refl,
                                                  (
                                                    refl,
                                                    (
                                                      refl,
                                                      (
                                                        refl,
                                                        λ n. ap hour_list (
                                                            change_hour_past
                                                            (suc (
                                                            suc (
                                                            suc (
                                                            suc (
                                                            suc (
                                                            suc (
                                                            suc (
                                                            suc (
                                                            suc (
                                                            suc (
                                                            suc (
                                                            suc (
                                                            suc (
                                                            suc (
                                                            suc (
                                                            suc (
                                                            suc (
                                                            suc (
                                                            suc (
                                                            suc (
                                                            suc
                                                            (suc (suc (suc n))))))))))))))))))))))))
                                                            f v (omega arith)),
                                                      ),
                                                    ),
                                                  ),
                                                ),
                                              ),
                                            ),
                                          ),
                                        ),
                                      ),
                                    ),
                                  ),
                                ),
                              ),
                            ),
                          ),
                        ),
                      ),
                    ),
                  ),
                ),
              ),
            ),
          ),
        )
        hour
