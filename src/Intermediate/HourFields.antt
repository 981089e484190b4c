-- ===== src/Intermediate/HourFields.antt =====
-- The 24 hourly fields of the structs of src/intermediate.rs and src/denormalize.rs: counts,
-- average speeds, or lists of raw speeds.
pub mod Match
pub mod Lookup
use starnext_import.Prelude.{
  ℕ, zero, suc, ◌≡◌, refl, List, [], ◌∷◌, ◌==◌, ap, ◌≤◌, ltb, true, false, if◌then◌else◌, arith,
}

pub record HourFields (A : Type 0) : Type 0 where
  pub am12 : A
  pub am1 : A
  pub am2 : A
  pub am3 : A
  pub am4 : A
  pub am5 : A
  pub am6 : A
  pub am7 : A
  pub am8 : A
  pub am9 : A
  pub am10 : A
  pub am11 : A
  pub pm12 : A
  pub pm1 : A
  pub pm2 : A
  pub pm3 : A
  pub pm4 : A
  pub pm5 : A
  pub pm6 : A
  pub pm7 : A
  pub pm8 : A
  pub pm9 : A
  pub pm10 : A
  pub pm11 : A

module _ {A : Type 0} where
  -- The same value in each field, as `Default` gives it.
  unfoldable pub all_hours : A → HourFields A
  all_hours a = record {
    am12 = a;
    am1 = a;
    am2 = a;
    am3 = a;
    am4 = a;
    am5 = a;
    am6 = a;
    am7 = a;
    am8 = a;
    am9 = a;
    am10 = a;
    am11 = a;
    pm12 = a;
    pm1 = a;
    pm2 = a;
    pm3 = a;
    pm4 = a;
    pm5 = a;
    pm6 = a;
    pm7 = a;
    pm8 = a;
    pm9 = a;
    pm10 = a;
    pm11 = a;
  }

  -- `match hour { 0 => am12 = f(am12), … 23 => …, _ => () }`.
  unfoldable pub change_hour : ℕ → (A → A) → HourFields A → HourFields A
  change_hour hour f v =
      if hour == 0
      then record v { am12 = f v.am12 }
      else if hour == 1
      then record v { am1 = f v.am1 }
      else if hour == 2
      then record v { am2 = f v.am2 }
      else if hour == 3
      then record v { am3 = f v.am3 }
      else if hour == 4
      then record v { am4 = f v.am4 }
      else if hour == 5
      then record v { am5 = f v.am5 }
      else if hour == 6
      then record v { am6 = f v.am6 }
      else if hour == 7
      then record v { am7 = f v.am7 }
      else if hour == 8
      then record v { am8 = f v.am8 }
      else if hour == 9
      then record v { am9 = f v.am9 }
      else if hour == 10
      then record v { am10 = f v.am10 }
      else if hour == 11
      then record v { am11 = f v.am11 }
      else if hour == 12
      then record v { pm12 = f v.pm12 }
      else if hour == 13
      then record v { pm1 = f v.pm1 }
      else if hour == 14
      then record v { pm2 = f v.pm2 }
      else if hour == 15
      then record v { pm3 = f v.pm3 }
      else if hour == 16
      then record v { pm4 = f v.pm4 }
      else if hour == 17
      then record v { pm5 = f v.pm5 }
      else if hour == 18
      then record v { pm6 = f v.pm6 }
      else if hour == 19
      then record v { pm7 = f v.pm7 }
      else if hour == 20
      then record v { pm8 = f v.pm8 }
      else if hour == 21
      then record v { pm9 = f v.pm9 }
      else if hour == 22
      then record v { pm10 = f v.pm10 }
      else if hour == 23
      then record v { pm11 = f v.pm11 }
      else v

  -- The fields in the order of the hours.
  abbrev pub hour_list : HourFields A → List A
  hour_list v =
      v.am12 ∷ v.am1 ∷ v.am2 ∷ v.am3 ∷ v.am4 ∷ v.am5 ∷ v.am6 ∷ v.am7 ∷ v.am8 ∷ v.am9 ∷ v.am10
      ∷ v.am11 ∷ v.pm12 ∷ v.pm1 ∷ v.pm2 ∷ v.pm3 ∷ v.pm4 ∷ v.pm5 ∷ v.pm6 ∷ v.pm7 ∷ v.pm8 ∷ v.pm9
      ∷ v.pm10 ∷ v.pm11 ∷ []

  -- The item at an index is changed; past the end nothing is.
  abbrev pub change_at : ℕ → (A → A) → List A → List A
  change_at i f [] = []
  change_at zero f (x ∷ xs) = f x ∷ xs
  change_at (suc i) f (x ∷ xs) = x ∷ change_at i f xs
