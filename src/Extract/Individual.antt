-- ===== src/Extract/Individual.antt =====
-- `IndividualVehicle::extract` and `IndividualBicycle::extract` of src/extract_from_file.rs.
use starnext_import.External.Chrono.{Chrono}
use starnext_import.External.Float.{Float}
use starnext_import.Extract.Rows.{Opened, data_rows, column, number, date_and_time}
use starnext_import.Prelude.FilePath.{FilePath}
use starnext_import.Prelude.Text.{Text, codes}
use starnext_import.Prelude.{
  ℕ, ◌+◌, ◌≡◌, ◌∙◌, ap, sym, List, [], ◌∷◌, ◌++◌, Bool, true, false, Outcome, ok, err, panic,
  running, unwrap, map_err, ◌>>=◌, >>=-eq-ok, fold_loop, length, length-append, u8_mod, u16_mod,
  arith, if◌then◌else◌, ◌==◌, leb, sum_by, Bool-cases, inl, inr,
}
use starnext_import.Records.{IndividualVehicle, IndividualBicycle, new_vehicle, new_bicycle}
use starnext_import.Types.Errors.{CountError, cannot_open_file}
use starnext_import.Types.VehicleClass.{VehicleClass, Numbered, from_num, from_num-Numbered}

-- `match … { Ok(v) => counts.push(v), Err(e) => continue }`.
abbrev pub push_or_skip {ℓ} :
    {A : Type ℓ} → List A → Outcome CountError A → Outcome CountError (List A)
push_or_skip counts (ok v) = ok (counts ++ v ∷ [])
push_or_skip counts (err e) = ok counts
push_or_skip counts panic = panic
push_or_skip counts running = running

module _ ⦃c : Chrono⦄ ⦃f : Float⦄ where
  -- A round of the loop over the rows: lane, class and speed are columns 3, 4 and 5.
  unfoldable pub vehicle_row :
      List IndividualVehicle
      → Outcome Text (List Text)
      → Outcome CountError (List IndividualVehicle)
  unfolding new_vehicle
  vehicle_row counts row = do
    (count_date, count_time) ← date_and_time (codes "%-I:%M:%S %P") row
    let datetime = c.datetime count_date count_time
    lane ← number u8_mod row 3
    class ← number u8_mod row 4
    word ← column row 5
    speed ← unwrap (f.parse word)
    push_or_skip counts (new_vehicle count_date datetime lane class speed)

  unfoldable pub extract_vehicles :
      FilePath → Outcome Text Opened → Outcome CountError (List IndividualVehicle)
  unfolding vehicle_row data_rows
  extract_vehicles path file = do
    file ← map_err cannot_open_file file
    rows ← data_rows path file
    fold_loop vehicle_row rows []

module _ ⦃c : Chrono⦄ where
  -- The part of a round behind the test on the class.
  unfoldable pub bicycle_of_row :
      List IndividualBicycle
      → Outcome Text (List Text)
      → Outcome CountError (List IndividualBicycle)
  bicycle_of_row counts row = do
    (count_date, count_time) ← date_and_time (codes "%-I:%M:%S %P") row
    let datetime = c.datetime count_date count_time
    lane ← number u8_mod row 3
    push_or_skip counts (new_bicycle count_date datetime lane)

  -- A round of the loop over the rows: only class 14 is a bicycle.
  unfoldable pub bicycle_row :
      List IndividualBicycle
      → Outcome Text (List Text)
      → Outcome CountError (List IndividualBicycle)
  unfolding bicycle_of_row
  bicycle_row counts row = do
    class ← number u16_mod row 4
    let counted = bicycle_of_row counts row
    if class == 14 then counted else ok counts

  unfoldable pub extract_bicycles :
      FilePath → Outcome Text Opened → Outcome CountError (List IndividualBicycle)
  unfolding bicycle_row data_rows
  extract_bicycles path file = do
    file ← map_err cannot_open_file file
    rows ← data_rows path file
    fold_loop bicycle_row rows []

-- 1 for a row whose class passes the test, and 0 for any other.
abbrev pub classed : ℕ → (ℕ → Bool) → Outcome Text (List Text) → ℕ
classed bound test row = elim (number bound row 4) [ ok n ↦ if test n then 1 else 0 | _ ↦ 0 ]

-- A loop that pushes at most one item for each row, if it does so as `here` counts.
rows-length {ℓ} :
    {A : Type ℓ} (here : Outcome Text (List Text) → ℕ)
    (body : List A → Outcome Text (List Text) → Outcome CountError (List A))
    → ((counts counts' : List A) (row : Outcome Text (List Text))
        → body counts row ≡ ok counts'
        → length counts' ≡ length counts + here row)
    → (rows : List (Outcome Text (List Text))) (counts counts' : List A)
    → fold_loop body rows counts ≡ ok counts'
    → length counts' ≡ length counts + sum_by here rows
unfolding fold_loop
rows-length {A = A} here body step [] counts counts' h =
    let e : counts ≡ counts' = cc in sym (ap length e) ∙ omega arith
rows-length here body step (row ∷ rows) counts counts' h =
    let (c1, e1, h1) = >>=-eq-ok (body counts row) _ h in
    let now = step counts c1 row e1 in
    let later = rows-length here body step rows c1 counts' h1 in omega (arith, now, later)

pushed {ℓ} :
    {A : Type ℓ} (counts counts' : List A) (x : A)
    → ◌≡◌ {A = Outcome CountError (List A)} (ok (counts ++ x ∷ [])) (ok counts')
    → length counts' ≡ length counts + 1
pushed counts counts' x h =
    let e : counts ++ x ∷ [] ≡ counts' = cc in sym (ap length e) ∙ length-append counts (x ∷ [])

module _ ⦃c : Chrono⦄ where
  bicycle_of_row-length :
      (counts counts' : List IndividualBicycle) (row : Outcome Text (List Text))
      → bicycle_of_row counts row ≡ ok counts'
      → length counts' ≡ length counts + 1
  unfolding bicycle_of_row
  bicycle_of_row-length counts counts' row h =
      let ((date, time), et, h1) = >>=-eq-ok (date_and_time (codes "%-I:%M:%S %P") row) _ h in
      let (lane, el, h2) = >>=-eq-ok (number u8_mod row 3) _ h1 in
      pushed counts counts' (record { date = date; time = c.datetime date time; lane = lane }) h2

  bicycle_row-length :
      (counts counts' : List IndividualBicycle) (row : Outcome Text (List Text))
      → bicycle_row counts row ≡ ok counts'
      → length counts' ≡ length counts + classed u16_mod (λ n. n == 14) row
  unfolding bicycle_row
  bicycle_row-length counts counts' row h =
      let (class, ec, h1) = >>=-eq-ok (number u16_mod row 4) _ h in
      elim (Bool-cases (class == 14)) [
        | inl bicycle ↦
            rw (ec, classed, bicycle) (bicycle_of_row-length counts counts' row (rw bicycle at h1))
        | inr other ↦
            let e : ◌≡◌ {A = Outcome CountError (List IndividualBicycle)} (ok counts) (ok counts') =
              rw other at h1 in
            let same : counts ≡ counts' = cc in
            rw (ec, classed, other) (sym (ap length same) ∙ omega arith)
      ]

  -- If a file of bicycles is extracted, there is one bicycle for each row of data of class 14.
  pub extract_bicycles-length :
      (path : FilePath) (file : Opened) (counts : List IndividualBicycle)
      → extract_bicycles path (ok file) ≡ ok counts
      → (rows : List (Outcome Text (List Text))) × (data_rows path file ≡ ok rows)
        × (length counts ≡ sum_by (classed u16_mod (λ n. n == 14)) rows)
  unfolding extract_bicycles
  extract_bicycles-length path file counts h =
      let (rows, er, h1) = >>=-eq-ok (data_rows path file) _ h in
      let total =
        rows-length (classed u16_mod (λ n. n == 14)) bicycle_row bicycle_row-length rows [] counts
          h1 in
      (rows, er, omega (arith, total))

module _ ⦃c : Chrono⦄ ⦃f : Float⦄ where
  push_vehicle-length :
      (counts counts' : List IndividualVehicle) (date : c.NaiveDate) (time : c.NaiveDateTime)
      (lane class : ℕ) (speed : f.F32) (r : Outcome CountError VehicleClass)
      → Numbered class r
      → push_or_skip counts (
          r >>= λ k.
          ok (record { date = date; time = time; lane = lane; class = k; speed = speed }))
        ≡ ok counts'
      → length counts' ≡ length counts + (if leb class 15 then 1 else 0)
  push_vehicle-length counts counts' date time lane class speed (ok k) n h =
      let accepted : leb class 15 ≡ true = ground (arith, n.0) in
      rw accepted (
        pushed counts counts'
          (record { date = date; time = time; lane = lane; class = k; speed = speed }) h)
  push_vehicle-length counts counts' date time lane class speed (err e) n h =
      let refused : leb class 15 ≡ false = ground (arith, n.0) in
      let same : counts ≡ counts' = cc in rw refused (sym (ap length same) ∙ omega arith)
  push_vehicle-length counts counts' date time lane class speed panic n h = absurd n
  push_vehicle-length counts counts' date time lane class speed running n h = absurd n

  vehicle_row-length :
      (counts counts' : List IndividualVehicle) (row : Outcome Text (List Text))
      → vehicle_row counts row ≡ ok counts'
      → length counts' ≡ length counts + classed u8_mod (λ n. leb n 15) row
  unfolding vehicle_row new_vehicle
  vehicle_row-length counts counts' row h =
      let ((date, time), et, h1) = >>=-eq-ok (date_and_time (codes "%-I:%M:%S %P") row) _ h in
      let (lane, el, h2) = >>=-eq-ok (number u8_mod row 3) _ h1 in
      let (class, ec, h3) = >>=-eq-ok (number u8_mod row 4) _ h2 in
      let (word, ew, h4) = >>=-eq-ok (column row 5) _ h3 in
      let (speed, es, h5) = >>=-eq-ok (unwrap (f.parse word)) _ h4 in
      rw (ec, classed)
        (push_vehicle-length counts counts' date (c.datetime date time) lane class speed
          (from_num class) (from_num-Numbered class) h5)

  -- If a file of vehicles is extracted, there is one vehicle for each row of data whose class is at
  -- most 15: the others are skipped.
  pub extract_vehicles-length :
      (path : FilePath) (file : Opened) (counts : List IndividualVehicle)
      → extract_vehicles path (ok file) ≡ ok counts
      → (rows : List (Outcome Text (List Text))) × (data_rows path file ≡ ok rows)
        × (length counts ≡ sum_by (classed u8_mod (λ n. leb n 15)) rows)
  unfolding extract_vehicles
  extract_vehicles-length path file counts h =
      let (rows, er, h1) = >>=-eq-ok (data_rows path file) _ h in
      let total =
        rows-length (classed u8_mod (λ n. leb n 15)) vehicle_row vehicle_row-length rows [] counts
          h1 in
      (rows, er, omega (arith, total))
