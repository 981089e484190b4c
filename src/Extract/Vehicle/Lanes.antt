-- ===== src/Extract/Vehicle/Lanes.antt =====
-- The counts that `FifteenMinuteVehicle::extract` of src/extract_from_file.rs makes of each row.
use starnext_import.External.Chrono.{Chrono}
use starnext_import.Extract.Rows.{Opened, data_rows, date_and_time}
use starnext_import.Extract.Vehicle.{
  extract, extract_row, push_lane, push_lane_if, new_fifteen_minute_vehicle,
}
use starnext_import.FieldMetadata.{FieldMetadata, from_path}
use starnext_import.Prelude.FilePath.{FilePath}
use starnext_import.Prelude.Text.{Text, codes, parse_uint}
use mathlib.Core.Path.{subst}
use starnext_import.Prelude.{
  ℕ, ◌≡◌, ◌∙◌, refl, ap, sym, List, [], ◌∷◌, ◌++◌, map, Option, none, some, Outcome, ok, err, panic,
  running, unwrap_ok, map_err, ◌>>=◌, >>=-eq-ok, fold_loop, get_elem?, u16_mod,
}
use starnext_import.Records.{FifteenMinuteVehicle}
use starnext_import.Types.Direction.{Directions, LaneDirection}
use starnext_import.Types.Errors.{parse_error, direction_len_mismatch}

-- A count to be made: the index of a cell, its lane and its direction.
pub record LaneCell : Type 0 where
  pub index : ℕ
  pub lane : ℕ
  pub direction : LaneDirection

-- The cells of lane 1, and of lanes 2 and 3 if they have a direction, from the fourth column on.
abbrev pub lane_cell : ℕ → ℕ → Option LaneDirection → List LaneCell
lane_cell index lane none = []
lane_cell index lane (some d) = record { index = index; lane = lane; direction = d } ∷ []

abbrev pub lane_cells : Directions → List LaneCell
lane_cells ds =
    lane_cell 3 1 (some ds.direction1) ++ lane_cell 4 2 ds.direction2 ++ lane_cell 5 3 ds.direction3

-- Two lists have the same length, and their items at each index are related.
abbrev pub Pairwise : {A B : Type 0} → (A → B → Type 0) → List A → List B → Type 0
Pairwise R [] [] = Unit
Pairwise R [] (y ∷ ys) = ⊥
Pairwise R (x ∷ xs) [] = ⊥
Pairwise R (x ∷ xs) (y ∷ ys) = R x y × Pairwise R xs ys

Pairwise-append :
    {A B : Type 0} (R : A → B → Type 0) (xs xs' : List A) (ys ys' : List B)
    → Pairwise R xs ys
    → Pairwise R xs' ys'
    → Pairwise R (xs ++ xs') (ys ++ ys')
Pairwise-append R [] xs' [] ys' h k = k
Pairwise-append R [] xs' (y ∷ ys) ys' h k = absurd h
Pairwise-append R (x ∷ xs) xs' [] ys' h k = absurd h
Pairwise-append R (x ∷ xs) xs' (y ∷ ys) ys' h k = (h.0, Pairwise-append R xs xs' ys ys' h.1 k)

-- The cells of all rows, in order.
abbrev pub cells_of :
    Directions → List (Outcome Text (List Text)) → List (Outcome Text (List Text) × LaneCell)
cells_of ds [] = []
cells_of ds (row ∷ rows) = map (λ cell. (row, cell)) (lane_cells ds) ++ cells_of ds rows

append_assoc {ℓ} : {A : Type ℓ} (xs ys zs : List A) → (xs ++ ys) ++ zs ≡ xs ++ (ys ++ zs)
append_assoc [] ys zs = refl
append_assoc (x ∷ xs) ys zs = ap (λ vs. x ∷ vs) (append_assoc xs ys zs)

append_nil {ℓ} : {A : Type ℓ} (xs : List A) → xs ++ [] ≡ xs
append_nil [] = refl
append_nil (x ∷ xs) = ap (λ ys. x ∷ ys) (append_nil xs)

unwrapped_ok :
    {A : Type 0} {D E : Type 0} {v : A} (m : Outcome D A)
    → ◌≡◌ {A = Outcome E A} (unwrap_ok m) (ok v)
    → m ≡ ok v
unwrapped_ok (ok a) h = cc
unwrapped_ok (err e) h = cc
unwrapped_ok panic h = cc
unwrapped_ok running h = cc

mapped_ok : {A D E : Type 0} (f : D → E) {v : A} (m : Outcome D A) → map_err f m ≡ ok v → m ≡ ok v
mapped_ok f (ok a) h = cc
mapped_ok f (err e) h = cc
mapped_ok f panic h = cc
mapped_ok f running h = cc

map-append : {A B : Type 0} (f : A → B) (xs ys : List A) → map f (xs ++ ys) ≡ map f xs ++ map f ys
map-append f [] ys = refl
map-append f (x ∷ xs) ys = ap (λ zs. f x ∷ zs) (map-append f xs ys)

module _ ⦃c : Chrono⦄ where
  -- The count of a cell of a row: its lane and direction, the number in the cell, the date and the time
  -- of the row, and the record number of the file.
  pub record IsCountOf (r : ℕ) (at_cell : Outcome Text (List Text) × LaneCell)
      (v : FifteenMinuteVehicle) : Type 0 where
    pub cells : List Text
    pub word : Text
    pub clock : c.NaiveTime
    pub row : at_cell.0 ≡ ok cells
    pub cell : get_elem? cells at_cell.1.index ≡ some word
    pub number : parse_uint u16_mod word ≡ ok v.count
    pub moment : date_and_time (codes "%-I:%M %P") at_cell.0 ≡ ok (v.date, clock)
    pub time : v.time ≡ c.datetime v.date clock
    pub lane : v.lane ≡ some at_cell.1.lane
    pub direction : v.direction ≡ some at_cell.1.direction
    pub recordnum : v.recordnum ≡ r

  -- The counts grow by those of the cells.
  pub record Grows (r : ℕ) (cells : List (Outcome Text (List Text) × LaneCell))
      (before after : List FifteenMinuteVehicle) : Type 0 where
    pub made : List FifteenMinuteVehicle
    pub appended : after ≡ before ++ made
    pub each : Pairwise (IsCountOf r) cells made

  Grows-then :
      (r : ℕ) (xs ys : List (Outcome Text (List Text) × LaneCell))
      (a b d : List FifteenMinuteVehicle)
      → Grows r xs a b
      → Grows r ys b d
      → Grows r (xs ++ ys) a d
  Grows-then r xs ys a b d g h = record {
    made = g.made ++ h.made;
    appended = h.appended ∙ ap (λ zs. zs ++ h.made) g.appended ∙ append_assoc a g.made h.made;
    each = Pairwise-append (IsCountOf r) xs ys g.made h.made g.each h.each;
  }

  Grows-none : (r : ℕ) (a : List FifteenMinuteVehicle) → Grows r [] a a
  Grows-none r a = record { made = []; appended = sym (append_nil a); each = tt }

  module _ (path : FilePath) (r : ℕ) (row : Outcome Text (List Text)) (date : c.NaiveDate)
      (clock : c.NaiveTime)
      (moment : date_and_time (codes "%-I:%M %P") row ≡ ok (date, clock)) where
    push_lane-Grows :
        (i : ℕ) (d : LaneDirection) (lane : ℕ) (counts : List FifteenMinuteVehicle)
        {counts' : List FifteenMinuteVehicle}
        → push_lane path r date (c.datetime date clock) row i d lane counts ≡ ok counts'
        → Grows r ((row, record { index = i; lane = lane; direction = d }) ∷ []) counts counts'
    unfolding push_lane
    push_lane-Grows i d lane counts h =
        let (cells, ec, h1) = >>=-eq-ok (unwrap_ok row) _ h in
        found cells (unwrapped_ok row ec) (get_elem? cells i) refl h1
      where
        found :
            (cells : List Text)
            → row ≡ ok cells
            → (o : Option Text) → get_elem? cells i ≡ o
            → {counts' : List FifteenMinuteVehicle}
            → (elim o [
              | none ↦ err (direction_len_mismatch path)
              | some word ↦
                  (map_err parse_error (parse_uint u16_mod word) >>= λ count. ok (
                    counts
                    ++ new_fifteen_minute_vehicle r date
                        (c.datetime date clock)
                        count
                        (some d)
                        (some lane)
                      ∷ []))
            ])
              ≡ ok counts'
            → Grows r ((row, record { index = i; lane = lane; direction = d }) ∷ []) counts counts'
        found cells ec none ew h = cc
        found cells ec (some w) ew h =
            let (n, en, h2) = >>=-eq-ok (map_err parse_error (parse_uint u16_mod w)) _ h in
            record {
              made =
                  new_fifteen_minute_vehicle r date (c.datetime date clock) n (some d) (some lane)
                  ∷ [];
              appended = cc;
              each = (
                record {
                  cells = cells;
                  word = w;
                  clock = clock;
                  row = ec;
                  cell = ew;
                  number = mapped_ok parse_error (parse_uint u16_mod w) en;
                  moment = moment;
                  time = refl;
                  lane = refl;
                  direction = refl;
                  recordnum = refl;
                },
                tt,
              );
            }

    push_lane_if-Grows :
        (i : ℕ) (o : Option LaneDirection) (lane : ℕ) (counts : List FifteenMinuteVehicle)
        {counts' : List FifteenMinuteVehicle}
        → push_lane_if path r date (c.datetime date clock) row i o lane counts ≡ ok counts'
        → Grows r (map (λ cell. (row, cell)) (lane_cell i lane o)) counts counts'
    unfolding push_lane_if
    push_lane_if-Grows i none lane counts h = record {
      made = [];
      appended = sym (cc) ∙ sym (append_nil counts);
      each = tt;
    }
    push_lane_if-Grows i (some d) lane counts h = push_lane-Grows i d lane counts h

  extract_row-Grows :
      (path : FilePath) (m : FieldMetadata) (counts : List FifteenMinuteVehicle)
      (row : Outcome Text (List Text)) {counts' : List FifteenMinuteVehicle}
      → extract_row path m counts row ≡ ok counts'
      → Grows m.recordnum (map (λ cell. (row, cell)) (lane_cells m.directions)) counts counts'
  unfolding extract_row
  extract_row-Grows path m counts row {counts' = counts'} h =
      let ((date, time), et, h1) = >>=-eq-ok (date_and_time (codes "%-I:%M %P") row) _ h in
      let (c1, e1, h2) =
        >>=-eq-ok
          (push_lane path m.recordnum date (c.datetime date time) row 3 m.directions.direction1 1
            counts)
          _ h1 in
      let (c2, e2, h3) =
        >>=-eq-ok
          (push_lane_if path m.recordnum date (c.datetime date time) row 4 m.directions.direction2 2
            c1)
          _ h2 in
      let cells : ℕ → ℕ → Option LaneDirection → List (Outcome Text (List Text) × LaneCell) =
        λ i lane o. map (λ cell. (row, cell)) (lane_cell i lane o) in
      rw
        (map-append {B = Outcome Text (List Text) × LaneCell} (λ cell. (row, cell))
          (lane_cell 4 2 m.directions.direction2) (lane_cell 5 3 m.directions.direction3))
        (Grows-then m.recordnum (cells 3 1 (some m.directions.direction1))
          (cells 4 2 m.directions.direction2 ++ cells 5 3 m.directions.direction3) counts c1 counts'
          (push_lane-Grows path m.recordnum row date time et 3 m.directions.direction1 1 counts e1)
          (Grows-then m.recordnum (cells 4 2 m.directions.direction2)
            (cells 5 3 m.directions.direction3) c1 c2 counts'
            (push_lane_if-Grows path m.recordnum row date time et 4 m.directions.direction2 2 c1 e2)
            (push_lane_if-Grows path m.recordnum row date time et 5 m.directions.direction3 3 c2
              h3)))

  extract_rows-Grows :
      (path : FilePath) (m : FieldMetadata) (rows : List (Outcome Text (List Text)))
      (counts : List FifteenMinuteVehicle) {counts' : List FifteenMinuteVehicle}
      → fold_loop (extract_row path m) rows counts ≡ ok counts'
      → Grows m.recordnum (cells_of m.directions rows) counts counts'
  unfolding fold_loop
  extract_rows-Grows path m [] counts h = record {
    made = [];
    appended = sym (cc) ∙ sym (append_nil counts);
    each = tt;
  }
  extract_rows-Grows path m (row ∷ rows) counts {counts' = counts'} h =
      let (c1, e1, h1) = >>=-eq-ok (extract_row path m counts row) _ h in
      Grows-then m.recordnum _ (cells_of m.directions rows) counts c1 counts'
        (extract_row-Grows path m counts row e1) (extract_rows-Grows path m rows c1 h1)

  -- If a file is extracted, its name was accepted, its header was found, and its counts are, in order,
  -- one for each row of data and each lane that has a direction: the number in the column of the lane,
  -- with the lane and its direction, the date and the time of the row and the number of the file.
  pub extract-Lanes :
      (path : FilePath) (file : Opened) (counts : List FifteenMinuteVehicle)
      → extract path (ok file) ≡ ok counts
      → (m : FieldMetadata) × (rows : List (Outcome Text (List Text))) × (from_path path ≡ ok m)
        × (data_rows path file ≡ ok rows)
        × Pairwise (IsCountOf m.recordnum) (cells_of m.directions rows) counts
  unfolding extract
  extract-Lanes path file counts h =
      let (m, em, h1) = >>=-eq-ok (from_path path) _ h in
      let (rows, er, h2) = >>=-eq-ok (data_rows path file) _ h1 in
      let grown = extract_rows-Grows path m rows [] h2 in
      (
        m,
        rows,
        em,
        er,
        subst (Pairwise (IsCountOf m.recordnum) (cells_of m.directions rows)) (sym grown.appended)
            grown.each,
      )
