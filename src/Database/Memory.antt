-- ===== src/Database/Memory.antt =====
-- A connection that meets the interface: a value at which the theorems are applied. A table of counts
-- may take a limited number of rows, so that an insertion can fail.
use starnext_import.Database.Session.{SessionLaws, filter, has_number, without}
use mathlib.Core.List.Permᴰ
use starnext_import.Database.Tables.{is_count_table}
use starnext_import.External.Connection.{
  Connection, Statement, delete_from, insert_into, update, call,
}
use starnext_import.External.Instances.{calendar, hundredths}
use starnext_import.External.Memory.{
  OracleError, SqlValue, memory, refused, sql_null, sql_number, sql_text, sql_moment,
}
use starnext_import.Prelude.Text.{Text, codes, text_eq}
use starnext_import.Prelude.{
  ℕ, suc, ◌≡◌, ◌∙◌, ◌==◌, ◌&&◌, ==_iff, sym, List, [], ◌∷◌, ◌++◌, map, refl, Bool, true, false,
  Bool-cases, inl, inr, Option, none, some, Outcome, ok, err, if◌then◌else◌, length, leb,
}

abbrev MemoryRow : Type 0
MemoryRow = List (Text × SqlValue)

pub record Tables : Type 0 where
  pub session : Text → List MemoryRow
  pub stored : Text → List MemoryRow
  pub room : Option ℕ

-- Whether a table with a number of rows takes no further one.
abbrev pub full : Option ℕ → ℕ → Bool
full none n = false
full (some room) n = leb room n

abbrev pub same_number : SqlValue → ℕ → Bool
same_number (sql_number n) r = n == r
same_number _ r = false

-- A table is changed.
unfoldable pub at_table : Text → (List MemoryRow → List MemoryRow) → Tables → Tables
unfolding text_eq
at_table table change s = record s {
  session = λ t. if text_eq table t then change (s.session t) else s.session t;
}

unfoldable pub run : Statement SqlValue → Tables → Option OracleError × Tables
unfolding at_table has_number filter is_count_table
run (delete_from table field r) s = (none, at_table table (without memory same_number field r) s)
run (insert_into table row) s =
    if is_count_table table && full s.room (length (s.session table))
    then (some refused, s)
    else (none, at_table table (λ rows. rows ++ row ∷ []) s)
run (update table clause values) s = (none, s)
run (call procedure r) s = (none, s)

abbrev pub store : Tables → Tables
store s = record s { stored = s.session }

-- Every query for one row finds a bicycle count.
abbrev pub tables : Connection memory
tables = record {
  State = Tables;
  prepare = λ table columns s. none;
  execute = run;
  execute_returning = λ table columns values s.
      (if length values == suc (length columns) then ok (ok (1 ∷ [])) else err refused, s);
  commit = λ s. (none, store s);
  query = λ sql values s. (ok [], s);
  query_row = λ sql values s. (ok (sql_text (codes "Bicycle 1") ∷ []), s);
  select_from = λ table field r s. (
    ok (map (λ row. ok row) (filter (has_number memory same_number field r) (s.session table))),
    s,
  );
  level_text = λ level. codes "level";
}

append_nil : (row : MemoryRow) → row ++ [] ≡ row
append_nil [] = refl
append_nil (x ∷ row) = rw (append_nil row) refl

pub same_number_unique :
    (v : SqlValue) (q r : ℕ) → same_number v q ≡ true → same_number v r ≡ true → q ≡ r
same_number_unique (sql_number n) q r h k = sym ((==_iff n q).0 h) ∙ (==_iff n r).0 k
same_number_unique sql_null q r h k = cc
same_number_unique (sql_text t) q r h k = cc
same_number_unique (sql_moment x) q r h k = cc

pub run-stored :
    (stmt : Statement SqlValue) (s : Tables) (t : Text) → (run stmt s).1.stored t ≡ s.stored t
unfolding run at_table
run-stored (delete_from table field r) s t = refl
run-stored (insert_into table row) s t =
    elim (Bool-cases (is_count_table table && full s.room (length (s.session table)))) [
      | inl e ↦ rw e refl
      | inr e ↦ rw e refl
    ]
run-stored (update table clause values) s t = refl
run-stored (call procedure r) s t = refl

pub run-some :
    (stmt : Statement SqlValue) (s : Tables) (t : Text) {e : OracleError}
    → (run stmt s).0 ≡ some e
    → (run stmt s).1.session t ≡ s.session t
unfolding run at_table
run-some (delete_from table field r) s t h = cc
run-some (insert_into table row) s t h =
    elim (Bool-cases (is_count_table table && full s.room (length (s.session table)))) [
      | inl e ↦ rw e refl
      | inr e ↦ let none_is_some = rw e at h in cc
    ]
run-some (update table clause values) s t h = refl
run-some (call procedure r) s t h = refl

-- Without a limit, every statement succeeds.
pub run-unlimited :
    (stmt : Statement SqlValue) (s : Tables)
    → s.room ≡ none
    → ((run stmt s).0 ≡ none) × ((run stmt s).1.room ≡ none)
unfolding run at_table
run-unlimited (delete_from table field r) s h = (refl, h)
run-unlimited (insert_into table row) s h = elim (Bool-cases (is_count_table table)) [
  | inl e ↦ rw (h, e) (refl, refl)
  | inr e ↦ rw (h, e) (refl, refl)
]
run-unlimited (update table clause values) s h = (refl, h)
run-unlimited (call procedure r) s h = (refl, h)

pub delete-rows :
    (s : Tables) (table field : Text) (r : ℕ) (t : Text)
    → (run (delete_from table field r) s).1.session t
      ≡ (if text_eq table t then without memory same_number field r (s.session t) else s.session t)
unfolding run at_table
delete-rows s table field r t = refl

pub insert-rows :
    (s : Tables) (table : Text) (row : MemoryRow) (t : Text)
    → (run (insert_into table row) s).0 ≡ none
    → (run (insert_into table row) s).1.session t
      ≡ (if text_eq table t then s.session t ++ (row ++ []) ∷ [] else s.session t)
unfolding run at_table
insert-rows s table row t h =
    elim (Bool-cases (is_count_table table && full s.room (length (s.session table)))) [
      | inl e ↦ let some_is_none = rw e at h in cc
      | inr e ↦ rw (e, append_nil row) refl
    ]

pub found :
    {xs results : List (Outcome OracleError MemoryRow)}
    → ◌≡◌ {A = Outcome OracleError (List (Outcome OracleError MemoryRow))} (ok xs) (ok results)
    → results ≡ xs
found h = cc

unfoldable pub tables_laws : SessionLaws tables
tables_laws = record {
  rows = λ s t. s.session t;
  committed = λ s t. s.stored t;
  equals = same_number;
  others = λ t. [];
  equals-of_u32 = λ n r h. refl;
  equals-unique = same_number_unique;
  left = λ s t. [];
  left-null = λ s t listed plain. refl;
  execute-committed = λ s stmt t dml listed. run-stored stmt s t;
  execute-some = λ s stmt t dml listed h. run-some stmt s t h;
  delete_from-none = λ s table field r t listed h. delete-rows s table field r t;
  insert_into-none = λ s table row t listed h. insert-rows s table row t h;
  commit-committed = λ s t listed. inr refl;
  commit-rows = λ s t listed. inl refl;
  commit-none = λ s t listed h. (refl, refl);
  query-rows = λ s sql values t listed. (refl, refl);
  select_from-ok = λ s table field r listed h. (_, found h, Permᴰ.refl _);
}
