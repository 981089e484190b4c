-- ===== src/Database/Session.antt =====
-- What Oracle documents of the statements and transactions of a session, for the tables of counts.
-- `rows` is what the session reads of a table, in the order of insertion, and `committed` what any
-- other session reads. Of the triggers in db_migrations.sql it is only assumed that they fill columns
-- of the row that is inserted, and nothing is assumed of the stored procedures.
use starnext_import.Database.Rows.{Row}
use starnext_import.Database.Tables.{is_count_table, record_field}
use starnext_import.External.Chrono.{Chrono}
use starnext_import.External.Connection.{
  Connection, Statement, delete_from, insert_into, update, call,
}
use starnext_import.External.Float.{Float}
use starnext_import.External.Oracle.{Oracle}
use starnext_import.Prelude.Text.{Text, text_eq, codes}
use mathlib.Core.List.{Permᴰ}
use starnext_import.Prelude.{
  ◌||◌, ℕ, ◌<◌, ◌==◌, List, [], ◌∷◌, ◌++◌, map, ◌≡◌, ◌⊎◌, Bool, true, false, not, none, some,
  Outcome, ok, if◌then◌else◌, u32_mod,
}

-- The items that pass a test.
unfoldable pub filter {ℓ} : {A : Type ℓ} → (A → Bool) → List A → List A
filter keep [] = []
filter keep (x ∷ xs) = let rest = filter keep xs in if keep x then x ∷ rest else rest

module _ ⦃c : Chrono⦄ ⦃f : Float⦄ (o : Oracle c f) (equals : o.SqlValue → ℕ → Bool) where
  -- `where {field} = :1`, on the first column of that name.
  unfoldable pub has_number : Text → ℕ → Row o → Bool
  has_number field r [] = false
  has_number field r ((n, value) ∷ row) =
      if text_eq n field then equals value r else has_number field r row

  -- The rows of a record number in a table of counts, and the others.
  abbrev pub rows_of : Text → ℕ → List (Row o) → List (Row o)
  rows_of table r rows = filter (has_number (record_field table) r) rows

  abbrev pub without : Text → ℕ → List (Row o) → List (Row o)
  without field r rows = filter (λ row. not (has_number field r row)) rows

-- The tables with a trigger that sets the column ID of a new row, in db_migrations.sql.
unfoldable pub has_trigger : Text → Bool
has_trigger t = text_eq (codes "tc_volcount") t || text_eq (codes "tc_15minvolcount") t

-- The statements that change rows. What a stored procedure does is not known here.
abbrev pub is_dml : {V : Type 0} → Statement V → Bool
is_dml (delete_from table field r) = true
is_dml (insert_into table row) = true
is_dml (update table clause values) = true
is_dml (call procedure r) = false

pub record SessionLaws ⦃c : Chrono⦄ ⦃f : Float⦄ {o : Oracle c f} (conn : Connection o)
    : Type 1 where
  pub rows : conn.State → Text → List (Row o)
  pub committed : conn.State → Text → List (Row o)
  -- the comparison of a value with a bound number
  pub equals : o.SqlValue → ℕ → Bool
  -- the columns of a table that no statement names
  pub others : Text → List Text
  pub equals-of_u32 : (n r : ℕ) → n < u32_mod → equals (o.of_u32 n) r ≡ (n == r)
  pub equals-unique : (v : o.SqlValue) (q r : ℕ) → equals v q ≡ true → equals v r ≡ true → q ≡ r
  -- what the database puts in the columns of a table that a statement does not name
  pub left : conn.State → Text → Row o
  -- which is NULL, where no trigger sets another value
  pub left-null :
      (s : conn.State) (t : Text)
      → is_count_table t ≡ true
      → has_trigger t ≡ false
      → left s t ≡ map (λ n. (n, o.null)) (others t)
  -- a statement commits nothing, and changes nothing if it fails
  pub execute-committed :
      (s : conn.State) (stmt : Statement o.SqlValue) (t : Text)
      → is_dml stmt ≡ true
      → is_count_table t ≡ true
      → committed (conn.execute stmt s).1 t ≡ committed s t
  pub execute-some :
      (s : conn.State) (stmt : Statement o.SqlValue) (t : Text) {e : o.OracleError}
      → is_dml stmt ≡ true
      → is_count_table t ≡ true
      → (conn.execute stmt s).0 ≡ some e
      → rows (conn.execute stmt s).1 t ≡ rows s t
  pub delete_from-none :
      (s : conn.State) (table field : Text) (r : ℕ) (t : Text)
      → is_count_table t ≡ true
      → (conn.execute (delete_from table field r) s).0 ≡ none
      → rows (conn.execute (delete_from table field r) s).1 t
        ≡ (if text_eq table t then without o equals field r (rows s t) else rows s t)
  pub insert_into-none :
      (s : conn.State) (table : Text) (row : Row o) (t : Text)
      → is_count_table t ≡ true
      → (conn.execute (insert_into table row) s).0 ≡ none
      → rows (conn.execute (insert_into table row) s).1 t
        ≡ (if text_eq table t then rows s t ++ (row ++ left s table) ∷ [] else rows s t)
  -- a commit that fails leaves each table as it was committed, or as the session reads it
  pub commit-committed :
      (s : conn.State) (t : Text)
      → is_count_table t ≡ true
      → (committed (conn.commit s).1 t ≡ committed s t) ⊎ (committed (conn.commit s).1 t ≡ rows s t)
  pub commit-rows :
      (s : conn.State) (t : Text)
      → is_count_table t ≡ true
      → (rows (conn.commit s).1 t ≡ rows s t) ⊎ (rows (conn.commit s).1 t ≡ committed s t)
  pub commit-none :
      (s : conn.State) (t : Text)
      → is_count_table t ≡ true
      → (conn.commit s).0 ≡ none
      → (committed (conn.commit s).1 t ≡ rows s t) × (rows (conn.commit s).1 t ≡ rows s t)
  -- a query changes no table of counts
  pub query-rows :
      (s : conn.State) (sql : Text) (values : List o.SqlValue) (t : Text)
      → is_count_table t ≡ true
      → (rows (conn.query sql values s).1 t ≡ rows s t)
        × (committed (conn.query sql values s).1 t ≡ committed s t)
  -- a selection that succeeds gives the rows, in any order
  pub select_from-ok :
      (s : conn.State) (table field : Text) (r : ℕ) {results : List (Outcome o.OracleError (Row o))}
      → is_count_table table ≡ true
      → (conn.select_from table field r s).0 ≡ ok results
      → (found : List (Row o)) × (results ≡ map (λ row. ok row) found)
        × Permᴰ found (filter (has_number o equals field r) (rows s table))
