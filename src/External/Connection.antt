-- ===== src/External/Connection.antt =====
-- A connection of the crate oracle to the database: its calls change a state, and may fail. `Level`
-- is that of the crate log.
use starnext_import.External.Chrono.{Chrono}
use starnext_import.External.Float.{Float}
use starnext_import.External.Oracle.{Oracle}
use starnext_import.Prelude.Text.{Text}
use starnext_import.Prelude.{ℕ, List, Option, Outcome}

pub data Level : Type 0 where
  error warn info : Level

-- The statements of the program: the rows of a table whose field is a number are deleted; a row is
-- inserted; rows of a table are updated by a clause; a stored procedure is called with a number.
pub data Statement (SqlValue : Type 0) : Type 0 where
  delete_from : Text → Text → ℕ → Statement SqlValue
  insert_into : Text → List (Text × SqlValue) → Statement SqlValue
  update : Text → Text → List SqlValue → Statement SqlValue
  call : Text → ℕ → Statement SqlValue

-- The result of a call that gives no value: `none` is `Ok(())`.
pub record Connection ⦃c : Chrono⦄ ⦃f : Float⦄ (o : Oracle c f) : Type 1 where
  pub State : Type 0
  -- `conn.statement(sql).build()`, for the insertion into the columns of a table
  pub prepare : Text → List Text → State → Option o.OracleError
  pub execute : Statement o.SqlValue → State → Option o.OracleError × State
  -- `insert into {table} … returning recordnum into :recordnum`, with placeholders for the columns and
  -- the values that are bound: what `stmt.returned_values("recordnum")` gives if it succeeds
  pub execute_returning :
      Text
      → List Text
      → List o.SqlValue
      → State
      → Outcome o.OracleError (Outcome o.OracleError (List ℕ)) × State
  pub commit : State → Option o.OracleError × State
  -- `query_as` and `query_row_as` of a statement with its values, before a row is converted
  pub query :
      Text
      → List o.SqlValue
      → State
      → Outcome o.OracleError (List (Outcome o.OracleError (List o.SqlValue))) × State
  pub query_row : Text → List o.SqlValue → State → Outcome o.OracleError (List o.SqlValue) × State
  -- `query_as` of `select * from {table} where {field} = :1`, with the names of the columns
  pub select_from :
      Text
      → Text
      → ℕ
      → State
      → Outcome o.OracleError (List (Outcome o.OracleError (List (Text × o.SqlValue)))) × State
  -- `level.to_string()`
  pub level_text : Level → Text
