-- ===== src/Database/Crud.antt =====
-- The provided methods of the trait `Crud` of src/db/crud.rs, and the calls of its implementations
-- on a connection.
use starnext_import.Database.Rows.{Row, bind}
use starnext_import.Database.Tables.{Crud}
use starnext_import.External.Chrono.{Chrono}
use starnext_import.External.Connection.{Connection, delete_from, insert_into}
use starnext_import.External.Float.{Float}
use starnext_import.External.Oracle.{Oracle}
use starnext_import.Prelude.{
  ℕ, List, [], ◌∷◌, ◌++◌, Option, none, some, Outcome, ok, map_err, ◌>>=◌, fold_loop,
}
use starnext_import.Types.Errors.{CountError, oracle_error}

module _ ⦃c : Chrono⦄ ⦃f : Float⦄ {o : Oracle c f} (conn : Connection o) where
  -- `?` on an error of the database.
  abbrev pub of_oracle : o.OracleError → CountError
  of_oracle e = oracle_error (o.display e)

  -- A statement, and if it succeeds, the commit.
  abbrev pub and_commit : Option o.OracleError × conn.State → Option o.OracleError × conn.State
  and_commit (some e, s) = (some e, s)
  and_commit (none, s) = conn.commit s

  module _ {A : Type 0} (table : Crud o.SqlValue A) where
    unfoldable pub delete : ℕ → conn.State → Option o.OracleError × conn.State
    delete recordnum s =
        and_commit
          (conn.execute (delete_from table.count_table table.count_recordnum_field recordnum) s)

    abbrev pub prepare_insert : conn.State → Option o.OracleError
    prepare_insert s = conn.prepare table.count_table table.columns s

    -- `insert`, with the prepared statement.
    abbrev pub insert : A → conn.State → Option o.OracleError × conn.State
    insert v s =
        conn.execute (insert_into table.count_table (bind o table.columns (table.values v))) s

    -- A round of the loop over the results of the query.
    abbrev pub push_row :
        (Row o → Outcome o.OracleError A)
        → List A
        → Outcome o.OracleError (Row o)
        → Outcome CountError (List A)
    push_row read found result = do
      row ← map_err of_oracle result
      v ← map_err of_oracle (read row)
      ok (found ++ v ∷ [])

    unfoldable pub select :
        (Row o → Outcome o.OracleError A)
        → ℕ
        → conn.State
        → Outcome CountError (List A) × conn.State
    select read recordnum s =
        let found = conn.select_from table.count_table table.count_recordnum_field recordnum s in
        (do results ← map_err of_oracle found.0; fold_loop (push_row read) results [], found.1)
