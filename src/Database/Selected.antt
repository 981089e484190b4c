-- ===== src/Database/Selected.antt =====
-- What `select` of src/db/crud.rs gives for the rows of inserted counts.
use starnext_import.Database.Rows.{Row, inserted}
use starnext_import.Database.Session.{SessionLaws}
use starnext_import.Database.Tables.{Crud}
use starnext_import.External.Chrono.{Chrono}
use starnext_import.External.Connection.{Connection}
use starnext_import.External.Float.{Float}
use starnext_import.External.Oracle.{Oracle}
use mathlib.Core.List.{Permᴰ}
use starnext_import.Prelude.{List, ◌≡◌, Outcome, ok}

module _ ⦃c : Chrono⦄ ⦃f : Float⦄ {o : Oracle c f} {conn : Connection o} (laws : SessionLaws conn)
    {A : Type 0} (table : Crud o.SqlValue A) (read : Row o → Outcome o.OracleError A) where
  -- The row of a count is read as the count.
  abbrev pub IsReadBack : A → Type 0
  IsReadBack v = read (inserted o table (laws.others table.count_table) v) ≡ ok v
