-- ===== src/Import/Stored.antt =====
-- What is in a table after its rows were replaced: the steps of src/bin/import.rs that delete the rows
-- of a record number, insert counts and commit.
use starnext_import.Database.Crud.{and_commit, delete, insert, prepare_insert}
use starnext_import.Database.Foreign.{RowsAre, append_nil, filter-append}
use starnext_import.Database.Rows.{Row, bind, inserted}
use starnext_import.Database.Session.{SessionLaws, has_trigger, filter, has_number, rows_of}
use starnext_import.Database.Tables.{Crud, record_field}
use starnext_import.External.Connection.{delete_from}
use starnext_import.Import.Ends.{Ends, Ends-and_next}
use starnext_import.Import.Keeps.{HasNumber, IsCountTable}
use starnext_import.Import.RowsKept.{logged_kept}
use starnext_import.Import.{
  Flow, and_next, commit_result, delete_records, insert_and_commit, insert_counts, insert_result,
  unwrapped,
}
use starnext_import.Prelude.{◌<◌, ==_iff, not, map, append_snoc, u32_mod, ap}
use starnext_import.Prelude.Text.{text_eq_iff}
use starnext_import.External.Chrono.{Chrono}
use starnext_import.External.Connection.{Connection}
use starnext_import.External.FileSystem.{FileSystem, Formats}
use starnext_import.External.Float.{Float}
use starnext_import.External.Oracle.{Oracle}
use starnext_import.Logging.{World}
use starnext_import.Prelude.FilePath.{FilePath}
use starnext_import.Prelude.Text.{Text, codes}
use starnext_import.Prelude.{
  ℕ, List, [], ◌∷◌, ◌++◌, ◌≡◌, refl, sym, ◌∙◌, Bool, false, Option, none, some, All, Bool-cases,
  inl, inr,
}

filter-not {ℓ} :
    {A : Type ℓ} (keep : A → Bool) (xs : List A) → filter keep (filter (λ x. not (keep x)) xs) ≡ []
unfolding filter
filter-not keep [] = refl
filter-not keep (x ∷ xs) = elim (Bool-cases (keep x)) [
  | inl e ↦ rw (e, filter-not keep xs) refl
  | inr e ↦ rw (e, e, filter-not keep xs) refl
]

map-snoc {ℓ κ} :
    {A : Type ℓ} {B : Type κ} (f : A → B) (xs : List A) (y : A)
    → map f (xs ++ y ∷ []) ≡ map f xs ++ f y ∷ []
map-snoc f [] y = refl
map-snoc f (x ∷ xs) y = ap (λ zs. f x ∷ zs) (map-snoc f xs y)

module _ ⦃c : Chrono⦄ ⦃f : Float⦄ {o : Oracle c f} {conn : Connection o} (laws : SessionLaws conn)
    {A : Type 0} (table : Crud o.SqlValue A) (listed : IsCountTable table)
    (plain : has_trigger table.count_table ≡ false) (r : ℕ) (bound : r < u32_mod) where
  -- The row of a count in the table.
  abbrev pub row_of : A → Row o
  row_of v = inserted o table (laws.others table.count_table) v

  abbrev pub own_rows : List (Row o) → List (Row o)
  own_rows rows = rows_of o laws.equals table.count_table r rows

  -- What the session reads of the record number.
  abbrev pub Reads : List (Row o) → conn.State → Type 0
  Reads X s = own_rows (laws.rows s table.count_table) ≡ X

  own_row :
      (v : A) (rows : List (Row o))
      → HasNumber o r table v
      → own_rows (rows ++ row_of v ∷ []) ≡ own_rows rows ++ row_of v ∷ []
  unfolding filter has_number
  own_row v rows number =
      filter-append _ rows (row_of v ∷ [])
      ∙ rw
          (
            number.first_column,
            (text_eq_iff (record_field table.count_table) (record_field table.count_table)).1 refl,
            laws.equals-of_u32 r r bound,
            (==_iff r r).1 refl,
          )
          refl

  abbrev deletion : conn.State → Option o.OracleError × conn.State
  deletion s = conn.execute (delete_from table.count_table table.count_recordnum_field r) s

  deletion-Reads : (s : conn.State) → (deletion s).0 ≡ none → Reads [] (deletion s).1
  deletion-Reads s e =
      ap own_rows (
        laws.delete_from-none s table.count_table table.count_recordnum_field r table.count_table
          listed.listed e
        ∙ rw ((text_eq_iff table.count_table table.count_table).1 refl, listed.field) refl)
      ∙ filter-not (has_number o laws.equals (record_field table.count_table) r)
          (laws.rows s table.count_table)

  -- A commit that succeeds stores what the session reads.
  pub commit-RowsAre :
      (s : conn.State) (X : List (Row o))
      → (conn.commit s).0 ≡ none
      → Reads X s
      → RowsAre laws r table.count_table X (conn.commit s).1
  commit-RowsAre s X e h =
      let (stored, read) = laws.commit-none s table.count_table listed.listed e in
      record { read = ap own_rows read ∙ h; stored = ap own_rows stored ∙ h }

  and_commit-none :
      (result : Option o.OracleError × conn.State)
      → (and_commit conn result).0 ≡ none
      → (result.0 ≡ none)
        × ((conn.commit result.1).0 ≡ none)
        × ((conn.commit result.1).1 ≡ (and_commit conn result).1)
  and_commit-none (none, s) h = (refl, h, refl)
  and_commit-none (some e, s) h = cc

  pub delete-RowsAre :
      (s : conn.State)
      → (delete conn table r s).0 ≡ none
      → RowsAre laws r table.count_table [] (delete conn table r s).1
  unfolding delete
  delete-RowsAre s e =
      let (deleted, committed, same) = and_commit-none (deletion s) e in
      rw same at (commit-RowsAre (deletion s).1 [] committed (deletion-Reads s deleted))

  pub insert-Reads :
      (v : A) (X : List (Row o)) (s : conn.State)
      → HasNumber o r table v
      → (insert conn table v s).0 ≡ none
      → Reads X s
      → Reads (X ++ row_of v ∷ []) (insert conn table v s).1
  insert-Reads v X s number e h =
      ap own_rows (
        laws.insert_into-none s table.count_table (bind o table.columns (table.values v))
          table.count_table listed.listed e
        ∙ rw
            (
              (text_eq_iff table.count_table table.count_table).1 refl,
              laws.left-null s table.count_table listed.listed plain,
            )
            refl)
      ∙ own_row v (laws.rows s table.count_table) number
      ∙ ap (λ rows. rows ++ row_of v ∷ []) h

  module _ (fs : FileSystem) (formats : Formats) (flag : Bool) (path : FilePath) where
    -- The rows of the record number are deleted, and counts inserted and committed.
    abbrev pub replaced : (A → Text) → Text → Text → List A → World conn fs → Flow (World conn fs)
    replaced debug tail kind counts w =
        and_next (delete_records conn fs formats flag path r table w)
          (λ w. insert_and_commit conn fs formats flag path r table debug tail kind counts w)

  module _ (fs : FileSystem) (formats : Formats) (flag : Bool) (path : FilePath) where
    -- What holds if the next step follows.
    abbrev IfNext : (World conn fs → Type 0) → Flow (World conn fs) → Type 0
    IfNext P = Ends P (λ _. Unit) (λ _. Unit)

    insert_result-IfNext :
        (P : World conn fs → Type 0) (result : Option o.OracleError × conn.State) (shown : Text)
        (rest : World conn fs → Flow (World conn fs)) (w : World conn fs)
        (message : o.OracleError → Text)
        → (result.0 ≡ none → IfNext P (rest (record w { db = result.1 })))
        → IfNext P (insert_result conn fs formats flag path r rest shown result w message)
    insert_result-IfNext P (none, s) shown rest w message succeeded = succeeded refl
    insert_result-IfNext P (some e, s) shown rest w message succeeded = tt

    insert_counts-Reads :
        (debug : A → Text) (tail : Text) (all front counts : List A) (w : World conn fs)
        → front ++ counts ≡ all
        → All (HasNumber o r table) counts
        → Reads (map row_of front) w.db
        → IfNext
            (λ w. Reads (map row_of all) w.db)
            (insert_counts conn fs formats flag path r table debug tail counts w)
    unfolding insert_counts
    insert_counts-Reads debug tail all front [] w split numbers h =
        h ∙ ap (map row_of) (sym (append_nil front) ∙ split)
    insert_counts-Reads debug tail all front (count ∷ counts) w split numbers h =
        insert_result-IfNext (λ w. Reads (map row_of all) w.db) (insert conn table count w.db)
          (debug count) (insert_counts conn fs formats flag path r table debug tail counts) w
          (λ e. codes "Error inserting count " ++ debug count ++ codes ": " ++ o.display e ++ tail)
          (λ e.
            insert_counts-Reads debug tail all (front ++ count ∷ []) counts
              (record w { db = (insert conn table count w.db).1 })
              (append_snoc front count counts ∙ split) numbers.1
              (insert-Reads count (map row_of front) w.db numbers.0 e h
                ∙ sym (map-snoc row_of front count)))

    unwrapped-IfNext :
        (P : World conn fs → Type 0) (result : Option o.OracleError × conn.State)
        (w : World conn fs)
        → (result.0 ≡ none → P (record w { db = result.1 }))
        → IfNext P (unwrapped conn fs formats flag path r result w)
    unwrapped-IfNext P (none, s) w h = h refl
    unwrapped-IfNext P (some e, s) w h = tt

    commit_result-IfNext :
        (kind : Text) (X : List (Row o)) (result : Option o.OracleError × conn.State)
        (w : World conn fs)
        → (result.0 ≡ none → RowsAre laws r table.count_table X result.1)
        → IfNext
            (λ w. RowsAre laws r table.count_table X w.db)
            (commit_result conn fs formats flag path r kind table.count_table result w)
    commit_result-IfNext kind X (none, s) w h =
        logged_kept laws r table.count_table X listed.listed fs formats _ _ _ _ _ (h refl)
    commit_result-IfNext kind X (some e, s) w h = tt

    insert_and_commit-Stores :
        (debug : A → Text) (tail kind : Text) (counts : List A) (w : World conn fs)
        → All (HasNumber o r table) counts
        → Reads [] w.db
        → IfNext
            (λ w. RowsAre laws r table.count_table (map row_of counts) w.db)
            (insert_and_commit conn fs formats flag path r table debug tail kind counts w)
    unfolding insert_and_commit
    insert_and_commit-Stores debug tail kind counts w numbers h =
        Ends-and_next (λ w. Reads [] w.db)
          (λ w. RowsAre laws r table.count_table (map row_of counts) w.db) (λ _. Unit) (λ _. Unit)
          (unwrapped conn fs formats flag path r (prepare_insert conn table w.db, w.db) w) _
          (unwrapped-IfNext (λ w. Reads [] w.db) (prepare_insert conn table w.db, w.db) w (λ _. h))
          (λ w h.
            Ends-and_next (λ w. Reads (map row_of counts) w.db)
              (λ w. RowsAre laws r table.count_table (map row_of counts) w.db) (λ _. Unit)
              (λ _. Unit) (insert_counts conn fs formats flag path r table debug tail counts w) _
              (insert_counts-Reads debug tail counts [] counts w refl numbers h)
              (λ w h.
                commit_result-IfNext kind (map row_of counts) (conn.commit w.db) w
                  (λ e. commit-RowsAre w.db (map row_of counts) e h)))

    -- If the rows of a table are replaced without error, its rows of the record number are those of
    -- the counts and no others, in their order, and they are committed.
    pub replaced-RowsAre :
        (debug : A → Text) (tail kind : Text) (counts : List A) (w : World conn fs)
        → All (HasNumber o r table) counts
        → Ends
            (λ w. RowsAre laws r table.count_table (map row_of counts) w.db)
            (λ _. Unit)
            (λ _. Unit)
            (replaced fs formats flag path debug tail kind counts w)
    unfolding delete_records
    replaced-RowsAre debug tail kind counts w numbers =
        Ends-and_next (λ w. Reads [] w.db)
          (λ w. RowsAre laws r table.count_table (map row_of counts) w.db) (λ _. Unit) (λ _. Unit)
          (unwrapped conn fs formats flag path r (delete conn table r w.db) w) _
          (unwrapped-IfNext (λ w. Reads [] w.db) (delete conn table r w.db) w
            (λ e. (delete-RowsAre w.db e).read))
          (λ w h. insert_and_commit-Stores debug tail kind counts w numbers h)
