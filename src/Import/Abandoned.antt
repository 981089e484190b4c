-- ===== src/Import/Abandoned.antt =====
-- What is in a table after an insertion failed in src/bin/import.rs.
use starnext_import.Database.Crud.{delete, insert, prepare_insert}
use starnext_import.Database.Foreign.{RowsAre, import_log_unlisted, not_listed, append_nil}
use starnext_import.Database.Rows.{Row, inserted}
use starnext_import.Database.Session.{SessionLaws, has_trigger}
use starnext_import.Database.Tables.{Crud, bicycle_table}
use starnext_import.External.Chrono.{Chrono}
use starnext_import.External.Connection.{Connection, Level, insert_into, error}
use starnext_import.External.FileSystem.{FileSystem, Formats}
use starnext_import.External.Float.{Float}
use starnext_import.External.Oracle.{Oracle}
use starnext_import.Extract.Volumes.{extract_bicycle_volumes}
use starnext_import.FieldMetadata.Bounds.{from_path-Bounded}
use starnext_import.FieldMetadata.{FieldMetadata, from_path}
use starnext_import.Import.Branches.{import_bicycle}
use starnext_import.Import.Completes.{gives_of}
use starnext_import.Import.Keeps.Numbered.{bicycle_listed, bicycle_number, bicycle_plain}
use starnext_import.Import.Keeps.{HasNumber, IsCountTable}
use starnext_import.Import.Numbers.{extract_bicycle_volumes-BicyclesOf}
use starnext_import.Import.RowsKept.{cleaned_kept}
use starnext_import.Import.Stored.{
  row_of, own_rows, Reads, commit-RowsAre, delete-RowsAre, insert-Reads, replaced,
}
use starnext_import.Import.{
  Flow, next, skip, abandoned, give_up, delete_records, insert_and_commit, insert_counts,
  insert_result, unwrapped,
}
use starnext_import.Logging.{
  World, Log, import_log, commit_entry, entry_made, write_log, log_msg, insert_import_log_entry,
}
use starnext_import.Prelude.FilePath.{FilePath}
use starnext_import.Prelude.Text.{Text, codes}
use starnext_import.Prelude.{
  ℕ, List, [], ◌∷◌, ◌++◌, ◌≡◌, ◌<◌, ◌∙◌, sym, refl, ap, map, u32_mod, Bool, false, Option, none,
  some, ok, All, All-imp, append_snoc,
}
use starnext_import.Records.{FifteenMinuteBicycle}

module _ ⦃c : Chrono⦄ ⦃f : Float⦄ {o : Oracle c f} {A : Type 0} (conn : Connection o)
    (table : Crud o.SqlValue A) where
  -- The counts are inserted one after the other, each without error, from the first state to the last.
  abbrev pub Inserts : List A → conn.State → conn.State → Type 0
  Inserts [] s t = s ≡ t
  Inserts (v ∷ counts) s t =
      ((insert conn table v s).0 ≡ none) × Inserts counts (insert conn table v s).1 t

All-front {ℓ κ} :
    {A : Type ℓ} (P : A → Type κ) (front back : List A) → All P (front ++ back) → All P front
All-front P [] back h = tt
All-front P (x ∷ front) back h = (h.0, All-front P front back h.1)

module _ ⦃c : Chrono⦄ ⦃f : Float⦄ {o : Oracle c f} {conn : Connection o} (laws : SessionLaws conn)
    {A : Type 0} (table : Crud o.SqlValue A) (listed : IsCountTable table)
    (plain : has_trigger table.count_table ≡ false) (r : ℕ) (bound : r < u32_mod) where
  Inserts-Reads :
      (counts : List A) (X : List (Row o)) (s t : conn.State)
      → All (HasNumber o r table) counts
      → Reads laws table listed plain r bound X s
      → Inserts conn table counts s t
      → Reads laws table listed plain r bound
          (X ++ map (row_of laws table listed plain r bound) counts)
          t
  Inserts-Reads [] X s t numbers h same =
      ap (λ s. own_rows laws table listed plain r bound (laws.rows s table.count_table)) (sym same)
      ∙ h
      ∙ sym (append_nil X)
  Inserts-Reads (v ∷ counts) X s t numbers h (e, rest) =
      Inserts-Reads counts (X ++ row_of laws table listed plain r bound v ∷ []) _ t numbers.1
        (insert-Reads laws table listed plain r bound v X s numbers.0 e h) rest
      ∙ append_snoc X (row_of laws table listed plain r bound v) _

  module _ (fs : FileSystem) (formats : Formats) (flag : Bool) (path : FilePath) where
    unwrapped-none :
        (result : Option o.OracleError × conn.State) (w : World conn fs)
        → result.0 ≡ none
        → unwrapped conn fs formats flag path r result w ≡ next (record w { db = result.1 })
    unwrapped-none (none, s) w h = refl
    unwrapped-none (some e, s) w h = cc

    insert_result-none :
        (result : Option o.OracleError × conn.State) (shown : Text)
        (rest : World conn fs → Flow (World conn fs)) (w : World conn fs)
        (message : o.OracleError → Text)
        → result.0 ≡ none
        → insert_result conn fs formats flag path r rest shown result w message
          ≡ rest (record w { db = result.1 })
    insert_result-none (none, s) shown rest w message h = refl
    insert_result-none (some e, s) shown rest w message h = cc

    insert_result-some :
        (result : Option o.OracleError × conn.State) (shown : Text)
        (rest : World conn fs → Flow (World conn fs)) (w : World conn fs)
        (message : o.OracleError → Text) (e : o.OracleError)
        → result.0 ≡ some e
        → (m : Text) × (insert_result conn fs formats flag path r rest shown result w message
            ≡ give_up conn fs formats flag path r m (record w { db = result.1 }))
    insert_result-some (none, s) shown rest w message e h = cc
    insert_result-some (some x, s) shown rest w message e h = (message x, refl)

    -- The loop gives the file up at the insertion that fails.
    insert_counts-stops :
        (debug : A → Text) (tail : Text) (front : List A) (x : A) (back : List A)
        (w : World conn fs) (s : conn.State) (e : o.OracleError)
        → Inserts conn table front w.db s
        → (insert conn table x s).0 ≡ some e
        → (m : Text) × (insert_counts conn fs formats flag path r table debug tail
              (front ++ x ∷ back)
              w
            ≡ give_up conn fs formats flag path r m (record w { db = (insert conn table x s).1 }))
    unfolding insert_counts
    insert_counts-stops debug tail [] x back w s e same failed = rw⁻¹ same (
        insert_result-some (insert conn table x w.db) (debug x)
          (insert_counts conn fs formats flag path r table debug tail back) w
          (λ e. codes "Error inserting count " ++ debug x ++ codes ": " ++ o.display e ++ tail) e
          (ap (λ s. (insert conn table x s).0) same ∙ failed))
    insert_counts-stops debug tail (v ∷ front) x back w s e (done, rest) failed =
        let (m, stops) =
          insert_counts-stops debug tail front x back
            (record w { db = (insert conn table v w.db).1 }) s e rest failed in
        (
          m,
          insert_result-none (insert conn table v w.db) (debug v)
                (insert_counts conn fs formats flag path r table debug tail (front ++ x ∷ back)) w
                (λ e.
                  codes "Error inserting count " ++ debug v ++ codes ": " ++ o.display e ++ tail)
                done
              ∙ stops,
        )

    replaced-stops :
        (debug : A → Text) (tail kind : Text) (front : List A) (x : A) (back : List A)
        (w : World conn fs) (s : conn.State) (e : o.OracleError)
        → (delete conn table r w.db).0 ≡ none
        → prepare_insert conn table (delete conn table r w.db).1 ≡ none
        → Inserts conn table front (delete conn table r w.db).1 s
        → (insert conn table x s).0 ≡ some e
        → (m : Text) × (replaced laws table listed plain r bound fs formats flag path debug tail
              kind
              (front ++ x ∷ back)
              w
            ≡ give_up conn fs formats flag path r m (record w { db = (insert conn table x s).1 }))
    unfolding delete_records insert_and_commit
    replaced-stops debug tail kind front x back w s e deleted prepared done failed =
        let (m, stops) =
          insert_counts-stops debug tail front x back
            (record w { db = (delete conn table r w.db).1 }) s e done failed in
        (m, rw (unwrapped-none (delete conn table r w.db) w deleted, prepared, stops) refl)

    module _ (commits : (s : conn.State) → (conn.commit s).0 ≡ none)
        (accepts : (row : Row o) (s : conn.State)
          → (conn.execute (insert_into (codes "import_log") row) s).0 ≡ none) where
      entry_none :
          (X : List (Row o)) (result : Option o.OracleError × conn.State)
          → result.0 ≡ none
          → Reads laws table listed plain r bound X result.1
          → RowsAre laws r table.count_table X (commit_entry conn result).1
      entry_none X (none, s) e h = commit-RowsAre laws table listed plain r bound s X (commits s) h
      entry_none X (some x, s) e h = cc

      made_none :
          (X : List (Row o)) (log : Log) (result : Option o.OracleError × conn.State)
          (w : World conn fs)
          → RowsAre laws r table.count_table X result.1
          → RowsAre laws r table.count_table X (entry_made conn fs r log result w).db
      unfolding write_log
      made_none X log (none, s) w h = h
      made_none X log (some e, s) w h = h

      log_stores :
          (X : List (Row o)) (log : Log) (level : Level) (message : Text) (w : World conn fs)
          → Reads laws table listed plain r bound X w.db
          → RowsAre laws r table.count_table X (log_msg conn fs r log level message w).db
      unfolding log_msg insert_import_log_entry write_log
      log_stores X log level message w h = made_none X log _ _ (
          entry_none X _ (accepts _ w.db) (
            ap (own_rows laws table listed plain r bound) (
              rw
                (
                  laws.insert_into-none w.db (codes "import_log") _ table.count_table listed.listed
                      (accepts _ w.db),
                  not_listed (codes "import_log") table.count_table import_log_unlisted
                      listed.listed,
                )
                refl)
            ∙ h))

      pub replaced-Abandoned :
          (debug : A → Text) (tail kind : Text) (front : List A) (x : A) (back : List A)
          (w : World conn fs) (s : conn.State) (e : o.OracleError)
          → All (HasNumber o r table) front
          → (delete conn table r w.db).0 ≡ none
          → prepare_insert conn table (delete conn table r w.db).1 ≡ none
          → Inserts conn table front (delete conn table r w.db).1 s
          → (insert conn table x s).0 ≡ some e
          → (w' : World conn fs) × (replaced laws table listed plain r bound fs formats flag path
                debug tail kind
                (front ++ x ∷ back)
                w
              ≡ skip w')
            × RowsAre laws r table.count_table
                (map (row_of laws table listed plain r bound) front)
                w'.db
      replaced-Abandoned debug tail kind front x back w s e numbers deleted prepared done failed =
          let (m, stops) =
            replaced-stops debug tail kind front x back w s e deleted prepared done failed in
          let read =
            ap (own_rows laws table listed plain r bound)
              (laws.execute-some s _ table.count_table refl listed.listed failed)
            ∙ Inserts-Reads front [] (delete conn table r w.db).1 s numbers
                (delete-RowsAre laws table listed plain r bound w.db deleted).read done in
          (
            _,
            stops,
            cleaned_kept laws r table.count_table _ listed.listed fs formats flag path _ (
                log_stores (map (row_of laws table listed plain r bound) front) import_log error m
                  (record w { db = (insert conn table x s).1 }) read),
          )

module _ ⦃c : Chrono⦄ ⦃f : Float⦄ {o : Oracle c f} {conn : Connection o} (laws : SessionLaws conn)
    (fs : FileSystem) (formats : Formats) (fuel : ℕ) (flag : Bool) (path : FilePath)
    (m : FieldMetadata) (named : from_path path ≡ ok m) where
  -- If the old rows are deleted, the counts of a file of bicycle volumes are inserted up to one whose
  -- insertion fails, and commits and entries of the log succeed, the file is given up, and the rows of
  -- its record number in TC_BIKECOUNT are those of the counts before that one: they are committed.
  pub import_bicycle-Abandoned :
      (front : List FifteenMinuteBicycle) (x : FifteenMinuteBicycle)
      (back : List FifteenMinuteBicycle) (w : World conn fs) (s : conn.State) (e : o.OracleError)
      → ((s : conn.State) → (conn.commit s).0 ≡ none)
      → ((row : Row o) (s : conn.State)
          → (conn.execute (insert_into (codes "import_log") row) s).0 ≡ none)
      → extract_bicycle_volumes path (fs.open_file path w.disk) ≡ ok (front ++ x ∷ back)
      → (delete conn (bicycle_table o) m.recordnum w.db).0 ≡ none
      → prepare_insert conn (bicycle_table o) (delete conn (bicycle_table o) m.recordnum w.db).1
        ≡ none
      → Inserts conn (bicycle_table o) front (delete conn (bicycle_table o) m.recordnum w.db).1 s
      → (insert conn (bicycle_table o) x s).0 ≡ some e
      → (w' : World conn fs) × (import_bicycle conn fs formats fuel flag path m w ≡ skip w')
        × RowsAre laws m.recordnum
            (codes "tc_bikecount")
            (map (λ v. inserted o (bicycle_table o) (laws.others (codes "tc_bikecount")) v) front)
            w'.db
  unfolding import_bicycle
  import_bicycle-Abandoned front x back w s e commits accepts volumes deleted prepared done failed =
      let numbered =
        gives_of (All (λ v. v.recordnum ≡ m.recordnum)) (front ++ x ∷ back)
          (extract_bicycle_volumes-BicyclesOf path m (fs.open_file path w.disk) named) volumes in
      rw volumes (
        replaced-Abandoned laws (bicycle_table o) (bicycle_listed o) (bicycle_plain o) m.recordnum
          (from_path-Bounded path m named).0 fs formats flag path commits accepts
          formats.debug_bicycle abandoned (codes "data") front x back w s e
          (All-imp (bicycle_number o m.recordnum) front
            (All-front (λ v. v.recordnum ≡ m.recordnum) front (x ∷ back) numbered))
          deleted prepared done failed)
