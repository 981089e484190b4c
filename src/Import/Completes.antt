-- ===== src/Import/Completes.antt =====
-- With a session of the database whose calls all succeed, the replacement of the rows of a record
-- number in src/bin/import.rs comes to its end.
use starnext_import.Database.Crud.{and_commit, delete, insert, prepare_insert}
use starnext_import.Database.Foreign.{RowsAre}
use starnext_import.Database.Rows.{inserted}
use starnext_import.Database.Session.{SessionLaws}
use starnext_import.Database.Tables.{Crud, bicycle_table, pedestrian_table}
use starnext_import.External.Chrono.{Chrono}
use starnext_import.External.Connection.{Connection, Statement}
use starnext_import.External.FileSystem.{FileSystem, Formats}
use starnext_import.External.Float.{Float}
use starnext_import.External.Oracle.{Oracle}
use starnext_import.Extract.Volumes.{extract_bicycle_volumes, extract_pedestrian_volumes}
use starnext_import.FieldMetadata.Bounds.{from_path-Bounded}
use starnext_import.FieldMetadata.{FieldMetadata, from_path}
use starnext_import.Import.Branches.{import_bicycle, import_pedestrian}
use starnext_import.Import.Ends.{Ends-and_next, Goes, Goes-Ends}
use starnext_import.Import.Keeps.Numbered.{
  bicycle_listed, bicycle_plain, bicycle_number, pedestrian_listed, pedestrian_plain,
  pedestrian_number,
}
use starnext_import.Import.Numbers.{
  extract_bicycle_volumes-BicyclesOf, extract_pedestrian_volumes-PedestriansOf,
}
use starnext_import.Import.Stored.{replaced-RowsAre}
use starnext_import.Import.{
  Flow, abandoned, and_next, commit_result, delete_records, insert_and_commit, insert_counts,
  insert_result, unwrapped,
}
use starnext_import.Logging.{World}
use starnext_import.Prelude.FilePath.{FilePath}
use starnext_import.Prelude.Text.{Text, codes}
use starnext_import.Prelude.{
  ℕ, List, [], ◌∷◌, ◌≡◌, map, Bool, Option, none, some, Outcome, ok, All, All-imp, Gives,
}
use starnext_import.Records.{FifteenMinuteBicycle, FifteenMinutePedestrian}

-- The calls of a session succeed from the states of which `Works` holds, and lead to such states.
pub record Willing ⦃c : Chrono⦄ ⦃f : Float⦄ {o : Oracle c f} (conn : Connection o)
    (Works : conn.State → Type 0) : Type 0 where
  pub prepares :
      (table : Text) (columns : List Text) (s : conn.State)
      → Works s
      → conn.prepare table columns s ≡ none
  pub executes :
      (stmt : Statement o.SqlValue) (s : conn.State)
      → Works s
      → ((conn.execute stmt s).0 ≡ none) × Works (conn.execute stmt s).1
  pub commits : (s : conn.State) → Works s → ((conn.commit s).0 ≡ none) × Works (conn.commit s).1

module _ ⦃c : Chrono⦄ ⦃f : Float⦄ {o : Oracle c f} {conn : Connection o}
    {Works : conn.State → Type 0} (willing : Willing conn Works) (fs : FileSystem)
    (formats : Formats) (flag : Bool) (path : FilePath) (r : ℕ) where
  -- A call that succeeds.
  abbrev Succeeds : Option o.OracleError × conn.State → Type 0
  Succeeds result = (result.0 ≡ none) × Works result.1

  and_commit-Succeeds :
      (result : Option o.OracleError × conn.State)
      → Succeeds result
      → Succeeds (and_commit conn result)
  and_commit-Succeeds (none, s) h = willing.commits s h.1
  and_commit-Succeeds (some e, s) h = cc

  unwrapped-Goes :
      (result : Option o.OracleError × conn.State) (w : World conn fs)
      → Succeeds result
      → Goes (λ w. Works w.db) (unwrapped conn fs formats flag path r result w)
  unwrapped-Goes (none, s) w h = h.1
  unwrapped-Goes (some e, s) w h = cc

  insert_result-Goes :
      (result : Option o.OracleError × conn.State) (shown : Text)
      (rest : World conn fs → Flow (World conn fs)) (w : World conn fs)
      (message : o.OracleError → Text)
      → Succeeds result
      → ((w : World conn fs) → Works w.db → Goes (λ w. Works w.db) (rest w))
      → Goes
          (λ w. Works w.db)
          (insert_result conn fs formats flag path r rest shown result w message)
  insert_result-Goes (none, s) shown rest w message h k = k _ h.1
  insert_result-Goes (some e, s) shown rest w message h k = cc

  insert_counts-Goes :
      {A : Type 0} (table : Crud o.SqlValue A) (debug : A → Text) (tail : Text) (counts : List A)
      (w : World conn fs)
      → Works w.db
      → Goes (λ w. Works w.db) (insert_counts conn fs formats flag path r table debug tail counts w)
  unfolding insert_counts
  insert_counts-Goes table debug tail [] w h = h
  insert_counts-Goes table debug tail (count ∷ counts) w h =
      insert_result-Goes (insert conn table count w.db) (debug count) _ w _
        (willing.executes _ w.db h) (λ w h. insert_counts-Goes table debug tail counts w h)

  commit_result-Goes :
      (kind table : Text) (result : Option o.OracleError × conn.State) (w : World conn fs)
      → Succeeds result
      → Goes (λ _. Unit) (commit_result conn fs formats flag path r kind table result w)
  commit_result-Goes kind table (none, s) w h = tt
  commit_result-Goes kind table (some e, s) w h = cc

  module _ {A : Type 0} (table : Crud o.SqlValue A) where
    delete_records-Goes :
        (w : World conn fs)
        → Works w.db
        → Goes (λ w. Works w.db) (delete_records conn fs formats flag path r table w)
    unfolding delete_records delete
    delete_records-Goes w h = unwrapped-Goes _ w (and_commit-Succeeds _ (willing.executes _ w.db h))

    insert_and_commit-Goes :
        (debug : A → Text) (tail kind : Text) (counts : List A) (w : World conn fs)
        → Works w.db
        → Goes
            (λ _. Unit)
            (insert_and_commit conn fs formats flag path r table debug tail kind counts w)
    unfolding insert_and_commit
    insert_and_commit-Goes debug tail kind counts w h =
        Ends-and_next (λ w. Works w.db) (λ _. Unit) (λ _. ⊥) (λ _. ⊥) _ _
          (unwrapped-Goes (prepare_insert conn table w.db, w.db) w
            (willing.prepares table.count_table table.columns w.db h, h))
          (λ w h.
            Ends-and_next (λ w. Works w.db) (λ _. Unit) (λ _. ⊥) (λ _. ⊥) _ _
              (insert_counts-Goes table debug tail counts w h)
              (λ w h.
                commit_result-Goes kind table.count_table (conn.commit w.db) w
                  (willing.commits w.db h)))

    pub replacement-Goes :
        (debug : A → Text) (tail kind : Text) (counts : List A) (w : World conn fs)
        → Works w.db
        → Goes
            (λ _. Unit)
            (and_next
              (delete_records conn fs formats flag path r table w)
              (λ w. insert_and_commit conn fs formats flag path r table debug tail kind counts w))
    replacement-Goes debug tail kind counts w h =
        Ends-and_next (λ w. Works w.db) (λ _. Unit) (λ _. ⊥) (λ _. ⊥) _ _ (delete_records-Goes w h)
          (λ w h. insert_and_commit-Goes debug tail kind counts w h)

pub gives_of {ℓ} :
    {E A : Type 0} (V : A → Type ℓ) (v : A) {m : Outcome E A} → Gives V m → m ≡ ok v → V v
gives_of V v g e = rw e at g

module _ ⦃c : Chrono⦄ ⦃f : Float⦄ {o : Oracle c f} {conn : Connection o} (laws : SessionLaws conn)
    {Works : conn.State → Type 0} (willing : Willing conn Works) (fs : FileSystem)
    (formats : Formats) (fuel : ℕ) (flag : Bool) (path : FilePath) (m : FieldMetadata)
    (named : from_path path ≡ ok m) where
  -- If the name and the volumes of a file of bicycles are read and the calls of the database succeed,
  -- its import goes on to the next step, and the rows of its record number in TC_BIKECOUNT are then
  -- those of the volumes that the file holds and no others, in their order, and they are committed.
  pub import_bicycle-Completes :
      (counts : List FifteenMinuteBicycle) (w : World conn fs)
      → extract_bicycle_volumes path (fs.open_file path w.disk) ≡ ok counts
      → Works w.db
      → Goes
          (λ w'.
            RowsAre laws m.recordnum
              (codes "tc_bikecount")
              (map
                (λ v. inserted o (bicycle_table o) (laws.others (codes "tc_bikecount")) v)
                counts)
              w'.db)
          (import_bicycle conn fs formats fuel flag path m w)
  unfolding import_bicycle
  import_bicycle-Completes counts w e h = rw e (
      Goes-Ends _ (λ _. Unit) (λ _. Unit) _
        (replacement-Goes willing fs formats flag path m.recordnum (bicycle_table o)
          formats.debug_bicycle abandoned (codes "data") counts w h)
        (replaced-RowsAre laws (bicycle_table o) (bicycle_listed o) (bicycle_plain o) m.recordnum
          (from_path-Bounded path m named).0 fs formats flag path formats.debug_bicycle abandoned
          (codes "data") counts w
          (All-imp (bicycle_number o m.recordnum) counts (
            gives_of (All (λ v. v.recordnum ≡ m.recordnum)) counts
              (extract_bicycle_volumes-BicyclesOf path m (fs.open_file path w.disk) named) e))))

  -- The same for pedestrian volumes and TC_PEDCOUNT.
  pub import_pedestrian-Completes :
      (counts : List FifteenMinutePedestrian) (w : World conn fs)
      → extract_pedestrian_volumes path (fs.open_file path w.disk) ≡ ok counts
      → Works w.db
      → Goes
          (λ w'.
            RowsAre laws m.recordnum
              (codes "tc_pedcount")
              (map
                (λ v. inserted o (pedestrian_table o) (laws.others (codes "tc_pedcount")) v)
                counts)
              w'.db)
          (import_pedestrian conn fs formats fuel flag path m w)
  unfolding import_pedestrian
  import_pedestrian-Completes counts w e h = rw e (
      Goes-Ends _ (λ _. Unit) (λ _. Unit) _
        (replacement-Goes willing fs formats flag path m.recordnum (pedestrian_table o)
          formats.debug_pedestrian [] (codes "data") counts w h)
        (replaced-RowsAre laws (pedestrian_table o) (pedestrian_listed o) (pedestrian_plain o)
          m.recordnum (from_path-Bounded path m named).0 fs formats flag path
          formats.debug_pedestrian [] (codes "data") counts w
          (All-imp (pedestrian_number o m.recordnum) counts (
            gives_of (All (λ v. v.recordnum ≡ m.recordnum)) counts
              (extract_pedestrian_volumes-PedestriansOf path m (fs.open_file path w.disk) named)
              e))))
