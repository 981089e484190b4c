-- ===== src/Import/Replaced.antt =====
-- What is in a table after the import of a file that replaces its rows.
use starnext_import.Import.Stored.{replaced-RowsAre}
use starnext_import.Database.Foreign.{RowsAre}
use starnext_import.Database.Rows.{inserted}
use starnext_import.Database.Session.{SessionLaws}
use starnext_import.Database.Tables.{bicycle_table, pedestrian_table}
use starnext_import.Extract.Volumes.{extract_bicycle_volumes, extract_pedestrian_volumes}
use starnext_import.FieldMetadata.Bounds.{from_path-Bounded}
use starnext_import.FieldMetadata.{FieldMetadata, from_path}
use starnext_import.Import.Branches.{import_bicycle, import_pedestrian}
use starnext_import.Import.Keeps.Numbered.{
  bicycle_listed, bicycle_plain, bicycle_number, pedestrian_listed, pedestrian_plain,
  pedestrian_number,
}
use starnext_import.Import.Numbers.{
  extract_bicycle_volumes-BicyclesOf, extract_pedestrian_volumes-PedestriansOf,
}
use starnext_import.Records.{FifteenMinuteBicycle, FifteenMinutePedestrian}
use starnext_import.Import.Ends.{Ends, Ends-imp}
use starnext_import.Import.{extracted, abandoned, Flow}
use starnext_import.Prelude.{map}
use starnext_import.External.Chrono.{Chrono}
use starnext_import.External.Connection.{Connection}
use starnext_import.External.FileSystem.{FileSystem, Formats}
use starnext_import.External.Float.{Float}
use starnext_import.External.Oracle.{Oracle}
use starnext_import.Logging.{World}
use starnext_import.Prelude.FilePath.{FilePath}
use starnext_import.Prelude.Text.{codes}
use starnext_import.Prelude.{
  ℕ, List, [], ◌≡◌, refl, Bool, Outcome, ok, err, panic, running, All, All-imp, Gives,
}
use starnext_import.Types.Errors.{CountError}

module _ ⦃c : Chrono⦄ ⦃f : Float⦄ {o : Oracle c f} {conn : Connection o} (laws : SessionLaws conn)
    (fs : FileSystem) (formats : Formats) (fuel : ℕ) (flag : Bool) (path : FilePath)
    (m : FieldMetadata) (named : from_path path ≡ ok m) where
  extracted-Ends :
      {A : Type 0} (V : A → Type 0) (S : A → World conn fs → Type 0) (result : Outcome CountError A)
      (rest : A → World conn fs → Flow (World conn fs)) (w : World conn fs)
      → Gives V result
      → ((v : A) → V v → Ends (S v) (λ _. Unit) (λ _. Unit) (rest v w))
      → Ends
          (λ w. (v : A) × (result ≡ ok v) × S v w)
          (λ _. Unit)
          (λ _. Unit)
          (extracted conn fs formats flag path m.recordnum result rest w)
  extracted-Ends V S (ok v) rest w g h =
      Ends-imp (λ w s. (v, refl, s)) (λ w u. u) (λ w u. u) (rest v w) (h v g)
  extracted-Ends V S (err e) rest w g h = tt
  extracted-Ends V S panic rest w g h = tt
  extracted-Ends V S running rest w g h = tt

  -- If the import of a file of bicycle volumes ends without error, the rows of its record number in
  -- TC_BIKECOUNT are those of the volumes that the file holds and no others, in their order, and they
  -- are committed.
  pub import_bicycle-RowsAre :
      (w : World conn fs)
      → Ends
          (λ w'.
            (counts : List FifteenMinuteBicycle) × (extract_bicycle_volumes path
                (fs.open_file path w.disk)
              ≡ ok counts)
            × RowsAre laws m.recordnum
                (codes "tc_bikecount")
                (map
                  (λ v. inserted o (bicycle_table o) (laws.others (codes "tc_bikecount")) v)
                  counts)
                w'.db)
          (λ _. Unit)
          (λ _. Unit)
          (import_bicycle conn fs formats fuel flag path m w)
  unfolding import_bicycle
  import_bicycle-RowsAre w =
      extracted-Ends (All (λ v. v.recordnum ≡ m.recordnum)) _
        (extract_bicycle_volumes path (fs.open_file path w.disk)) _ w
        (extract_bicycle_volumes-BicyclesOf path m _ named)
        (λ counts numbered.
          replaced-RowsAre laws (bicycle_table o) (bicycle_listed o) (bicycle_plain o) m.recordnum
            (from_path-Bounded path m named).0 fs formats flag path formats.debug_bicycle abandoned
            (codes "data") counts w (All-imp (bicycle_number o m.recordnum) counts numbered))

  -- The same for pedestrian volumes and TC_PEDCOUNT.
  pub import_pedestrian-RowsAre :
      (w : World conn fs)
      → Ends
          (λ w'.
            (counts : List FifteenMinutePedestrian) × (extract_pedestrian_volumes path
                (fs.open_file path w.disk)
              ≡ ok counts)
            × RowsAre laws m.recordnum
                (codes "tc_pedcount")
                (map
                  (λ v. inserted o (pedestrian_table o) (laws.others (codes "tc_pedcount")) v)
                  counts)
                w'.db)
          (λ _. Unit)
          (λ _. Unit)
          (import_pedestrian conn fs formats fuel flag path m w)
  unfolding import_pedestrian
  import_pedestrian-RowsAre w =
      extracted-Ends (All (λ v. v.recordnum ≡ m.recordnum)) _
        (extract_pedestrian_volumes path (fs.open_file path w.disk)) _ w
        (extract_pedestrian_volumes-PedestriansOf path m _ named)
        (λ counts numbered.
          replaced-RowsAre laws (pedestrian_table o) (pedestrian_listed o) (pedestrian_plain o)
            m.recordnum (from_path-Bounded path m named).0 fs formats flag path
            formats.debug_pedestrian [] (codes "data") counts w
            (All-imp (pedestrian_number o m.recordnum) counts numbered))
