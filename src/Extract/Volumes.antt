-- ===== src/Extract/Volumes.antt =====
-- `FifteenMinuteBicycle::extract` and `FifteenMinutePedestrian::extract` of src/extract_from_file.rs.
use starnext_import.External.Chrono.{Chrono}
use starnext_import.Extract.Rows.{Opened, data_rows, column, number}
use starnext_import.FieldMetadata.{FieldMetadata, from_path}
use starnext_import.Prelude.FilePath.{FilePath}
use starnext_import.Prelude.Text.{Text, codes}
use starnext_import.Prelude.{
  ℕ, List, [], ◌∷◌, ◌++◌, Option, none, some, Outcome, ok, unwrap, map_err, ◌>>=◌, fold_loop,
  u16_mod,
}
use starnext_import.Records.{FifteenMinuteBicycle, FifteenMinutePedestrian}
use starnext_import.Types.Direction.{LaneDirection}
use starnext_import.Types.Errors.{CountError, cannot_open_file}

module _ ⦃c : Chrono⦄ where
  -- The columns of a row: the moment, the total and, if there is a second direction, the volumes in
  -- and out.
  unfoldable pub volumes :
      Option LaneDirection
      → Outcome Text (List Text)
      → Outcome CountError (c.NaiveDateTime × ℕ × Option ℕ × Option ℕ)
  volumes direction2 row = do
    datetime_col ← column row 0
    count_dt ← unwrap (c.parse_datetime datetime_col (codes "%Y-%m-%d %H:%M:%S"))
    total ← number u16_mod row 1
    elim direction2 [
      | none ↦ ok (count_dt, total, none, none)
      | some _ ↦ do
        indir ← number u16_mod row 2
        outdir ← number u16_mod row 3
        ok (count_dt, total, some indir, some outdir)
    ]

  -- A round of the loop over the rows. The constructor always gives `Ok`.
  unfoldable pub bicycle_volume_row :
      FieldMetadata
      → List FifteenMinuteBicycle
      → Outcome Text (List Text)
      → Outcome CountError (List FifteenMinuteBicycle)
  unfolding volumes
  bicycle_volume_row m counts row = do
    (count_dt, total, indir, outdir) ← volumes m.directions.direction2 row
    ok (
        counts
        ++ record {
          recordnum = m.recordnum;
          date = c.date count_dt;
          time = count_dt;
          total = total;
          indir = indir;
          outdir = outdir;
        }
          ∷ [])

  unfoldable pub extract_bicycle_volumes :
      FilePath → Outcome Text Opened → Outcome CountError (List FifteenMinuteBicycle)
  unfolding bicycle_volume_row data_rows
  extract_bicycle_volumes path file = do
    file ← map_err cannot_open_file file
    m ← from_path path
    rows ← data_rows path file
    fold_loop (bicycle_volume_row m) rows []

  unfoldable pub pedestrian_volume_row :
      FieldMetadata
      → List FifteenMinutePedestrian
      → Outcome Text (List Text)
      → Outcome CountError (List FifteenMinutePedestrian)
  unfolding volumes
  pedestrian_volume_row m counts row = do
    (count_dt, total, indir, outdir) ← volumes m.directions.direction2 row
    ok (
        counts
        ++ record {
          recordnum = m.recordnum;
          date = c.date count_dt;
          time = count_dt;
          total = total;
          indir = indir;
          outdir = outdir;
        }
          ∷ [])

  unfoldable pub extract_pedestrian_volumes :
      FilePath → Outcome Text Opened → Outcome CountError (List FifteenMinutePedestrian)
  unfolding pedestrian_volume_row data_rows
  extract_pedestrian_volumes path file = do
    file ← map_err cannot_open_file file
    m ← from_path path
    rows ← data_rows path file
    fold_loop (pedestrian_volume_row m) rows []
