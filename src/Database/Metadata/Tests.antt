-- ===== src/Database/Metadata/Tests.antt =====
-- The creation of records in a database whose tables are empty.
use starnext_import.Database.Memory.{Tables, tables}
use starnext_import.Database.Metadata.Limits.{
  insert_empty_metadata-length, insert_metadata_from_existing-err,
}
use starnext_import.Database.Metadata.{
  Metadata, create_records, insert_empty_metadata, insert_metadata_from_existing,
}
use starnext_import.External.Instances.{calendar, hundredths}
use starnext_import.External.Memory.{OracleError, refused}
use starnext_import.Prelude.{
  ◌≤◌, ◌<◌, ◌==◌, ==_iff, ◌≡◌, ◌≢◌, refl, List, [], ◌∷◌, Outcome, if◌then◌else◌, Bool-cases, inl,
  inr, none, some, ok, err, length, ℕ, suc,
}
use starnext_import.Types.Errors.{CountError}

-- A connection of `tables` refuses values that do not fit the placeholders.
unbound_refused :
    (values columns : ℕ)
    → values ≢ columns
    → ◌≡◌ {A = Outcome OracleError (Outcome OracleError (List ℕ))}
        (if values == columns then ok (ok (1 ∷ [])) else err refused)
        (err refused)
unbound_refused values columns ne = elim (Bool-cases (values == columns)) [
  | inl e ↦ absurd (ne ((==_iff values columns).0 e))
  | inr e ↦ rw e refl
]

abbrev empty_tables : Tables
empty_tables = record { session = λ t. []; stored = λ t. []; room = some 2 }

two_created : (insert_empty_metadata tables 2 empty_tables).0 ≡ ok (1 ∷ 1 ∷ [])
unfolding insert_empty_metadata create_records
two_created = refl

two_counted : (0 < 2) × (2 ≤ 50) × (length {A = ℕ} (1 ∷ 1 ∷ []) ≡ 2)
two_counted = insert_empty_metadata-length tables 2 empty_tables (1 ∷ 1 ∷ []) two_created

abbrev blank : Metadata
blank = record {
  amending = none;
  ampeak = none;
  bikepeddesc = none;
  bikepedfacility = none;
  bikepedgroup = none;
  cntdir = none;
  comments = none;
  count_kind = none;
  counter_id = none;
  createheaderdate = none;
  datelastcounted = none;
  description = none;
  fc = none;
  fromlmt = none;
  importdatadate = none;
  indir = none;
  isurban = none;
  latitude = none;
  longitude = none;
  mcd = none;
  mp = none;
  offset = none;
  outdir = none;
  pmending = none;
  pmpeak = none;
  prj = none;
  program = none;
  recordnum = none;
  rdprefix = none;
  rdsuffix = none;
  road = none;
  route = none;
  seg = none;
  sidewalk = none;
  speedlimit = none;
  source = none;
  sr = none;
  sri = none;
  stationid = none;
  tolmt = none;
  trafdir = none;
  x = none;
  y = none;
}

not_copied :
    (x : CountError) × ((insert_metadata_from_existing tables 2 blank empty_tables).0 ≡ err x)
not_copied =
    insert_metadata_from_existing-err tables
      (λ table columns values s ne.
        (refused, unbound_refused (length values) (suc (length columns)) ne))
      2 blank empty_tables
