-- ===== src/Database/Metadata.antt =====
-- `Metadata` of src/lib.rs, a row of the table TC_HEADER, and the functions of src/db/mod.rs that create
-- rows of it.
pub mod Limits
mod Tests
use starnext_import.Database.Crud.{of_oracle}
use starnext_import.Database.Value.{of_count_kind, of_lane_direction, of_option, of_road_direction}
use starnext_import.External.Chrono.{Chrono}
use starnext_import.External.Connection.{Connection}
use starnext_import.External.Float.{Float}
use starnext_import.External.Oracle.{Oracle}
use starnext_import.FieldMetadata.Decimal.{decimal}
use starnext_import.Prelude.Text.{Text, codes}
use starnext_import.Prelude.{
  ℕ, zero, suc, ◌==◌, ltb, if◌then◌else◌, List, [], ◌∷◌, ◌++◌, Option, none, some, Outcome, ok, err,
  panic, running, map_err, get_elem?, unwrap, ◌>>=◌,
}
use starnext_import.Types.CountKind.{CountKind}
use starnext_import.Types.Direction.{LaneDirection, RoadDirection}
use starnext_import.Types.Errors.{CountError, db_error}

pub record Metadata ⦃c : Chrono⦄ ⦃f : Float⦄ : Type 0 where
  pub amending : Option Text
  pub ampeak : Option f.F32
  pub bikepeddesc : Option Text
  pub bikepedfacility : Option Text
  pub bikepedgroup : Option Text
  pub cntdir : Option RoadDirection
  pub comments : Option Text
  pub count_kind : Option CountKind
  pub counter_id : Option Text
  pub createheaderdate : Option c.NaiveDate
  pub datelastcounted : Option c.NaiveDate
  pub description : Option Text
  pub fc : Option ℕ
  pub fromlmt : Option Text
  pub importdatadate : Option c.NaiveDate
  pub indir : Option LaneDirection
  pub isurban : Option Text
  pub latitude : Option f.F32
  pub longitude : Option f.F32
  pub mcd : Option Text
  pub mp : Option Text
  pub offset : Option Text
  pub outdir : Option LaneDirection
  pub pmending : Option Text
  pub pmpeak : Option f.F32
  pub prj : Option Text
  pub program : Option Text
  pub recordnum : Option ℕ
  pub rdprefix : Option Text
  pub rdsuffix : Option Text
  pub road : Option Text
  pub route : Option ℕ
  pub seg : Option Text
  pub sidewalk : Option Text
  pub speedlimit : Option ℕ
  pub source : Option Text
  pub sr : Option Text
  pub sri : Option Text
  pub stationid : Option Text
  pub tolmt : Option Text
  pub trafdir : Option RoadDirection
  pub x : Option f.F32
  pub y : Option f.F32

-- `RECORD_CREATION_LIMIT`.
abbrev pub record_creation_limit : ℕ
record_creation_limit = 50

-- The columns of the statement of `insert_metadata_from_existing`, each with a placeholder.
abbrev pub metadata_columns : List Text
metadata_columns =
    codes "amending"
    ∷ codes "ampeak"
    ∷ codes "bikepeddesc"
    ∷ codes "bikepedfacility"
    ∷ codes "bikepedgroup"
    ∷ codes "cntdir"
    ∷ codes "comments"
    ∷ codes "type"
    ∷ codes "counterid"
    ∷ codes "createheaderdate"
    ∷ codes "datelastcounted"
    ∷ codes "description"
    ∷ codes "fc"
    ∷ codes "fromlmt"
    ∷ codes "importdatadate"
    ∷ codes "indir"
    ∷ codes "isurban"
    ∷ codes "latitude"
    ∷ codes "longitude"
    ∷ codes "mcd"
    ∷ codes "mp"
    ∷ codes "offset"
    ∷ codes "outdir"
    ∷ codes "pmending"
    ∷ codes "pmpeak"
    ∷ codes "prj"
    ∷ codes "program"
    ∷ codes "rdprefix"
    ∷ codes "rdsuffix"
    ∷ codes "road"
    ∷ codes "route"
    ∷ codes "seg"
    ∷ codes "sidewalk"
    ∷ codes "speedlimit"
    ∷ codes "source"
    ∷ codes "sr"
    ∷ codes "sri"
    ∷ codes "stationid"
    ∷ codes "takenby"
    ∷ codes "tolmt"
    ∷ codes "trafdir"
    ∷ codes "x"
    ∷ codes "y"
    ∷ []

module _ ⦃c : Chrono⦄ ⦃f : Float⦄ (o : Oracle c f) where
  -- The values that are bound; the last is `None`, for the number that is returned.
  abbrev pub metadata_values : Metadata → List o.SqlValue
  metadata_values m =
      of_option o o.of_text m.amending
      ∷ of_option o o.of_f32 m.ampeak
      ∷ of_option o o.of_text m.bikepeddesc
      ∷ of_option o o.of_text m.bikepedfacility
      ∷ of_option o o.of_text m.bikepedgroup
      ∷ of_option o (of_road_direction o) m.cntdir
      ∷ of_option o o.of_text m.comments
      ∷ of_option o (of_count_kind o) m.count_kind
      ∷ of_option o o.of_text m.counter_id
      ∷ of_option o o.of_date m.createheaderdate
      ∷ of_option o o.of_date m.datelastcounted
      ∷ of_option o o.of_text m.description
      ∷ of_option o o.of_u32 m.fc
      ∷ of_option o o.of_text m.fromlmt
      ∷ of_option o o.of_date m.importdatadate
      ∷ of_option o (of_lane_direction o) m.indir
      ∷ of_option o o.of_text m.isurban
      ∷ of_option o o.of_f32 m.latitude
      ∷ of_option o o.of_f32 m.longitude
      ∷ of_option o o.of_text m.mcd
      ∷ of_option o o.of_text m.mp
      ∷ of_option o o.of_text m.offset
      ∷ of_option o (of_lane_direction o) m.outdir
      ∷ of_option o o.of_text m.pmending
      ∷ of_option o o.of_f32 m.pmpeak
      ∷ of_option o o.of_text m.prj
      ∷ of_option o o.of_text m.program
      ∷ of_option o o.of_text m.rdprefix
      ∷ of_option o o.of_text m.rdsuffix
      ∷ of_option o o.of_text m.road
      ∷ of_option o o.of_u32 m.route
      ∷ of_option o o.of_text m.seg
      ∷ of_option o o.of_text m.sidewalk
      ∷ of_option o o.of_u8 m.speedlimit
      ∷ of_option o o.of_text m.source
      ∷ of_option o o.of_text m.sr
      ∷ of_option o o.of_text m.sri
      ∷ of_option o o.of_text m.stationid
      ∷ of_option o o.of_text m.tolmt
      ∷ of_option o (of_road_direction o) m.trafdir
      ∷ of_option o o.of_f32 m.x
      ∷ of_option o o.of_f32 m.y
      ∷ o.null
      ∷ []

module _ ⦃c : Chrono⦄ ⦃f : Float⦄ {o : Oracle c f} (conn : Connection o) where
  -- `number` is 0 or above the limit: the error.
  abbrev pub refusal : ℕ → Option CountError
  refusal number =
      if number == 0
      then some (db_error (codes "Cannot create 0 records"))
      else if ltb record_creation_limit number
      then some (
          db_error (
            codes "Too many new records requested: cannot created more than "
            ++ decimal record_creation_limit))
      else none

  -- `stmt.returned_values("recordnum")?[0]`.
  abbrev pub first_returned : Outcome o.OracleError (List ℕ) → Outcome CountError ℕ
  first_returned returned =
      map_err (of_oracle conn) returned >>= λ numbers. unwrap (get_elem? numbers 0)

  -- What a statement of the loop gives.
  abbrev pub created : Outcome o.OracleError (Outcome o.OracleError (List ℕ)) → Outcome CountError ℕ
  created result = map_err (of_oracle conn) result >>= first_returned

  -- The loop ends with the statement that fails.
  abbrev pub next_record :
      Outcome CountError ℕ × conn.State
      → (ℕ → conn.State → Outcome CountError (List ℕ) × conn.State)
      → Outcome CountError (List ℕ) × conn.State
  next_record (ok recordnum, s) rest = rest recordnum s
  next_record (err e, s) rest = (err e, s)
  next_record (panic, s) rest = (panic, s)
  next_record (running, s) rest = (running, s)

  -- `conn.commit()?`.
  abbrev pub all_committed :
      List ℕ → Option o.OracleError × conn.State → Outcome CountError (List ℕ) × conn.State
  all_committed recordnums (none, s) = (ok recordnums, s)
  all_committed recordnums (some e, s) = (err (of_oracle conn e), s)

  -- The loop, with the records that are left to create, and the commit after it.
  unfoldable pub create_records :
      List Text
      → List o.SqlValue
      → ℕ
      → List ℕ
      → conn.State
      → Outcome CountError (List ℕ) × conn.State
  create_records columns values zero recordnums s = all_committed recordnums (conn.commit s)
  create_records columns values (suc n) recordnums s =
      let result = conn.execute_returning (codes "tc_header") columns values s in
      next_record (created result.0, result.1)
        (λ recordnum s. create_records columns values n (recordnums ++ recordnum ∷ []) s)

  abbrev pub unless_refused :
      Option CountError
      → conn.State
      → Outcome CountError (List ℕ) × conn.State
      → Outcome CountError (List ℕ) × conn.State
  unless_refused none s result = result
  unless_refused (some e) s result = (err e, s)

  -- `conn.statement(sql).build()?`.
  abbrev pub if_built :
      Option o.OracleError
      → conn.State
      → Outcome CountError (List ℕ) × conn.State
      → Outcome CountError (List ℕ) × conn.State
  if_built none s result = result
  if_built (some e) s result = (err (of_oracle conn e), s)

  -- The statement has no placeholder but that of the number; its column is set to CURRENT_DATE.
  unfoldable pub insert_empty_metadata : ℕ → conn.State → Outcome CountError (List ℕ) × conn.State
  unfolding create_records
  insert_empty_metadata number s =
      unless_refused (refusal number) s (create_records [] (o.null ∷ []) number [] s)

  unfoldable pub insert_metadata_from_existing :
      ℕ → Metadata → conn.State → Outcome CountError (List ℕ) × conn.State
  unfolding create_records
  insert_metadata_from_existing number metadata s = unless_refused (refusal number) s (
      if_built (conn.prepare (codes "tc_header") metadata_columns s) s
        (create_records metadata_columns (metadata_values o metadata) number [] s))
