-- ===== src/Database/Value.antt =====
-- src/db/oracle_impls.rs: `FromSql` and `ToSql` of the enums, and the options that the crate builds
-- on them.
use starnext_import.External.Chrono.{Chrono}
use starnext_import.External.Float.{Float}
use starnext_import.External.Oracle.{Oracle, OracleLaws}
use starnext_import.Prelude.{
  ◌≡◌, refl, Option, none, some, Outcome, ok, err, panic, running, if◌then◌else◌,
}
use starnext_import.Types.CountKind
use starnext_import.Types.CountKind.{CountKind}
use starnext_import.Types.Direction.Lane
use starnext_import.Types.Direction.Road
use starnext_import.Types.Direction.{LaneDirection, RoadDirection}
use starnext_import.Types.Errors.{CountError, unknown_count_type, bad_direction}

module _ ⦃c : Chrono⦄ ⦃f : Float⦄ (o : Oracle c f) where
  -- The match on the result of `CountKind::from_str`.
  abbrev pub kind_result : Outcome CountError CountKind → Outcome o.OracleError CountKind
  kind_result (ok v) = ok v
  kind_result (err (unknown_count_type _)) = err o.null_value
  kind_result (err e) = err (o.parse_error e)
  kind_result panic = panic
  kind_result running = running

  -- The match on the result of `from_str` of a direction.
  abbrev pub direction_result : {A : Type 0} → Outcome CountError A → Outcome o.OracleError A
  direction_result (ok v) = ok v
  direction_result (err (bad_direction _)) = err o.null_value
  direction_result (err e) = err (o.parse_error e)
  direction_result panic = panic
  direction_result running = running

  -- `impl FromSql`.
  unfoldable pub as_count_kind : o.SqlValue → Outcome o.OracleError CountKind
  unfolding CountKind.from_str
  as_count_kind val = kind_result (CountKind.from_str (o.to_string val))

  unfoldable pub as_lane_direction : o.SqlValue → Outcome o.OracleError LaneDirection
  unfolding Lane.from_str
  as_lane_direction val = direction_result (Lane.from_str (o.to_string val))

  unfoldable pub as_road_direction : o.SqlValue → Outcome o.OracleError RoadDirection
  unfolding Road.from_str
  as_road_direction val = direction_result (Road.from_str (o.to_string val))

  -- `impl ToSql`: the text that `Display` gives.
  abbrev pub of_count_kind : CountKind → o.SqlValue
  of_count_kind k = o.of_text (CountKind.display k)

  abbrev pub of_lane_direction : LaneDirection → o.SqlValue
  of_lane_direction d = o.of_text (Lane.display d)

  abbrev pub of_road_direction : RoadDirection → o.SqlValue
  of_road_direction d = o.of_text (Road.display d)

  -- The crate's `ToSql` and `FromSql` of an `Option`.
  unfoldable pub of_option : {A : Type 0} → (A → o.SqlValue) → Option A → o.SqlValue
  of_option write none = o.null
  of_option write (some a) = write a

  abbrev pub option_result :
      {A : Type 0} → Outcome o.OracleError A → Outcome o.OracleError (Option A)
  option_result (ok a) = ok (some a)
  option_result (err e) = if o.is_null_value e then ok none else err e
  option_result panic = panic
  option_result running = running

  unfoldable pub as_option :
      {A : Type 0}
      → (o.SqlValue → Outcome o.OracleError A)
      → o.SqlValue
      → Outcome o.OracleError (Option A)
  as_option read val = option_result (read val)

module _ ⦃c : Chrono⦄ ⦃f : Float⦄ {o : Oracle c f} (laws : OracleLaws o) where
  pub as_lane_direction-of_lane_direction :
      (d : LaneDirection) → as_lane_direction o (of_lane_direction o d) ≡ ok d
  unfolding as_lane_direction
  as_lane_direction-of_lane_direction d =
      rw (laws.to_string-of_text (Lane.display d), Lane.from_str-display d) refl

  pub as_road_direction-of_road_direction :
      (d : RoadDirection) → as_road_direction o (of_road_direction o d) ≡ ok d
  unfolding as_road_direction
  as_road_direction-of_road_direction d =
      rw (laws.to_string-of_text (Road.display d), Road.from_str-display d) refl

  pub as_count_kind-of_count_kind : (k : CountKind) → as_count_kind o (of_count_kind o k) ≡ ok k
  unfolding as_count_kind
  as_count_kind-of_count_kind k =
      rw (laws.to_string-of_text (CountKind.display k), CountKind.from_str-display k) refl

  pub as_option-none :
      {A : Type 0} (write : A → o.SqlValue) (read : o.SqlValue → Outcome o.OracleError A)
      → read o.null ≡ err o.null_value
      → as_option o read (of_option o write none) ≡ ok none
  unfolding as_option of_option
  as_option-none write read nulls = rw (nulls, laws.is_null_value-null_value) refl

  pub as_option-some :
      {A : Type 0} (write : A → o.SqlValue) (read : o.SqlValue → Outcome o.OracleError A) (a : A)
      → read (write a) ≡ ok a
      → as_option o read (of_option o write (some a)) ≡ ok (some a)
  unfolding as_option of_option
  as_option-some write read a back = rw back refl

  -- An option whose values are all read back is read back.
  pub as_option-of_option :
      {A : Type 0} (write : A → o.SqlValue) (read : o.SqlValue → Outcome o.OracleError A)
      (v : Option A)
      → read o.null ≡ err o.null_value
      → ((a : A) → read (write a) ≡ ok a)
      → as_option o read (of_option o write v) ≡ ok v
  as_option-of_option write read none nulls back = as_option-none write read nulls
  as_option-of_option write read (some a) nulls back = as_option-some write read a (back a)

  pub as_lane_direction-null : as_lane_direction o o.null ≡ err o.null_value
  unfolding as_lane_direction Lane.from_str
  as_lane_direction-null = rw laws.to_string-null refl

  pub as_count_kind-null : as_count_kind o o.null ≡ err o.null_value
  unfolding as_count_kind CountKind.from_str
  as_count_kind-null = rw laws.to_string-null refl
